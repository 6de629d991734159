-- ===== src/Model/Tasks.antt =====
-- include/model/Task.h.
use long.Base.{ℕ, List, []}

pub data TaskType : Type 0 where
  patrol_task goto_task scan_task return_task idle_task : TaskType

abbrev pub type_code : TaskType → ℕ
type_code patrol_task = 0x01
type_code goto_task = 0x02
type_code scan_task = 0x03
type_code return_task = 0x04
type_code idle_task = 0xff

pub data TaskStatus : Type 0 where
  pending running paused completed failed cancelled : TaskStatus

-- A `float` is its 32 bits: nothing computes with them.
pub record Waypoint : Type 0 where
  pub x : ℕ
  pub y : ℕ
  pub heading_deg : ℕ
  pub dwell_ms : ℕ

pub record Task : Type 0 where
  pub id : ℕ
  pub type : TaskType
  pub status : TaskStatus
  pub waypoints : List Waypoint
  pub created_ms : ℕ
  pub started_ms : ℕ
  pub description : List ℕ

abbrev pub default_task : Task
default_task = record {
  id = 0;
  type = idle_task;
  status = pending;
  waypoints = [];
  created_ms = 0;
  started_ms = 0;
  description = [];
}
