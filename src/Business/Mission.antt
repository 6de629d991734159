-- ===== src/Business/Mission.antt =====
-- include/business/MissionManager.h and src/business/MissionManager.cpp: the queue of tasks.
pub mod Valid
pub mod Cancel
use long.Base.{
  ℕ, ◌+◌, ◌%◌, ◌^◌, Bool, true, false, not, ◌&&◌, List, [], ◌∷◌, ◌++◌, Option, none, some,
  if◌then◌else◌, ◌==◌,
}
use long.Model.{Task, TaskStatus}

-- `has_cb` is that `onChanged_` is set; `next_id` is a `uint32_t`.
pub record MissionManager : Type 0 where
  pub queue : List Task
  pub next_id : ℕ
  pub has_cb : Bool

abbrev pub initial : MissionManager
initial = record { queue = []; next_id = 1; has_cb = false }

abbrev pub on_task_changed : MissionManager → Bool → MissionManager
on_task_changed m has_cb = record m { has_cb = has_cb }

-- The state after a call, its result, and the tasks that the callback is called with.
pub record Outcome (A : Type 0) : Type 0 where
  pub state : MissionManager
  pub result : A
  pub changed : List Task

abbrev pub call_back : Bool → Task → List Task
call_back has_cb t = if has_cb then t ∷ [] else []

unfoldable pub enqueue : MissionManager → Task → Outcome ℕ
enqueue m task =
    let task' : Task = record task { id = m.next_id; status = TaskStatus.pending } in
    record {
      state = record m { queue = m.queue ++ (task' ∷ []); next_id = (m.next_id + 1) % 2 ^ 32 };
      result = task'.id;
      changed = call_back m.has_cb task';
    }

abbrev pub is_completed : TaskStatus → Bool
is_completed TaskStatus.completed = true
is_completed _ = false

abbrev pub is_running : TaskStatus → Bool
is_running TaskStatus.running = true
is_running _ = false

-- `t.id == taskId && t.status != TaskStatus::Completed`
abbrev pub can_cancel : ℕ → Task → Bool
can_cancel task_id t = (t.id == task_id) && not (is_completed t.status)

abbrev pub as_cancelled : Task → Task
as_cancelled t = record t { status = TaskStatus.cancelled }

-- The loop of `cancel`: the queue after it, and the task that it has changed.
unfoldable pub cancel_loop : List Task → ℕ → List Task × Option Task
cancel_loop [] task_id = ([], none)
cancel_loop (t ∷ ts) task_id =
    let rest = cancel_loop ts task_id in
    if can_cancel task_id t
    then (as_cancelled t ∷ ts, some (as_cancelled t))
    else (t ∷ rest.0, rest.1)

pub finish_cancel : MissionManager → List Task × Option Task → Outcome Bool
finish_cancel m (queue, none) = record {
  state = record m { queue = queue };
  result = false;
  changed = [];
}
finish_cancel m (queue, some t) = record {
  state = record m { queue = queue };
  result = true;
  changed = call_back m.has_cb t;
}

unfoldable pub cancel : MissionManager → ℕ → Outcome Bool
unfolding finish_cancel
cancel m task_id = finish_cancel m (cancel_loop m.queue task_id)

find_running : List Task → Option Task
find_running [] = none
find_running (t ∷ ts) = let rest = find_running ts in if is_running t.status then some t else rest

unfoldable pub current_task : MissionManager → Option Task
unfolding find_running
current_task m = find_running m.queue

-- The body is a comment in the source.
unfoldable pub tick : MissionManager → MissionManager
tick m = m
