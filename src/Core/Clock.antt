-- ===== src/Core/Clock.antt =====
-- include/core/Timer.h and include/core/TaskScheduler.h. A time is that of `steady_clock`, in
-- nanoseconds; a call is given the time that it reads.
pub mod Spaced
pub mod Schedule
use long.Base.{
  ℕ, ◌+◌, ◌-◌, ◌*◌, ◌/◌, ◌%◌, ◌^◌, Bool, true, false, List, [], ◌∷◌, ◌++◌, if◌then◌else◌, ◌==◌, ltb,
  leb,
}

-- The milliseconds from `last` to `now`, as a `uint32_t`.
abbrev pub elapsed_ms : ℕ → ℕ → ℕ
elapsed_ms now last = ((now - last) / 1000000) % 2 ^ 32

-- `has_cb` is that `cb_` is set.
pub record Timer : Type 0 where
  pub interval : ℕ
  pub has_cb : Bool
  pub repeat : Bool
  pub running : Bool
  pub last : ℕ

abbrev pub new_timer : ℕ → Bool → Bool → Timer
new_timer interval_ms has_cb repeat = record {
  interval = interval_ms;
  has_cb = has_cb;
  repeat = repeat;
  running = false;
  last = 0;
}

abbrev pub set_interval : Timer → ℕ → Timer
set_interval t ms = record t { interval = ms }

abbrev pub set_callback : Timer → Bool → Timer
set_callback t has_cb = record t { has_cb = has_cb }

abbrev pub set_repeat : Timer → Bool → Timer
set_repeat t r = record t { repeat = r }

abbrev pub start : Timer → ℕ → Timer
start t now = record t { last = now; running = true }

abbrev pub stop : Timer → Timer
stop t = record t { running = false }

abbrev pub reset : Timer → ℕ → Timer
reset t now = record t { last = now }

-- The timer after `check`, its result, and whether the callback is called.
unfoldable pub check : Timer → ℕ → Timer × (Bool × Bool)
check t now =
    if t.running
    then if ltb (elapsed_ms now t.last) t.interval
      then (t, (false, false))
      else (record t { last = now; running = t.repeat }, (true, t.has_cb))
    else (t, (false, false))

-- `has_fn` is that `fn` is set.
pub record Task : Type 0 where
  pub id : ℕ
  pub interval_ms : ℕ
  pub has_fn : Bool
  pub last : ℕ

pub record TaskScheduler : Type 0 where
  pub tasks : List Task
  pub next_id : ℕ

abbrev pub add_task : TaskScheduler → ℕ → Bool → ℕ → TaskScheduler × ℕ
add_task s interval_ms has_fn now =
    let t : Task = record {
      id = s.next_id;
      interval_ms = interval_ms;
      has_fn = has_fn;
      last = now;
    } in
    (record { tasks = s.tasks ++ (t ∷ []); next_id = s.next_id + 1 }, t.id)

remove_from : List Task → ℕ → List Task
remove_from [] id = []
remove_from (t ∷ ts) id = let rest = remove_from ts id in if t.id == id then ts else t ∷ rest

unfoldable pub remove_task : TaskScheduler → ℕ → TaskScheduler
unfolding remove_from
remove_task s id = record s { tasks = remove_from s.tasks id }

-- The tasks after the loop of `tick`, and the ids of those whose function is called, in order.
unfoldable pub tick_loop : List Task → ℕ → List Task × List ℕ
tick_loop [] now = ([], [])
tick_loop (t ∷ ts) now =
    let rest = tick_loop ts now in
    if leb t.interval_ms (elapsed_ms now t.last)
    then (record t { last = now } ∷ rest.0, if t.has_fn then t.id ∷ rest.1 else rest.1)
    else (t ∷ rest.0, rest.1)

unfoldable pub tick : TaskScheduler → ℕ → TaskScheduler × List ℕ
tick s now = (record s { tasks = (tick_loop s.tasks now).0 }, (tick_loop s.tasks now).1)
