-- ===== src/Core/Clock/Schedule.antt =====
-- `TaskScheduler::tick` and `Timer::check`.
use long.Base.{
  ℕ, ◌≡◌, refl, true, false, Bool-cases, inl, inr, List, [], ◌∷◌, map, if◌then◌else◌, leb, arith,
}
use long.Core.Clock.{Timer, elapsed_ms, check, Task, tick_loop, TaskScheduler, tick}

-- A repeating timer that has been started.
abbrev pub timer_of : Task → Timer
timer_of t = record {
  interval = t.interval_ms;
  has_cb = t.has_fn;
  repeat = true;
  running = true;
  last = t.last;
}

abbrev pub checked : ℕ → Task → Task
checked now t = record t { last = (check (timer_of t) now).0.last }

abbrev pub called : ℕ → List Task → List ℕ
called now [] = []
called now (t ∷ ts) = if (check (timer_of t) now).1.1 then t.id ∷ called now ts else called now ts

timer_due :
    (t : Task) (now : ℕ)
    → leb t.interval_ms (elapsed_ms now t.last) ≡ true
    → ((check (timer_of t) now).0.last ≡ now) × ((check (timer_of t) now).1.1 ≡ t.has_fn)
unfolding check
timer_due t now e = ground arith

timer_waits :
    (t : Task) (now : ℕ)
    → leb t.interval_ms (elapsed_ms now t.last) ≡ false
    → ((check (timer_of t) now).0.last ≡ t.last) × ((check (timer_of t) now).1.1 ≡ false)
unfolding check
timer_waits t now e = ground arith

tick_loop-check :
    (ts : List Task) (now : ℕ) → tick_loop ts now ≡ (map (checked now) ts, called now ts)
unfolding tick_loop
tick_loop-check [] now = refl
tick_loop-check (t ∷ ts) now = elim (Bool-cases (leb t.interval_ms (elapsed_ms now t.last))) [
  | inl e ↦ rw (e, tick_loop-check ts now, (timer_due t now e).0, (timer_due t now e).1) refl
  | inr e ↦ rw (e, tick_loop-check ts now, (timer_waits t now e).0, (timer_waits t now e).1) refl
]

-- A tick treats each task as a repeating timer of its own that is checked at the same time, and
-- calls the functions of those that fire in the order in which the tasks were added.
pub tick-check :
    (s : TaskScheduler) (now : ℕ)
    → tick s now ≡ (record s { tasks = map (checked now) s.tasks }, called now s.tasks)
unfolding tick
tick-check s now = rw (tick_loop-check s.tasks now) refl
