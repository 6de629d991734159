-- ===== src/Business/Mission/Cancel.antt =====
-- `MissionManager::cancel`, and a change of every task with the given id.
use long.Base.{
  ℕ, ◌+◌, ◌≤◌, ◌<◌, ◌≡◌, refl, ap, ◌∙◌, Bool, true, false, Bool-cases, inl, inr, List, [], ◌∷◌, map,
  Option, none, some, if◌then◌else◌, ◌==◌, arith,
}
use long.Model.{Task}
use long.Business.Mission.{
  MissionManager, Outcome, can_cancel, as_cancelled, call_back, cancel_loop, finish_cancel, cancel,
  is_completed,
}

-- The ids rise from `low` on, and are below `high`.
abbrev pub Rise : ℕ → ℕ → List Task → Type 0
Rise low high [] = low ≤ high
Rise low high (t ∷ ts) = (low ≤ t.id) × Rise (t.id + 1) high ts

-- The task with the given id, if it is there.
abbrev pub find : ℕ → List Task → Option Task
find task_id [] = none
find task_id (t ∷ ts) = let rest = find task_id ts in if t.id == task_id then some t else rest

-- What `cancel` is to do to one task.
abbrev pub cancelled_at : ℕ → Task → Task
cancelled_at task_id t = if can_cancel task_id t then as_cancelled t else t

-- Above its own id, a task is not met.
map-cancelled_at :
    (task_id low high : ℕ) (ts : List Task)
    → task_id < low
    → Rise low high ts
    → map (cancelled_at task_id) ts ≡ ts
map-cancelled_at task_id low high [] h r = refl
map-cancelled_at task_id low high (t ∷ ts) h r =
    let other : can_cancel task_id t ≡ false = ground arith in
    rw (other, map-cancelled_at task_id (t.id + 1) high ts (omega (arith, r.0)) r.1) refl

-- The task that `cancel` is to report: the one with the id, if it is not completed.
abbrev pub to_report : Option Task → Option Task
to_report none = none
to_report (some t) = if is_completed t.status then none else some (as_cancelled t)

-- The loop finds nothing.
cancel_loop_above :
    (task_id low high : ℕ) (ts : List Task)
    → task_id < low
    → Rise low high ts
    → cancel_loop ts task_id ≡ (ts, none)
unfolding cancel_loop
cancel_loop_above task_id low high [] h r = refl
cancel_loop_above task_id low high (t ∷ ts) h r =
    let other : can_cancel task_id t ≡ false = ground arith in
    rw (other, cancel_loop_above task_id (t.id + 1) high ts (omega (arith, r.0)) r.1) refl

cancel_loop-map :
    (task_id low high : ℕ) (ts : List Task)
    → Rise low high ts
    → cancel_loop ts task_id ≡ (map (cancelled_at task_id) ts, to_report (find task_id ts))
unfolding cancel_loop
cancel_loop-map task_id low high [] r = refl
cancel_loop-map task_id low high (t ∷ ts) r = elim (Bool-cases (t.id == task_id)) [
  | inl e ↦
      let above : task_id < t.id + 1 = ground arith in
      let unmet = cancel_loop_above task_id (t.id + 1) high ts above r.1 in
      let same = map-cancelled_at task_id (t.id + 1) high ts above r.1 in
      elim (Bool-cases (is_completed t.status)) [
        | inl f ↦ rw (e, f, unmet, same) refl
        | inr f ↦ rw (e, f, same) refl
      ]
  | inr e ↦ rw (e, cancel_loop-map task_id (t.id + 1) high ts r.1) refl
]

-- The outcome that the task found calls for.
abbrev pub told_of : MissionManager → List Task → Option Task → Outcome Bool
told_of m queue none = record { state = record m { queue = queue }; result = false; changed = [] }
told_of m queue (some t) = record {
  state = record m { queue = queue };
  result = true;
  changed = call_back m.has_cb t;
}

-- With ids that rise, `cancel` returns true exactly if the queue has a task with the id that is not
-- completed. It makes that task cancelled, leaves every other as it was, and calls the callback for
-- that task alone.
pub cancel-map :
    (m : MissionManager) (task_id low high : ℕ)
    → Rise low high m.queue
    → cancel m task_id
      ≡ told_of m (map (cancelled_at task_id) m.queue) (to_report (find task_id m.queue))
unfolding cancel finish_cancel
cancel-map m task_id low high r =
    ap (finish_cancel m) (cancel_loop-map task_id low high m.queue r)
    ∙ go (to_report (find task_id m.queue))
  where
    go :
        (o : Option Task)
        → finish_cancel m (map (cancelled_at task_id) m.queue, o)
          ≡ told_of m (map (cancelled_at task_id) m.queue) o
    go none = refl
    go (some t) = refl
