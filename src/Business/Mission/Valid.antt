-- ===== src/Business/Mission/Valid.antt =====
-- The queues that calls of the MissionManager can bring about.
use long.Base.{
  ℕ, suc, ◌+◌, ◌-◌, ◌%◌, ◌^◌, ◌<◌, ◌≡◌, refl, Bool, false, Bool-cases, inl, inr, List, [], ◌∷◌,
  ◌++◌, Option, none, some, All, All-append, arith,
}
use long.Model.{Task}
use long.Business.Mission.{
  MissionManager, initial, on_task_changed, enqueue, can_cancel, cancel_loop, finish_cancel, cancel,
  is_running, find_running, current_task, tick,
}
use long.Business.Mission.Cancel.{Rise}

abbrev pub IsValid : MissionManager → Type 0
IsValid m = Rise 1 m.next_id m.queue

-- The managers after some calls, `n` of them calls of `enqueue`.
pub data Reachable : ℕ → MissionManager → Type 0 where
  started : Reachable 0 initial
  enqueued :
      (n : ℕ) (m : MissionManager) (t : Task)
      → Reachable n m
      → Reachable (suc n) (enqueue m t).state
  cancelled :
      (n : ℕ) (m : MissionManager) (id : ℕ) → Reachable n m → Reachable n (cancel m id).state
  watched :
      (n : ℕ) (m : MissionManager) (has_cb : Bool)
      → Reachable n m
      → Reachable n (on_task_changed m has_cb)
  ticked : (n : ℕ) (m : MissionManager) → Reachable n m → Reachable n (tick m)

Rise-append :
    (low high : ℕ) (t : Task) (ts : List Task)
    → t.id ≡ high
    → Rise low high ts
    → Rise low (high + 1) (ts ++ (t ∷ []))
Rise-append low high t [] e r = (omega arith, omega arith)
Rise-append low high t (u ∷ us) e r = (r.0, Rise-append (u.id + 1) high t us e r.1)

Rise-cancel_loop :
    (id low high : ℕ) (ts : List Task) → Rise low high ts → Rise low high (cancel_loop ts id).0
unfolding cancel_loop
Rise-cancel_loop id low high [] r = r
Rise-cancel_loop id low high (t ∷ ts) r = elim (Bool-cases (can_cancel id t)) [
  | inl e ↦ rw e r
  | inr e ↦ rw e (r.0, Rise-cancel_loop id (t.id + 1) high ts r.1)
]

-- The state after `cancel`, whatever it has found.
cancel-state :
    (m : MissionManager) (id : ℕ)
    → (cancel m id).state ≡ record m { queue = (cancel_loop m.queue id).0 }
unfolding cancel finish_cancel
cancel-state m id = go (cancel_loop m.queue id)
  where
    go : (r : List Task × Option Task) → (finish_cancel m r).state ≡ record m { queue = r.0 }
    go (queue, none) = refl
    go (queue, some t) = refl

-- The ids of a queue after at most 2^32 - 2 calls of `enqueue` rise from 1 on: each is given to one
-- task alone, and the next to be given is above all of them.
pub reachable-IsValid :
    (n : ℕ) (m : MissionManager) → Reachable n m → n < 2 ^ 32 - 1 → (m.next_id ≡ n + 1) × IsValid m
unfolding enqueue tick
reachable-IsValid _ _ started h = (refl, omega arith)
reachable-IsValid _ _ (enqueued n m t r) h =
    let (e, v) = reachable-IsValid n m r (omega arith) in
    let next : (m.next_id + 1) % 2 ^ 32 ≡ m.next_id + 1 = omega arith in
    (omega arith, rw next (Rise-append 1 m.next_id _ m.queue refl v))
reachable-IsValid _ _ (cancelled n m id r) h =
    let (e, v) = reachable-IsValid n m r h in
    rw (cancel-state m id) (e, Rise-cancel_loop id 1 m.next_id m.queue v)
reachable-IsValid _ _ (watched n m has_cb r) h = reachable-IsValid n m r h
reachable-IsValid _ _ (ticked n m r) h = reachable-IsValid n m r h

abbrev IsIdle : Task → Type 0
IsIdle t = is_running t.status ≡ false

All-cancel_loop : (id : ℕ) (ts : List Task) → All IsIdle ts → All IsIdle (cancel_loop ts id).0
unfolding cancel_loop
All-cancel_loop id [] h = h
All-cancel_loop id (t ∷ ts) h = elim (Bool-cases (can_cancel id t)) [
  | inl e ↦ rw e (refl, h.1)
  | inr e ↦ rw e (h.0, All-cancel_loop id ts h.1)
]

reachable-IsIdle : (n : ℕ) (m : MissionManager) → Reachable n m → All IsIdle m.queue
unfolding enqueue tick
reachable-IsIdle _ _ started = tt
reachable-IsIdle _ _ (enqueued n m t r) =
    All-append IsIdle m.queue (_ ∷ []) (reachable-IsIdle n m r) (refl, tt)
reachable-IsIdle _ _ (cancelled n m id r) =
    rw (cancel-state m id) (All-cancel_loop id m.queue (reachable-IsIdle n m r))
reachable-IsIdle _ _ (watched n m has_cb r) = reachable-IsIdle n m r
reachable-IsIdle _ _ (ticked n m r) = reachable-IsIdle n m r

find_running-IsIdle : (ts : List Task) → All IsIdle ts → find_running ts ≡ none
unfolding find_running
find_running-IsIdle [] h = refl
find_running-IsIdle (t ∷ ts) h = rw (h.0, find_running-IsIdle ts h.1) refl

-- No call makes a task run, so there is never a current task.
pub reachable-current_task : (n : ℕ) (m : MissionManager) → Reachable n m → current_task m ≡ none
unfolding current_task
reachable-current_task n m r = find_running-IsIdle m.queue (reachable-IsIdle n m r)
