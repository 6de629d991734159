-- ===== src/App/Run/Ends.antt =====
-- When `run` of src/app/Application.cpp ends.
use long.Base.{
  ℕ, zero, suc, ◌≡◌, refl, Bool, true, false, not, List, [], ◌∷◌, ◌++◌, Option, some, if◌then◌else◌,
}
use long.Base.Int.{ℤ, pos, negsuc}
use long.Handle.{Handle}
use long.Network.Listener.{accept_client}
use long.App.Run.{
  Event, camera_opened, camera_closed, listening, server_closed, served, closed_client, Attempt,
  Arrival, arrived, accept_loop, RunAnswers, OpenEnd, camera_ready, not_running, interrupted,
  closing, run_from, open_loop, run,
}
use long.App.Run.Orderly.{Orderly, run-Orderly}

-- Some attempt ends the loop that opens the camera.
abbrev pub Decided : List Attempt → Type 0
Decided [] = ⊥
Decided (a ∷ more) =
    if a.running
    then if a.opened then Unit {0} else if a.slept then Decided more else Unit {0}
    else Unit {0}

-- Some arrival ends the loop that accepts clients: `running_` is false, or the socket fails.
abbrev pub Over : ℤ → Type 0 → Type 0
Over (negsuc (suc zero)) later = Unit {0}
Over fd later = later

abbrev pub Stopped : Handle → List Arrival → Type 0
Stopped server [] = ⊥
Stopped server (a ∷ more) =
    if a.running
    then Over (accept_client server a.selected a.accepted) (Stopped server more)
    else Unit {0}

IsDone {ℓ} : {A : Type ℓ} → Option A → Type ℓ
IsDone {A = A} o = (x : A) × (o ≡ some x)

open_loop_ends : (attempts : List Attempt) → Decided attempts → IsDone (open_loop attempts)
unfolding open_loop IsDone
open_loop_ends [] h = absurd h
open_loop_ends (a ∷ more) h = go a.running a.opened a.slept h (λ k. open_loop_ends more k)
  where
    go :
        (r o s : Bool)
        → (if r then if o then Unit {0} else if s then Decided more else Unit {0} else Unit {0})
        → (Decided more → IsDone (open_loop more))
        → IsDone (
            if r
            then if o then some camera_ready else if s then open_loop more else some interrupted
            else some not_running)
    go false o s h next = (not_running, refl)
    go true true s h next = (camera_ready, refl)
    go true false true h next = next h
    go true false false h next = (interrupted, refl)

arrived_ends :
    (fd : ℤ) (rest : Option (List Event)) (later : Type 0)
    → Over fd later
    → (later → IsDone rest)
    → IsDone (arrived fd rest)
unfolding arrived IsDone
arrived_ends (negsuc zero) rest later h next = next h
arrived_ends (negsuc (suc zero)) rest later h next = ([], refl)
arrived_ends (negsuc (suc (suc n))) rest later h next =
    let (events, e) = next h in
    rw e (served (negsuc (suc (suc n))) ∷ closed_client (negsuc (suc (suc n))) ∷ events, refl)
arrived_ends (pos n) rest later h next =
    let (events, e) = next h in rw e (served (pos n) ∷ closed_client (pos n) ∷ events, refl)

accept_loop_ends :
    (server : Handle) (arrivals : List Arrival)
    → Stopped server arrivals
    → IsDone (accept_loop server arrivals)
unfolding accept_loop IsDone
accept_loop_ends server [] h = absurd h
accept_loop_ends server (a ∷ more) h = go a.running h (λ k. accept_loop_ends server more k)
  where
    fd : ℤ
    fd = accept_client server a.selected a.accepted

    go :
        (r : Bool)
        → (if r then Over fd (Stopped server more) else Unit {0})
        → (Stopped server more → IsDone (accept_loop server more))
        → IsDone (if r then arrived fd (accept_loop server more) else some [])
    go false h next = ([], refl)
    go true h next = arrived_ends fd (accept_loop server more) (Stopped server more) h next

run_from_ends :
    (a : RunAnswers) (end : OpenEnd) → Stopped a.server a.arrivals → IsDone (run_from a end)
unfolding run_from closing IsDone
run_from_ends a interrupted h = ((0, []), refl)
run_from_ends a not_running h = ((0, []), refl)
run_from_ends a camera_ready h =
    go a.still_running a.listened (accept_loop_ends a.server a.arrivals h)
  where
    go :
        (b c : Bool)
        → IsDone (accept_loop a.server a.arrivals)
        → IsDone (
            if not b
            then some (0, camera_opened ∷ [])
            else if not c
            then some (1, camera_opened ∷ camera_closed ∷ [])
            else closing (accept_loop a.server a.arrivals))
    go false c k = ((0, camera_opened ∷ []), refl)
    go true false k = ((1, camera_opened ∷ camera_closed ∷ []), refl)
    go true true (events, e) =
        rw e
          ((0, camera_opened ∷ listening ∷ (events ++ (camera_closed ∷ server_closed ∷ []))), refl)

-- Once an attempt ends the opening of the camera (it opens, or a stop is requested) and a stop is
-- requested or the listening socket fails, `run` returns, in good order.
pub run_ends :
    (a : RunAnswers)
    → Decided a.attempts
    → Stopped a.server a.arrivals
    → (r : ℕ × List Event) × ((run a ≡ some r) × Orderly a r.0 r.1)
unfolding run IsDone
run_ends a d s = go (open_loop_ends a.attempts d)
  where
    done :
        (r : ℕ × List Event)
        → run a ≡ some r
        → (r : ℕ × List Event) × ((run a ≡ some r) × Orderly a r.0 r.1)
    done (code, events) e = ((code, events), (e, run-Orderly a code events e))

    go :
        (end : OpenEnd) × (open_loop a.attempts ≡ some end)
        → (r : ℕ × List Event) × ((run a ≡ some r) × Orderly a r.0 r.1)
    go (end, e) = let (r, f) = run_from_ends a end s in done r (rw (e, run) f)
