-- ===== src/App/Run/Orderly.antt =====
-- The order in which `run` of src/app/Application.cpp opens, serves and closes.
use long.Base.{
  ℕ, zero, suc, ◌≡◌, refl, subst, ◌⊎◌, inl, inr, Bool, true, false, not, List, [], ◌∷◌, ◌++◌,
  Option, none, some, eq_of_some, if◌then◌else◌,
}
use long.Base.Int.{ℤ, negsuc}
use long.Handle.{Handle}
use long.Network.Listener.{accept_client}
use long.App.Run.{
  Event, camera_opened, camera_closed, listening, server_closed, served, closed_client, Arrival,
  arrived, accept_loop, RunAnswers, OpenEnd, camera_ready, not_running, interrupted, closing,
  run_from, open_loop, run,
}

-- What is open: nothing, the camera, the listening socket too, a client as well, or the listening
-- socket alone.
pub data Phase : Type 0 where
  off camera_on listens socket_on : Phase
  serves : ℤ → Phase

-- An event has its place in one phase, and a client is closed by its own descriptor.
pub data Step : Phase → Event → Phase → Type 0 where
  opens : Step off camera_opened camera_on
  gives_up : Step camera_on camera_closed off
  listens_too : Step camera_on listening listens
  client_comes : (fd : ℤ) → Step listens (served fd) (serves fd)
  client_goes : (fd : ℤ) → Step (serves fd) (closed_client fd) listens
  camera_goes : Step listens camera_closed socket_on
  server_goes : Step socket_on server_closed off

pub data Trace : Phase → List Event → Phase → Type 0 where
  here : (p : Phase) → Trace p [] p
  step :
      (p q r : Phase) (e : Event) (es : List Event) → Step p e q → Trace q es r → Trace p (e ∷ es) r

pub data Orderly (a : RunAnswers) (code : ℕ) (events : List Event) : Type 0 where
  all_closed :
      Trace off events off
      → (code ≡ 0) ⊎ ((code ≡ 1) × (a.listened ≡ false))
      → Orderly a code events
  camera_left :
      Trace off events camera_on → code ≡ 0 → a.still_running ≡ false → Orderly a code events

Trace-append :
    (p q r : Phase) (es fs : List Event) → Trace p es q → Trace q fs r → Trace p (es ++ fs) r
Trace-append _ _ r _ fs (here p) g = g
Trace-append _ q r _ fs (step p p' _ e es s f) g =
    step p p' r e (es ++ fs) s (Trace-append p' q r es fs f g)

arrived-Trace :
    (fd : ℤ) (rest : Option (List Event)) (events : List Event)
    → arrived fd rest ≡ some events
    → ((es : List Event) → rest ≡ some es → Trace listens es listens)
    → Trace listens events listens
unfolding arrived
arrived-Trace (negsuc zero) rest events e h = h events e
arrived-Trace (negsuc (suc zero)) rest events e h =
    subst (λ t. Trace listens t listens) (eq_of_some e) (here listens)
arrived-Trace fd none events e h = absurd (nothing e)
  where
    nothing : {P : Type 0} → ◌≡◌ {A = Option (List Event)} none (some events) → P
    nothing e = absurd cc
arrived-Trace fd (some es) events e h =
    subst (λ t. Trace listens t listens) (eq_of_some e)
      (step listens (serves fd) listens (served fd) (closed_client fd ∷ es) (client_comes fd)
        (step (serves fd) listens listens (closed_client fd) es (client_goes fd) (h es refl)))

accept_loop-Trace :
    (server : Handle) (arrivals : List Arrival) (events : List Event)
    → accept_loop server arrivals ≡ some events
    → Trace listens events listens
unfolding accept_loop
accept_loop-Trace server [] events e = absurd cc
accept_loop-Trace server (a ∷ more) events e =
    go a.running e (λ es g. accept_loop-Trace server more es g)
  where
    go :
        (b : Bool)
        → (if b
            then arrived (accept_client server a.selected a.accepted) (accept_loop server more)
            else some [])
          ≡ some events
        → ((es : List Event) → accept_loop server more ≡ some es → Trace listens es listens)
        → Trace listens events listens
    go false f next = subst (λ t. Trace listens t listens) (eq_of_some f) (here listens)
    go true f next =
        arrived-Trace (accept_client server a.selected a.accepted) (accept_loop server more) events
          f next

closing-Orderly :
    (a : RunAnswers) (o : Option (List Event)) (code : ℕ) (events : List Event)
    → closing o ≡ some (code, events)
    → ((es : List Event) → o ≡ some es → Trace listens es listens)
    → Orderly a code events
unfolding closing
closing-Orderly a none code events e h = absurd (nothing e)
  where
    nothing : {P : Type 0} → ◌≡◌ {A = Option (ℕ × List Event)} none (some (code, events)) → P
    nothing e = absurd cc
closing-Orderly a (some es) code events e h =
    let same = eq_of_some e in
    subst (λ (t : ℕ × List Event). Orderly a t.0 t.1) same
      (all_closed
        (step off camera_on off _ _ opens (
          step camera_on listens off _ _ listens_too (
            Trace-append listens listens off es _ (h es refl) (
              step listens socket_on off _ _ camera_goes
                (step socket_on off off _ _ server_goes (here off))))))
        (inl refl))

run_from-Orderly :
    (a : RunAnswers) (end : OpenEnd) (code : ℕ) (events : List Event)
    → run_from a end ≡ some (code, events)
    → Orderly a code events
unfolding run_from
run_from-Orderly a interrupted code events e =
    subst (λ (t : ℕ × List Event). Orderly a t.0 t.1) (eq_of_some e)
      (all_closed (here off) (inl refl))
run_from-Orderly a not_running code events e =
    subst (λ (t : ℕ × List Event). Orderly a t.0 t.1) (eq_of_some e)
      (all_closed (here off) (inl refl))
run_from-Orderly a camera_ready code events e = go a.still_running a.listened refl refl e
  where
    go :
        (b c : Bool)
        → a.still_running ≡ b
        → a.listened ≡ c
        → (if not b
            then some (0, camera_opened ∷ [])
            else if not c
            then some (1, camera_opened ∷ camera_closed ∷ [])
            else closing (accept_loop a.server a.arrivals))
          ≡ some (code, events)
        → Orderly a code events
    go false c u v f =
        subst (λ (t : ℕ × List Event). Orderly a t.0 t.1) (eq_of_some f)
          (camera_left (step off camera_on camera_on _ _ opens (here camera_on)) refl u)
    go true false u v f =
        subst (λ (t : ℕ × List Event). Orderly a t.0 t.1) (eq_of_some f)
          (all_closed
            (step off camera_on off _ _ opens (step camera_on off off _ _ gives_up (here off)))
            (inr (refl, v)))
    go true true u v f =
        closing-Orderly a (accept_loop a.server a.arrivals) code events f
          (λ es g. accept_loop-Trace a.server a.arrivals es g)

-- Whatever `run` meets, it does things in their order: the camera is open before the port listens,
-- a client is served only while the port listens and closed before the next is taken; and at the
-- end it has closed all that it opened, but for the camera where a stop was requested just as it
-- was opened. It returns 1 only if the port could not listen, and 0 otherwise.
pub run-Orderly :
    (a : RunAnswers) (code : ℕ) (events : List Event)
    → run a ≡ some (code, events)
    → Orderly a code events
unfolding run
run-Orderly a code events e = go (open_loop a.attempts) e
  where
    go :
        (o : Option OpenEnd)
        → (elim o [ none ↦ none | some end ↦ run_from a end ]) ≡ some (code, events)
        → Orderly a code events
    go none f = absurd (nothing f)
      where
        nothing : {P : Type 0} → ◌≡◌ {A = Option (ℕ × List Event)} none (some (code, events)) → P
        nothing e = absurd cc
    go (some end) f = run_from-Orderly a end code events f
