-- ===== src/Core/StateMachine/Follow.antt =====
-- What `StateMachine::process` tells the callbacks.
use long.Base.{
  ℕ, ◌≡◌, refl, sym, ap, subst, ◌∙◌, Bool, true, false, Bool-cases, inl, inr, List, [], ◌∷◌, ◌++◌,
  Option, none, some, All, eq_of_some, if◌then◌else◌, ◌==◌, ==-refl, arith,
}
use long.Core.StateMachine.{
  Info, StateMachine, same_key, put, find, add_transition, Effect, exited, entered, acted, allowed,
  take_transition, found, process,
}

-- The state in which a watcher of the callbacks believes the machine to be; `none` where they
-- contradict each other.
abbrev pub follow : Option ℕ → List Effect → Option ℕ
follow none es = none
follow (some s) [] = some s
follow (some s) (exited t ∷ es) = follow (if s == t then some s else none) es
follow (some s) (entered t ∷ es) = follow (if s == t then some s else none) es
follow (some s) (acted from ev to ∷ es) = follow (if s == from then some to else none) es

-- Every transition has an action.
abbrev pub AllActed : List ((ℕ × ℕ) × Info) → Type 0
AllActed kis = All (λ (ki : (ℕ × ℕ) × Info). ki.1.has_action ≡ true) kis

abbrev pub process_all : StateMachine → List ℕ → StateMachine × List Effect
process_all m [] = (m, [])
process_all m (ev ∷ evs) =
    let next = process m ev in let rest = process_all next.0 evs in (rest.0, next.1.1 ++ rest.1)

follow-append : (o : Option ℕ) (es fs : List Effect) → follow o (es ++ fs) ≡ follow (follow o es) fs
follow-append none es fs = refl
follow-append (some s) [] fs = refl
follow-append (some s) (exited t ∷ es) fs = follow-append (if s == t then some s else none) es fs
follow-append (some s) (entered t ∷ es) fs = follow-append (if s == t then some s else none) es fs
follow-append (some s) (acted from ev to ∷ es) fs =
    follow-append (if s == from then some to else none) es fs

find-acted :
    (kis : List ((ℕ × ℕ) × Info)) (k : ℕ × ℕ) (i : Info)
    → AllActed kis
    → find kis k ≡ some i
    → i.has_action ≡ true
unfolding find
find-acted [] k i h e = absurd cc
find-acted ((k', i') ∷ kis) k i h e = elim (Bool-cases (same_key k' k)) [
  | inl t ↦
      subst (λ (u : Info). u.has_action ≡ true)
        (eq_of_some (subst (λ b. (if b then some i' else find kis k) ≡ some i) t e)) h.0
  | inr t ↦ find-acted kis k i h.1 (subst (λ b. (if b then some i' else find kis k) ≡ some i) t e)
]

follow-here :
    (s t : ℕ) (es : List Effect) → follow (if s == s then some t else none) es ≡ follow (some t) es
follow-here s t es = ap (λ b. follow (if b then some t else none) es) (==-refl s)

follow-transition :
    (cur ev to : ℕ) (exits enters : Bool)
    → follow (some cur) (
        (if exits then exited cur ∷ [] else [])
        ++ ((acted cur ev to ∷ []) ++ (if enters then entered to ∷ [] else [])))
      ≡ some to
follow-transition cur ev to true true =
    follow-here cur cur (acted cur ev to ∷ entered to ∷ [])
    ∙ follow-here cur to (entered to ∷ [])
    ∙ follow-here to to []
follow-transition cur ev to true false =
    follow-here cur cur (acted cur ev to ∷ []) ∙ follow-here cur to []
follow-transition cur ev to false true = follow-here cur to (entered to ∷ []) ∙ follow-here to to []
follow-transition cur ev to false false = follow-here cur to []

take-follow :
    (m : StateMachine) (ev : ℕ) (t : Info)
    → t.has_action ≡ true
    → follow (some m.cur) (take_transition m ev t).1.1 ≡ some (take_transition m ev t).0.cur
unfolding take_transition
take-follow m ev t h = elim (Bool-cases (allowed t m.cur ev)) [
  | inr a ↦ rw a refl
  | inl a ↦ rw (a, h) (follow-transition m.cur ev t.to (m.exit_cb m.cur) (m.enter_cb t.to))
]

trans-take : (m : StateMachine) (ev : ℕ) (t : Info) → (take_transition m ev t).0.trans ≡ m.trans
unfolding take_transition
trans-take m ev t = elim (Bool-cases (allowed t m.cur ev)) [ inr a ↦ rw a refl | inl a ↦ rw a refl ]

process-follow :
    (m : StateMachine) (ev : ℕ)
    → AllActed m.trans
    → (follow (some m.cur) (process m ev).1.1 ≡ some (process m ev).0.cur)
      × ((process m ev).0.trans ≡ m.trans)
unfolding process found
process-follow m ev h = go (find m.trans (m.cur, ev)) refl
  where
    go :
        (o : Option Info)
        → find m.trans (m.cur, ev) ≡ o
        → (follow (some m.cur) (found m ev o).1.1 ≡ some (found m ev o).0.cur)
          × ((found m ev o).0.trans ≡ m.trans)
    go none e = (refl, refl)
    go (some t) e = (take-follow m ev t (find-acted m.trans (m.cur, ev) t h e), trans-take m ev t)

-- Over any events, the callbacks of a machine whose transitions all have actions tell one story:
-- each exit is from the state that the machine was in, each action starts there, each entry is into
-- the state that the action before it gave, and the last state told is the machine's.
pub process_all-follow :
    (m : StateMachine) (evs : List ℕ)
    → AllActed m.trans
    → follow (some m.cur) (process_all m evs).1 ≡ some (process_all m evs).0.cur
process_all-follow m [] h = refl
process_all-follow m (ev ∷ evs) h =
    let next = process m ev in
    follow-append (some m.cur) next.1.1 (process_all next.0 evs).1
    ∙ ap (λ o. follow o (process_all next.0 evs).1) (process-follow m ev h).0
    ∙ process_all-follow next.0 evs (subst AllActed (sym (process-follow m ev h).1) h)

find-put :
    (kis : List ((ℕ × ℕ) × Info)) (k q : ℕ × ℕ) (i : Info)
    → find (put kis k i) q ≡ (if same_key k q then some i else find kis q)
unfolding find put
find-put [] k q i = refl
find-put ((k', i') ∷ kis) k q i = elim (Bool-cases (same_key k' k)) [
  | inl t ↦ rw (t, keys k' k q t) (same_twice (same_key k q))
  | inr t ↦
      rw (t, find-put kis k q i)
        (elim (Bool-cases (same_key k' q)) [
          | inl u ↦ rw (u, other k' k q t u) refl
          | inr u ↦ rw u refl
        ])
]
  where
    same_twice :
        (b : Bool)
        → (if b then some i else find kis q)
          ≡ (if b then some i else (if b then some i' else find kis q))
    same_twice true = refl
    same_twice false = refl

    keys : (k' k q : ℕ × ℕ) → same_key k' k ≡ true → same_key k' q ≡ same_key k q
    keys (a, b) (c, d) (e, f) t = ground arith

    other : (k' k q : ℕ × ℕ) → same_key k' k ≡ false → same_key k' q ≡ true → same_key k q ≡ false
    other (a, b) (c, d) (e, f) t u = ground arith

-- The transition that was added last for a state and an event is the one taken there, also where
-- there was one before; for any other state or event, `process` finds what it found before.
pub process-add_transition :
    (m : StateMachine) (from ev to : ℕ) (has_action : Bool) (guard : Option (ℕ → ℕ → Bool)) (e : ℕ)
    → process (add_transition m from ev to has_action guard) e ≡ (
        if same_key (from, ev) (m.cur, e)
        then take_transition
            (add_transition m from ev to has_action guard)
            e
            (record { to = to; has_action = has_action; guard = guard })
        else found (add_transition m from ev to has_action guard) e (find m.trans (m.cur, e)))
unfolding process found add_transition
process-add_transition m from ev to has_action guard e =
    rw
      (find-put m.trans (from, ev) (m.cur, e)
        (record { to = to; has_action = has_action; guard = guard }))
      (split (same_key (from, ev) (m.cur, e)))
  where
    m' : StateMachine
    m' = add_transition m from ev to has_action guard

    split :
        (b : Bool)
        → found m' e (
            if b
            then some (record { to = to; has_action = has_action; guard = guard })
            else find m.trans (m.cur, e))
          ≡ (if b
              then take_transition m' e (record { to = to; has_action = has_action; guard = guard })
              else found m' e (find m.trans (m.cur, e)))
    split true = refl
    split false = refl
