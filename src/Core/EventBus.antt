-- ===== src/Core/EventBus.antt =====
-- include/core/EventBus.h. A call holds the mutex while it reads or changes the state, so calls of
-- several threads are calls one after the other.
pub mod Ledger
pub mod Once
pub mod Refines
use long.Base.{
  ℕ, suc, ◌+◌, Bool, true, false, List, [], ◌∷◌, ◌++◌, map, Option, none, some, if◌then◌else◌, ◌==◌,
}
use long.Text.{same_text}

-- A handler is its name.
pub record Sub : Type 0 where
  pub id : ℕ
  pub handler : ℕ

-- `subs_`, its keys in the order of their first subscription. That order differs from the map's,
-- and shows only in where `unsubscribe` looks first.
pub record EventBus : Type 0 where
  pub subs : List (List ℕ × List Sub)
  pub next_id : ℕ

abbrev pub empty_bus : EventBus
empty_bus = record { subs = []; next_id = 0 }

-- `subs_[event].push_back(…)`
unfoldable pub push_sub : List (List ℕ × List Sub) → List ℕ → Sub → List (List ℕ × List Sub)
push_sub [] event s = (event, s ∷ []) ∷ []
push_sub ((k, v) ∷ kvs) event s =
    let rest = push_sub kvs event s in
    if same_text k event then (k, v ++ (s ∷ [])) ∷ kvs else (k, v) ∷ rest

-- The bus after the call, and the id that it returns.
unfoldable pub subscribe : EventBus → List ℕ → ℕ → EventBus × ℕ
subscribe b event h =
    let id = b.next_id in
    (
      record { subs = push_sub b.subs event (record { id = id; handler = h }); next_id = id + 1 },
      id,
    )

-- The loop over one vector: the vector without the first entry of this id, if there is one.
unfoldable pub erase_sub : List Sub → ℕ → Option (List Sub)
erase_sub [] id = none
erase_sub (s ∷ v) id =
    let rest = erase_sub v id in
    if s.id == id then some v else elim rest [ none ↦ none | some v' ↦ some (s ∷ v') ]

-- The loop over the map, which returns from within.
unfoldable pub erase_from : List (List ℕ × List Sub) → ℕ → List (List ℕ × List Sub)
erase_from [] id = []
erase_from ((k, v) ∷ kvs) id =
    let rest = erase_from kvs id in
    elim (erase_sub v id) [ none ↦ (k, v) ∷ rest | some v' ↦ (k, v') ∷ kvs ]

unfoldable pub unsubscribe : EventBus → ℕ → EventBus
unsubscribe b id = record b { subs = erase_from b.subs id }

unfoldable pub lookup : List (List ℕ × List Sub) → List ℕ → List Sub
lookup [] event = []
lookup ((k, v) ∷ kvs) event = let rest = lookup kvs event in if same_text k event then v else rest

-- The handlers that a call of `publish` calls, in order; each is given the event and the payload.
unfoldable pub publish : EventBus → List ℕ → List ℕ
publish b event = map (λ s. s.handler) (lookup b.subs event)
