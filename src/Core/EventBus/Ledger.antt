-- ===== src/Core/EventBus/Ledger.antt =====
-- A plain list of who listens to what, beside the EventBus.
use long.Base.{ℕ, ◌+◌, ◌≡◌, refl, Bool-cases, inl, inr, List, [], ◌∷◌, ◌++◌, if◌then◌else◌, ◌==◌}
use long.Text.{same_text}
use long.Core.EventBus.{Sub, EventBus, subscribe, unsubscribe}

pub record Entry : Type 0 where
  pub event : List ℕ
  pub sub : Sub

-- The subscriptions to an event, in order.
abbrev pub listeners : List Entry → List ℕ → List Sub
listeners [] event = []
listeners (e ∷ es) event =
    if same_text e.event event then e.sub ∷ listeners es event else listeners es event

-- All subscriptions but those with this id.
abbrev pub without : ℕ → List Entry → List Entry
without id [] = []
without id (e ∷ es) = if e.sub.id == id then without id es else e ∷ without id es

pub data Op : Type 0 where
  subscribe_op : List ℕ → ℕ → Op
  unsubscribe_op : ℕ → Op

abbrev pub run : EventBus → List Op → EventBus
run b [] = b
run b (subscribe_op event h ∷ ops) = run (subscribe b event h).0 ops
run b (unsubscribe_op id ∷ ops) = run (unsubscribe b id) ops

-- The same on the list: an id is the number of subscriptions so far.
abbrev pub list_run : ℕ → List Entry → List Op → List Entry
list_run n es [] = es
list_run n es (subscribe_op event h ∷ ops) =
    list_run (n + 1) (es ++ (record { event = event; sub = record { id = n; handler = h } } ∷ []))
      ops
list_run n es (unsubscribe_op id ∷ ops) = list_run n (without id es) ops

abbrev pub drop_id : ℕ → List Sub → List Sub
drop_id id [] = []
drop_id id (s ∷ v) = if s.id == id then drop_id id v else s ∷ drop_id id v

pub listeners-append :
    (es : List Entry) (event name : List ℕ) (s : Sub)
    → listeners (es ++ (record { event = name; sub = s } ∷ [])) event
      ≡ (if same_text name event then listeners es event ++ (s ∷ []) else listeners es event)
listeners-append [] event name s = refl
listeners-append (e ∷ es) event name s = elim (Bool-cases (same_text e.event event)) [
  | inl t ↦ elim (Bool-cases (same_text name event)) [
    | inl u ↦ rw (t, u, listeners-append es event name s) (rw u refl)
    | inr u ↦ rw (t, u, listeners-append es event name s) (rw u refl)
  ]
  | inr t ↦ rw (t, listeners-append es event name s) refl
]

pub listeners-without :
    (id : ℕ) (es : List Entry) (event : List ℕ)
    → listeners (without id es) event ≡ drop_id id (listeners es event)
listeners-without id [] event = refl
listeners-without id (e ∷ es) event = elim (Bool-cases (e.sub.id == id)) [
  | inl t ↦ elim (Bool-cases (same_text e.event event)) [
    | inl u ↦ rw (t, u, listeners-without id es event) (rw t refl)
    | inr u ↦ rw (t, u, listeners-without id es event) refl
  ]
  | inr t ↦ elim (Bool-cases (same_text e.event event)) [
    | inl u ↦ rw (t, u, listeners-without id es event) (rw t refl)
    | inr u ↦ rw (t, u, listeners-without id es event) refl
  ]
]
