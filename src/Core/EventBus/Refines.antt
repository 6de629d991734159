-- ===== src/Core/EventBus/Refines.antt =====
-- The EventBus and the plain list of subscriptions.
use long.Base.{
  ℕ, ◌≤◌, ◌≡◌, refl, sym, ap, ◌∙◌, ==→eq, Bool, true, false, Bool-cases, inl, inr, List, [], ◌∷◌,
  ◌++◌, map, if◌then◌else◌, ◌==◌, arith,
}
use long.Text.{same_text}
use long.Text.Same.{same_text-eq, same_text-other}
use long.Core.EventBus.{Sub, EventBus, empty_bus, push_sub, subscribe, unsubscribe, lookup, publish}
use long.Core.EventBus.Ledger.{
  Entry, Op, subscribe_op, unsubscribe_op, run, list_run, listeners, without, listeners-append,
  listeners-without, drop_id,
}
use long.Core.EventBus.Once.{total, total-push_sub, total-erase_from, lookup-erase_from}

-- The bus `b` holds the subscriptions `es`.
pub record Holds (b : EventBus) (es : List Entry) : Type 0 where
  pub same : (event : List ℕ) → lookup b.subs event ≡ listeners es event
  pub once : (id : ℕ) → total id b.subs ≤ 1
  pub fresh : (id : ℕ) → b.next_id ≤ id → total id b.subs ≡ 0

lookup-push_sub :
    (kvs : List (List ℕ × List Sub)) (name event : List ℕ) (s : Sub)
    → lookup (push_sub kvs name s) event
      ≡ (if same_text name event then lookup kvs event ++ (s ∷ []) else lookup kvs event)
unfolding lookup push_sub
lookup-push_sub [] name event s = refl
lookup-push_sub ((k, v) ∷ kvs) name event s = elim (Bool-cases (same_text k name)) [
  | inl t ↦
      rw (t, ap (λ q. same_text q event) (same_text-eq k name t)) (both (same_text name event))
  | inr t ↦
      rw (t, lookup-push_sub kvs name event s)
        (elim (Bool-cases (same_text k event)) [
          | inl u ↦ rw (u, same_text-other k name event t u) refl
          | inr u ↦ rw u refl
        ])
]
  where
    both :
        (b : Bool)
        → (if b then v ++ (s ∷ []) else lookup kvs event) ≡ (
            if b
            then (if b then v else lookup kvs event) ++ (s ∷ [])
            else (if b then v else lookup kvs event))
    both true = refl
    both false = refl

Holds-empty : Holds empty_bus []
unfolding lookup
Holds-empty = record { same = λ event. refl; once = λ id. omega arith; fresh = λ id h. refl }

total-push_fresh :
    (b : EventBus) (es : List Entry) (event : List ℕ) (h id : ℕ)
    → Holds b es
    → total id (push_sub b.subs event (record { id = b.next_id; handler = h })) ≤ 1
total-push_fresh b es event h id k =
    rw (total-push_sub id b.subs event (record { id = b.next_id; handler = h }))
      (elim (Bool-cases (b.next_id == id)) [
        | inl t ↦ rw (t, k.fresh id (omega (arith, ==→eq b.next_id id t))) (omega arith)
        | inr t ↦ rw t (omega (arith, k.once id))
      ])

Holds-subscribe :
    (b : EventBus) (es : List Entry) (event : List ℕ) (h : ℕ)
    → Holds b es
    → Holds
        (subscribe b event h).0
        (es ++ (record { event = event; sub = record { id = b.next_id; handler = h } } ∷ []))
unfolding subscribe
Holds-subscribe b es event h k =
    let s : Sub = record { id = b.next_id; handler = h } in
    record {
      same = λ name.
          lookup-push_sub b.subs event name s
          ∙ ap (λ v. if same_text event name then v ++ (s ∷ []) else v) (k.same name)
          ∙ sym (listeners-append es name event s);
      once = λ id. total-push_fresh b es event h id k;
      fresh =
          λ id l. rw (total-push_sub id b.subs event s, k.fresh id (omega arith)) (ground arith);
    }

Holds-unsubscribe :
    (b : EventBus) (es : List Entry) (id : ℕ)
    → Holds b es
    → Holds (unsubscribe b id) (without id es)
unfolding unsubscribe
Holds-unsubscribe b es id k = record {
  same = λ event.
      lookup-erase_from id b.subs event (k.once id)
      ∙ ap (drop_id id) (k.same event)
      ∙ sym (listeners-without id es event);
  once = λ x. omega (arith, total-erase_from x id b.subs, k.once x);
  fresh = λ x l. omega (arith, total-erase_from x id b.subs, k.fresh x l);
}

Holds-run :
    (b : EventBus) (es : List Entry) (ops : List Op)
    → Holds b es
    → Holds (run b ops) (list_run b.next_id es ops)
unfolding subscribe unsubscribe
Holds-run b es [] k = k
Holds-run b es (subscribe_op event h ∷ ops) k =
    Holds-run (subscribe b event h).0 _ ops (Holds-subscribe b es event h k)
Holds-run b es (unsubscribe_op id ∷ ops) k =
    Holds-run (unsubscribe b id) (without id es) ops (Holds-unsubscribe b es id k)

-- After any calls on a new bus, `publish` calls the handlers that were subscribed to the event and
-- not since unsubscribed, each once for each subscription, in the order of the subscriptions.
pub publish-listeners :
    (ops : List Op) (event : List ℕ)
    → publish (run empty_bus ops) event ≡ map (λ s. s.handler) (listeners (list_run 0 [] ops) event)
unfolding publish
publish-listeners ops event =
    ap (map (λ s. s.handler)) ((Holds-run empty_bus [] ops Holds-empty).same event)
