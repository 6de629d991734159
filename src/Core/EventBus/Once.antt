-- ===== src/Core/EventBus/Once.antt =====
-- How often an id stands on the EventBus, and `unsubscribe`.
use long.Base.{
  ℕ, suc, ◌+◌, ◌≤◌, ◌≡◌, refl, sym, ap, ◌∙◌, Bool, true, false, Bool-cases, inl, inr, List, [], ◌∷◌,
  ◌++◌, Option, none, some, if◌then◌else◌, ◌==◌, arith,
}
use long.Text.{same_text}
use long.Core.EventBus.{Sub, push_sub, erase_sub, erase_from, lookup}
use long.Core.EventBus.Ledger.{drop_id}

abbrev pub count : ℕ → List Sub → ℕ
count id [] = 0
count id (s ∷ v) = let rest = count id v in if s.id == id then suc rest else rest

abbrev pub total : ℕ → List (List ℕ × List Sub) → ℕ
total id [] = 0
total id ((k, v) ∷ kvs) = count id v + total id kvs

count-append :
    (id : ℕ) (v : List Sub) (s : Sub)
    → count id (v ++ (s ∷ [])) ≡ count id v + (if s.id == id then 1 else 0)
count-append id [] s = omega arith
count-append id (t ∷ v) s = elim (Bool-cases (t.id == id)) [
  | inl h ↦ rw h (omega (arith, count-append id v s))
  | inr h ↦ rw h (omega (arith, count-append id v s))
]

count-cons : (id : ℕ) (s : Sub) (v : List Sub) → count id v ≤ count id (s ∷ v)
count-cons id s v = ground arith

count-keep :
    (id : ℕ) (s : Sub) (v v' : List Sub)
    → count id v' ≤ count id v
    → count id (s ∷ v') ≤ count id (s ∷ v)
count-keep id s v v' h = ground arith

pub total-push_sub :
    (id : ℕ) (kvs : List (List ℕ × List Sub)) (event : List ℕ) (s : Sub)
    → total id (push_sub kvs event s) ≡ total id kvs + (if s.id == id then 1 else 0)
unfolding push_sub
total-push_sub id [] event s = omega arith
total-push_sub id ((k, v) ∷ kvs) event s = elim (Bool-cases (same_text k event)) [
  | inl t ↦ rw (t, count-append id v s) (omega arith)
  | inr t ↦ rw (t, total-push_sub id kvs event s) (omega arith)
]

drop_id-absent : (id : ℕ) (v : List Sub) → count id v ≡ 0 → drop_id id v ≡ v
drop_id-absent id [] e = refl
drop_id-absent id (s ∷ v) e = elim (Bool-cases (s.id == id)) [
  | inl t ↦ absurd (ground arith)
  | inr t ↦ rw (t, drop_id-absent id v (ground arith)) refl
]

-- What `erase_sub` is to return.
abbrev pub Erases : ℕ → List Sub → Option (List Sub) → Type 0
Erases id v none = count id v ≡ 0
Erases id v (some v') =
    (1 ≤ count id v) × ((count id v ≤ 1 → v' ≡ drop_id id v) × ((x : ℕ) → count x v' ≤ count x v))

abbrev put_back : Sub → Option (List Sub) → Option (List Sub)
put_back s o = elim o [ none ↦ none | some v' ↦ some (s ∷ v') ]

Erases-put_back :
    (id : ℕ) (s : Sub) (v : List Sub) (o : Option (List Sub))
    → (s.id == id) ≡ false
    → Erases id v o
    → Erases id (s ∷ v) (put_back s o)
Erases-put_back id s v none t h = rw t h
Erases-put_back id s v (some v') t (a, (b, c)) =
    rw t (a, (λ l. ap (◌∷◌ s) (b l), λ x. count-keep x s v v' (c x)))

Erases-found : (id : ℕ) (s : Sub) (v : List Sub) → (s.id == id) ≡ true → Erases id (s ∷ v) (some v)
Erases-found id s v t =
    let one : count id (s ∷ v) ≡ suc (count id v) = rw t refl in
    let gone : drop_id id (s ∷ v) ≡ drop_id id v = rw t refl in
    (
      omega (arith, one),
      (λ l. sym (gone ∙ drop_id-absent id v (omega (arith, one))), λ x. count-cons x s v),
    )

pub erase_sub-Erases : (id : ℕ) (v : List Sub) → Erases id v (erase_sub v id)
unfolding erase_sub
erase_sub-Erases id [] = refl
erase_sub-Erases id (s ∷ v) = elim (Bool-cases (s.id == id)) [
  | inl t ↦ rw t (Erases-found id s v t)
  | inr t ↦ rw t (Erases-put_back id s v (erase_sub v id) t (erase_sub-Erases id v))
]

-- What `erase_from` does to the buckets, once the outcome in the first is known.
erased :
    List ℕ → List Sub → List (List ℕ × List Sub) → ℕ → Option (List Sub) → List (List ℕ × List Sub)
erased k v kvs id none = (k, v) ∷ erase_from kvs id
erased k v kvs id (some v') = (k, v') ∷ kvs

erase_from-cons :
    (k : List ℕ) (v : List Sub) (kvs : List (List ℕ × List Sub)) (id : ℕ)
    → erase_from ((k, v) ∷ kvs) id ≡ erased k v kvs id (erase_sub v id)
unfolding erase_from erased
erase_from-cons k v kvs id = go (erase_sub v id)
  where
    go :
        (o : Option (List Sub))
        → (elim o [ none ↦ (k, v) ∷ erase_from kvs id | some v' ↦ (k, v') ∷ kvs ])
          ≡ erased k v kvs id o
    go none = refl
    go (some v') = refl

pub total-erase_from :
    (x id : ℕ) (kvs : List (List ℕ × List Sub)) → total x (erase_from kvs id) ≤ total x kvs
unfolding erased
total-erase_from x id [] = unfold erase_from in omega arith
total-erase_from x id ((k, v) ∷ kvs) =
    rw (erase_from-cons k v kvs id)
      (go (erase_sub v id) (erase_sub-Erases id v) (total-erase_from x id kvs))
  where
    go :
        (o : Option (List Sub))
        → Erases id v o
        → total x (erase_from kvs id) ≤ total x kvs
        → total x (erased k v kvs id o) ≤ total x ((k, v) ∷ kvs)
    go none h l = omega arith
    go (some v') (a, (b, c)) l = omega (arith, c x)

count-lookup :
    (id : ℕ) (kvs : List (List ℕ × List Sub)) (event : List ℕ)
    → count id (lookup kvs event) ≤ total id kvs
unfolding lookup
count-lookup id [] event = omega arith
count-lookup id ((k, v) ∷ kvs) event = elim (Bool-cases (same_text k event)) [
  | inl t ↦ rw t (omega arith)
  | inr t ↦ rw t (omega (arith, count-lookup id kvs event))
]

-- Where the id stands once, each event loses the listeners with it.
pub lookup-erase_from :
    (id : ℕ) (kvs : List (List ℕ × List Sub)) (event : List ℕ)
    → total id kvs ≤ 1
    → lookup (erase_from kvs id) event ≡ drop_id id (lookup kvs event)
unfolding erased lookup
lookup-erase_from id [] event h = unfold erase_from in refl
lookup-erase_from id ((k, v) ∷ kvs) event h = rw (erase_from-cons k v kvs id) (
    go (erase_sub v id) (erase_sub-Erases id v) (same_text k event) refl
      (lookup-erase_from id kvs event (omega arith)))
  where
    go :
        (o : Option (List Sub))
        → Erases id v o
        → (b : Bool) → same_text k event ≡ b
        → lookup (erase_from kvs id) event ≡ drop_id id (lookup kvs event)
        → lookup (erased k v kvs id o) event ≡ drop_id id (lookup ((k, v) ∷ kvs) event)
    go none n true e r = rw e (sym (drop_id-absent id v n))
    go none n false e r = rw e r
    go (some v') (a, (b, c)) true e r = rw e (b (omega arith))
    go (some v') (a, (b, c)) false e r =
        rw e (sym (drop_id-absent id (lookup kvs event) (omega (arith, count-lookup id kvs event))))
