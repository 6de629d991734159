-- ===== src/Core/Clock/Spaced.antt =====
-- When `Timer::check` fires.
use long.Base.{
  ℕ, ◌+◌, ◌*◌, ◌^◌, ◌≤◌, ◌<◌, ◌≡◌, refl, ◌∙◌, subst, true, false, Bool-cases, inl, inr, List, [],
  ◌∷◌, length, if◌then◌else◌, ltb, leb, ltb→le, ltb→lt, arith,
}
use long.Core.Clock.{Timer, elapsed_ms, check}

-- The times at which calls of `check` return true.
abbrev pub fires : Timer → List ℕ → List ℕ
fires t [] = []
fires t (now ∷ nows) =
    let rest = fires (check t now).0 nows in if (check t now).1.0 then now ∷ rest else rest

-- The clock does not go back.
abbrev pub Rising : ℕ → List ℕ → Type 0
Rising last [] = Unit {0}
Rising last (now ∷ nows) = (last ≤ now) × Rising now nows

-- Each time is at least `ms` milliseconds after the one before it, the first after `last`.
abbrev pub Spaced : ℕ → ℕ → List ℕ → Type 0
Spaced ms last [] = Unit {0}
Spaced ms last (now ∷ nows) = (last + ms * 1000000 ≤ now) × Spaced ms now nows

-- A call that fires, and one that does not.
pub check_fires :
    (t : Timer) (now : ℕ)
    → (check t now).1.0 ≡ true
    → ((check t now).0 ≡ record t { last = now; running = t.repeat })
      × ((t.running ≡ true) × (t.interval ≤ elapsed_ms now t.last))
unfolding check
check_fires t now e = ground arith

pub check_waits : (t : Timer) (now : ℕ) → (check t now).1.0 ≡ false → (check t now).0 ≡ t
unfolding check
check_waits t now e = ground arith

-- `Rising` from an earlier time.
Rising-from : (a b : ℕ) (nows : List ℕ) → a ≤ b → Rising b nows → Rising a nows
Rising-from a b [] h r = tt
Rising-from a b (now ∷ nows) h r = (omega arith, r.1)

elapsed-lower :
    (ms now last : ℕ) → last ≤ now → ms ≤ elapsed_ms now last → last + ms * 1000000 ≤ now
elapsed-lower ms now last h k = omega arith

fires-fired :
    (t : Timer) (now : ℕ) (nows : List ℕ)
    → (check t now).1.0 ≡ true
    → fires t (now ∷ nows) ≡ now ∷ fires (record t { last = now; running = t.repeat }) nows
fires-fired t now nows e = rw (e, (check_fires t now e).0) refl

fires-waited :
    (t : Timer) (now : ℕ) (nows : List ℕ)
    → (check t now).1.0 ≡ false
    → fires t (now ∷ nows) ≡ fires t nows
fires-waited t now nows e = rw (e, check_waits t now e) refl

-- However often it is checked, a timer never fires before its interval has passed since it was
-- started, reset or last fired, on a clock that does not go back.
pub fires-Spaced :
    (t : Timer) (nows : List ℕ) → Rising t.last nows → Spaced t.interval t.last (fires t nows)
fires-Spaced t [] r = tt
fires-Spaced t (now ∷ nows) r = elim (Bool-cases (check t now).1.0) [
  | inl e ↦ rw (fires-fired t now nows e) (
    elapsed-lower t.interval now t.last r.0 (check_fires t now e).1.1,
    fires-Spaced (record t { last = now; running = t.repeat }) nows r.1,
  )
  | inr e ↦
      rw (fires-waited t now nows e) (fires-Spaced t nows (Rising-from t.last now nows r.0 r.1))
]

fires-stopped : (t : Timer) (nows : List ℕ) → t.running ≡ false → fires t nows ≡ []
fires-stopped t [] e = refl
fires-stopped t (now ∷ nows) e = elim (Bool-cases (check t now).1.0) [
  | inl f ↦ absurd (true_false (subst (λ b. b ≡ true) e (check_fires t now f).1.0))
  | inr f ↦ fires-waited t now nows f ∙ fires-stopped t nows e
]
  where
    true_false : {P : Type 0} → false ≡ true → P
    true_false e = absurd cc

-- A timer that does not repeat fires at most once.
pub fires_once : (t : Timer) (nows : List ℕ) → t.repeat ≡ false → length (fires t nows) ≤ 1
fires_once t [] e = omega arith
fires_once t (now ∷ nows) e = elim (Bool-cases (check t now).1.0) [
  | inl f ↦
      rw
        (
          fires-fired t now nows f,
          fires-stopped (record t { last = now; running = t.repeat }) nows e,
        )
        (omega arith)
  | inr f ↦ rw (fires-waited t now nows f) (fires_once t nows e)
]

upper_of :
    (now last interval : ℕ)
    → last ≤ now
    → elapsed_ms now last < interval
    → now < last + 2 ^ 32 * 1000000
    → now < last + interval * 1000000
upper_of now last interval h l k = omega arith

leb-lt : (a b : ℕ) → b < a → leb a b ≡ false
leb-lt a b h = ground arith

leb-le : (a b : ℕ) → a ≤ b → leb a b ≡ true
leb-le a b h = ground arith

-- Within 2^32 milliseconds, a running timer fires exactly from its interval on.
pub check_due :
    (t : Timer) (now : ℕ)
    → t.running ≡ true
    → t.last ≤ now
    → now < t.last + 2 ^ 32 * 1000000
    → (check t now).1.0 ≡ leb (t.last + t.interval * 1000000) now
unfolding check
check_due t now e h k = elim (Bool-cases (ltb (elapsed_ms now t.last) t.interval)) [
  | inl f ↦
      let early : now < t.last + t.interval * 1000000 =
        upper_of now t.last t.interval h (ltb→lt (elapsed_ms now t.last) t.interval f) k in
      rw (e, f, leb-lt (t.last + t.interval * 1000000) now early) refl
  | inr f ↦
      let late : t.last + t.interval * 1000000 ≤ now =
        elapsed-lower t.interval now t.last h (ltb→le (elapsed_ms now t.last) t.interval f) in
      rw (e, f, leb-le (t.last + t.interval * 1000000) now late) refl
]
