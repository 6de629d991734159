-- ===== src/Text/Same.antt =====
-- Equality of strings.
use long.Base.{
  ℕ, ◌≡◌, refl, sym, ap, ap₂, subst, ◌∙◌, ==→eq, ==-refl, true, false, Bool-cases, inl, inr, List,
  [], ◌∷◌, if◌then◌else◌, ◌==◌,
}
use long.Text.{same_text}

pub true_false : {P : Type 0} → false ≡ true → P
true_false e = absurd cc

pub same_text-eq : (xs ys : List ℕ) → same_text xs ys ≡ true → xs ≡ ys
same_text-eq [] [] e = refl
same_text-eq [] (y ∷ ys) e = absurd cc
same_text-eq (x ∷ xs) [] e = absurd cc
same_text-eq (x ∷ xs) (y ∷ ys) e = elim (Bool-cases (x == y)) [
  | inl t ↦
      ap₂ ◌∷◌ (==→eq x y t)
        (same_text-eq xs ys (subst (λ b. (if b then same_text xs ys else false) ≡ true) t e))
  | inr t ↦ absurd (true_false (subst (λ b. (if b then same_text xs ys else false) ≡ true) t e))
]

pub same_text_refl : (xs : List ℕ) → same_text xs xs ≡ true
same_text_refl [] = refl
same_text_refl (x ∷ xs) = rw (==-refl x) (same_text_refl xs)

-- Two names that differ are not both that of the event.
pub same_text-other :
    (k name event : List ℕ)
    → same_text k name ≡ false
    → same_text k event ≡ true
    → same_text name event ≡ false
same_text-other k name event t u = elim (Bool-cases (same_text name event)) [
  | inl v ↦ absurd (
      true_false (
        sym t
        ∙ ap (λ q. same_text q name) (same_text-eq k event u ∙ sym (same_text-eq name event v))
        ∙ same_text_refl name))
  | inr v ↦ v
]
