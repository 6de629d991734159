-- ===== src/Logger/BaseName.antt =====
-- `baseName` of src/modules/logger/Logger.cpp.
use long.Base.{
  ℕ, ◌≡◌, refl, sym, ap, subst, ◌∙◌, true, false, Bool-cases, inl, inr, ◌⊎◌, List, [], ◌∷◌, ◌++◌,
  append_assoc, append-nil, All, All-append,
}
use long.Logger.{is_separator, base_loop, base_name}

abbrev pub IsPlainByte : ℕ → Type 0
IsPlainByte c = is_separator c ≡ false

-- A path is a directory, which is empty or ends with a separator, and a name without any.
pub record Splits (path dir name : List ℕ) : Type 0 where
  pub whole : path ≡ dir ++ name
  pub directory :
      (dir ≡ []) ⊎ ((up : List ℕ) × (c : ℕ) × (dir ≡ up ++ (c ∷ [])) × (is_separator c ≡ true))
  pub plain_name : All IsPlainByte name

-- `seen ++ p` is what stands behind the directory so far, and `seen` has no separator.
base_loop-Splits :
    (p seen dir : List ℕ)
    → All IsPlainByte seen
    → ((dir ≡ []) ⊎ ((up : List ℕ) × (c : ℕ) × (dir ≡ up ++ (c ∷ [])) × (is_separator c ≡ true)))
    → (d : List ℕ) × Splits (dir ++ (seen ++ p)) d (base_loop p (seen ++ p))
unfolding base_loop
base_loop-Splits [] seen dir h w =
    rw (append-nil seen) (dir, record { whole = refl; directory = w; plain_name = h })
base_loop-Splits (c ∷ p) seen dir h w = elim (Bool-cases (is_separator c)) [
  | inl t ↦
      rw (t, base_loop)
        (subst (λ s. (d : List ℕ) × Splits s d (base_loop p p)) (regroup dir seen c p)
          (base_loop-Splits p [] (dir ++ (seen ++ (c ∷ []))) tt
            (inr (dir ++ seen, c, sym (append_assoc dir seen (c ∷ [])), t))))
  | inr t ↦
      rw (t, base_loop)
        (subst (λ s. (d : List ℕ) × Splits (dir ++ s) d (base_loop p s))
          (append_assoc seen (c ∷ []) p)
          (base_loop-Splits p (seen ++ (c ∷ [])) dir
            (All-append IsPlainByte seen (c ∷ []) h (t, tt)) w))
]
  where
    regroup :
        (dir seen : List ℕ) (c : ℕ) (p : List ℕ)
        → (dir ++ (seen ++ (c ∷ []))) ++ p ≡ dir ++ (seen ++ (c ∷ p))
    regroup dir seen c p =
        append_assoc dir (seen ++ (c ∷ [])) p ∙ ap (◌++◌ dir) (append_assoc seen (c ∷ []) p)

-- The base name is the part of the path behind its last separator, or all of it.
pub base_name-Splits : (path : List ℕ) → (dir : List ℕ) × Splits path dir (base_name path)
base_name-Splits path = base_loop-Splits path [] [] tt (inl refl)
