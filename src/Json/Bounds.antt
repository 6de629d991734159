-- ===== src/Json/Bounds.antt =====
-- The parser in include/utils/JsonHelper.h: how much of the text it takes, and its fuel.
pub mod Parts
pub mod Ends
use long.Base.{
  ℕ, zero, suc, ◌+◌, ◌-◌, ◌*◌, ◌≤◌, ◌<◌, ◌≡◌, refl, Bool, true, false, Bool-cases, inl, inr, List,
  [], ◌∷◌, Option, none, some, if◌then◌else◌, ◌==◌, length, drop, length-drop, Option-cases, arith,
}
use long.Text.{codes, is_space, is_digit}
use long.Json.{
  Parsed, ok, throws, out_of_fuel, ◌>>=◌, skip_ws, peek, expect, kind, closes, escapes, copies,
  Kind, Mode, plain, escaped, passing, string_loop, parse_string, skip_digits, skip_one, skip_whole,
  skip_fraction, skip_exponent, number_of, parse_number, after, parse_bool, parse_null, is_exponent,
  is_sign,
}
use long.Json.Parser.{opened, parse_key}

-- The result leaves fewer than `n` bytes, and is not the model's running out of fuel.
abbrev pub Below : {A : Type 0} → ℕ → Parsed A → Type 0
Below n (ok a rest) = length rest < n
Below n (throws e) = Unit
Below n out_of_fuel = ⊥

pub Below-weaken : {A : Type 0} (m n : ℕ) (p : Parsed A) → m ≤ n → Below m p → Below n p
Below-weaken m n (ok a rest) h b = omega arith
Below-weaken m n (throws e) h b = tt
Below-weaken m n out_of_fuel h b = elim b [ ]

pub bind-Below :
    {A B : Type 0} (m n : ℕ) (p : Parsed A) (f : A → List ℕ → Parsed B)
    → Below m p
    → ((a : A) (rest : List ℕ) → length rest < m → Below n (f a rest))
    → Below n (p >>= f)
bind-Below m n (ok a rest) f b k = k a rest b
bind-Below m n (throws e) f b k = tt
bind-Below m n out_of_fuel f b k = elim b [ ]

pub length-skip_ws : (s : List ℕ) → length (skip_ws s) ≤ length s
unfolding skip_ws
length-skip_ws [] = omega arith
length-skip_ws (c ∷ cs) = elim (Bool-cases (is_space c)) [
  | inl t ↦ rw (t, skip_ws) (omega (arith, length-skip_ws cs))
  | inr t ↦ rw (t, skip_ws) (omega arith)
]

pub length-skip_digits : (s : List ℕ) → length (skip_digits s) ≤ length s
unfolding skip_digits
length-skip_digits [] = omega arith
length-skip_digits (c ∷ cs) = elim (Bool-cases (is_digit c)) [
  | inl t ↦ rw (t, skip_digits) (omega (arith, length-skip_digits cs))
  | inr t ↦ rw (t, skip_digits) (omega arith)
]

-- A byte that is not NUL stands in the text.
pub peek-lt : (s : List ℕ) (c : ℕ) → 0 < c → (peek s == c) ≡ true → 0 < length s
peek-lt [] c h e = ground arith
peek-lt (x ∷ s) c h e = omega arith

pub expect-Below : (c : ℕ) (s : List ℕ) → 0 < c → Below (length s) (expect c s)
unfolding expect
expect-Below c s h = elim (Bool-cases (peek (skip_ws s) == c)) [
  | inl t ↦
      rw (t, expect)
        (omega (arith, length-drop 1 (skip_ws s), length-skip_ws s, peek-lt (skip_ws s) c h t))
  | inr t ↦ rw (t, expect) tt
]

length-string_loop : (m : Mode) (s : List ℕ) → length (string_loop m s).1 ≤ length s
unfolding string_loop
length-string_loop plain [] = omega arith
length-string_loop plain (c ∷ cs) =
    go (kind c) refl (length-string_loop plain cs) (length-string_loop escaped cs)
  where
    go :
        (k : Kind)
        → kind c ≡ k
        → length (string_loop plain cs).1 ≤ length cs
        → length (string_loop escaped cs).1 ≤ length cs
        → length (string_loop plain (c ∷ cs)).1 ≤ length (c ∷ cs)
    go closes e p q = rw (e, string_loop) (omega arith)
    go escapes e p q = rw (e, string_loop) (omega arith)
    go copies e p q = rw (e, string_loop) (omega arith)
length-string_loop escaped [] = omega arith
length-string_loop escaped (e ∷ cs) = elim (Bool-cases (e == b'u')) [
  | inl t ↦ rw (t, string_loop) (omega (arith, length-string_loop (passing 3) cs))
  | inr t ↦ rw (t, string_loop) (omega (arith, length-string_loop plain cs))
]
length-string_loop (passing n) [] = omega arith
length-string_loop (passing zero) (c ∷ cs) = omega (arith, length-string_loop plain cs)
length-string_loop (passing (suc n)) (c ∷ cs) = omega (arith, length-string_loop (passing n) cs)

pub parse_string-Below : (s : List ℕ) → Below (length s) (parse_string s)
unfolding parse_string
parse_string-Below s =
    bind-Below (length s) (length s) (expect b'"' s) _ (expect-Below b'"' s (omega arith)) λ _ t h.
      let rest = (string_loop plain t).1 in
      bind-Below (length rest) (length s) (expect b'"' rest) _
        (expect-Below b'"' rest (omega arith)) λ _ u g. omega (arith, length-string_loop plain t)
