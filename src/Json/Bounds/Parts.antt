-- ===== src/Json/Bounds/Parts.antt =====
-- Numbers, words and brackets in include/utils/JsonHelper.h, and how much of the text they take.
use long.Base.{
  ℕ, suc, ◌+◌, ◌≤◌, ◌<◌, ◌≡◌, ap, Bool, true, false, Bool-cases, inl, inr, List, [], ◌∷◌, none,
  some, eq_of_some, if◌then◌else◌, ◌==◌, length, drop, length-drop, Option-cases, arith,
}
use long.Text.{codes, is_digit}
use long.Json.{
  Parsed, skip_ws, peek, expect, skip_digits, skip_one, skip_whole, skip_fraction, skip_exponent,
  parse_number, after, parse_bool, parse_null, parse_string, is_exponent, is_sign,
}
use long.Json.Parser.{opened, parse_key, first, number_first}
use long.Json.Bounds.{
  Below, bind-Below, length-skip_ws, length-skip_digits, expect-Below, parse_string-Below,
}

length-skip_one : (b : Bool) (s : List ℕ) → length (skip_one b s) ≤ length s
length-skip_one true s = omega (arith, length-drop 1 s)
length-skip_one false s = omega arith

digit_first : (c : ℕ) → first c ≡ number_first → (c == b'-') ≡ false → is_digit c ≡ true
unfolding first
digit_first c e h = ground arith

length-skip_whole : (s : List ℕ) → first (peek s) ≡ number_first → length (skip_whole s) < length s
unfolding first skip_digits
length-skip_whole [] e = absurd cc
length-skip_whole (c ∷ cs) e = elim (Bool-cases (c == b'-')) [
  | inl t ↦ rw t (omega (arith, length-skip_digits cs))
  | inr t ↦ rw (t, digit_first c e t, skip_digits) (omega (arith, length-skip_digits cs))
]

length-skip_fraction : (s : List ℕ) → length (skip_fraction s).1 ≤ length s
length-skip_fraction s = elim (Bool-cases (peek s == b'.')) [
  | inl t ↦ rw t (omega (arith, length-skip_digits (drop 1 s), length-drop 1 s))
  | inr t ↦ rw t (omega arith)
]

length-skip_exponent : (p : Bool × List ℕ) → length (skip_exponent p).1 ≤ length p.1
length-skip_exponent (flt, s) = elim (Bool-cases (is_exponent (peek s))) [
  | inl t ↦ rw t (
      omega (
        arith,
        length-skip_digits (skip_one (is_sign (peek (drop 1 s))) (drop 1 s)),
        length-skip_one (is_sign (peek (drop 1 s))) (drop 1 s),
        length-drop 1 s,
      ))
  | inr t ↦ rw t (omega arith)
]

pub parse_number-Below :
    (s : List ℕ) → first (peek s) ≡ number_first → Below (length s) (parse_number s)
unfolding parse_number
parse_number-Below s e = omega (
  arith,
  length-skip_whole s e,
  length-skip_fraction (skip_whole s),
  length-skip_exponent (skip_fraction (skip_whole s)),
)

pub length-after : (w s rest : List ℕ) → after w s ≡ some rest → length s ≡ length w + length rest
unfolding after
length-after [] s rest e = omega (arith, ap length (eq_of_some e))
length-after (w ∷ ws) [] rest e = absurd cc
length-after (w ∷ ws) (c ∷ cs) rest e = go (c == w) (length-after ws cs rest) e
  where
    go :
        (b : Bool)
        → (after ws cs ≡ some rest → length cs ≡ length ws + length rest)
        → (if b then after ws cs else none) ≡ some rest
        → suc (length cs) ≡ suc (length ws) + length rest
    go true ih e = omega (arith, ih e)
    go false ih e = absurd cc

pub parse_bool-Below : (s : List ℕ) → Below (length s) (parse_bool s)
unfolding parse_bool
parse_bool-Below s = elim (Option-cases (after (codes "true") s)) [
  | inr (r, e) ↦ rw (e, parse_bool) (omega (arith, length-after (codes "true") s r e))
  | inl e ↦ elim (Option-cases (after (codes "false") s)) [
    | inr (r, g) ↦ rw (e, g, parse_bool) (omega (arith, length-after (codes "false") s r g))
    | inl g ↦ rw (e, g, parse_bool) tt
  ]
]

pub parse_null-Below : (s : List ℕ) → Below (length s) (parse_null s)
unfolding parse_null
parse_null-Below s = elim (Option-cases (after (codes "null") s)) [
  | inr (r, e) ↦ rw (e, parse_null) (omega (arith, length-after (codes "null") s r e))
  | inl e ↦ rw (e, parse_null) tt
]

pub opened-Below :
    {A : Type 0} (close n : ℕ) (nothing : A) (loop : List ℕ → Parsed A) (s : List ℕ)
    → length s ≤ n
    → ((t : List ℕ) → length t ≤ length s → Below (suc n) (loop t))
    → Below (suc n) (opened close nothing loop s)
unfolding opened
opened-Below close n nothing loop s h k = elim (Bool-cases (peek (skip_ws s) == close)) [
  | inl t ↦ rw (t, opened) (omega (arith, length-drop 1 (skip_ws s), length-skip_ws s))
  | inr t ↦ rw (t, opened) (k (skip_ws s) (length-skip_ws s))
]

pub parse_key-Below : (s : List ℕ) → Below (length s) (parse_key s)
unfolding parse_key
parse_key-Below s =
    let t = skip_ws s in
    elim (Bool-cases (peek t == b'"')) [
      | inl e ↦
          rw (e, parse_key)
            (bind-Below (length t) (length s) (parse_string t) _ (parse_string-Below t) λ k u h.
              bind-Below (length u) (length s) (expect b':' u) _ (expect-Below b':' u (omega arith))
                λ _ v g. omega (arith, length-skip_ws s))
      | inr e ↦ rw (e, parse_key) tt
    ]
