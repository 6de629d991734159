-- ===== src/Json/Numbers.antt =====
-- `parseNumber` of include/utils/JsonHelper.h.
use long.Base.{
  ℕ, ◌-◌, ◌≡◌, ◌≢◌, refl, ap, subst, ◌∙◌, Bool, true, false, ◌||◌, List, [], ◌∷◌, ◌++◌,
  append_assoc, append-nil, Option, none, some, if◌then◌else◌, ◌==◌, length, take, length-append,
  take-append_self, All, arith,
}
use long.Base.Int.{pos, clamp}
use long.Text.{is_digit, digits, minus, leading_int, atoll}
use long.Text.Decimal.{IsDigit, IsDigit-not, leading_int-digits}
use long.Json.{
  int, double, ok, peek, skip_digits, skip_one, skip_whole, skip_fraction, skip_exponent,
  is_exponent, is_sign, number_of, parse_number,
}
use long.Json.Docs.{
  Exponent, Numeral, optional, fraction_text, exponent_text, whole_text, numeral_text,
  numeral_value, IsSign, IsFraction, IsExponent, IsNumeral,
}

-- What follows a number does not go on with it.
abbrev pub Stops : List ℕ → Type 0
Stops s = (is_digit (peek s) ≡ false) × ((peek s == b'.') ≡ false) × (is_exponent (peek s) ≡ false)

skip_digits-append :
    (ds s : List ℕ) → All IsDigit ds → is_digit (peek s) ≡ false → skip_digits (ds ++ s) ≡ s
unfolding skip_digits
skip_digits-append [] [] h e = refl
skip_digits-append [] (c ∷ s) h e = rw e refl
skip_digits-append (d ∷ ds) s h e = rw (h.0, skip_digits) (skip_digits-append ds s h.1 e)

skip_whole-whole_text :
    (b : Bool) (ds s : List ℕ)
    → ds ≢ []
    → All IsDigit ds
    → is_digit (peek s) ≡ false
    → skip_whole (whole_text b ds s) ≡ s
skip_whole-whole_text true ds s n h e = skip_digits-append ds s h e
skip_whole-whole_text false [] s n h e = absurd (n refl)
skip_whole-whole_text false (d ∷ ds) s n h e =
    rw (IsDigit-not d b'-' h.0 (omega arith)) (skip_digits-append (d ∷ ds) s h e)

abbrev is_some : {A : Type 0} → Option A → Bool
is_some none = false
is_some (some a) = true

skip_fraction-fraction_text :
    (fr : Option (List ℕ)) (s : List ℕ)
    → IsFraction fr
    → is_digit (peek s) ≡ false
    → (peek s == b'.') ≡ false
    → skip_fraction (fraction_text fr s) ≡ (is_some fr, s)
skip_fraction-fraction_text none s h e g = rw g refl
skip_fraction-fraction_text (some ds) s h e g = rw (skip_digits-append ds s h e) refl

no_sign : (c : ℕ) → is_digit c ≡ true → is_sign c ≡ false
no_sign c h = ground arith

optional_digits :
    (sg : Option ℕ) (ds s : List ℕ)
    → IsSign sg
    → ds ≢ []
    → All IsDigit ds
    → is_digit (peek s) ≡ false
    → skip_digits (skip_one (is_sign (peek (optional sg (ds ++ s)))) (optional sg (ds ++ s))) ≡ s
optional_digits none [] s i n h e = absurd (n refl)
optional_digits none (d ∷ ds) s i n h e = rw (no_sign d h.0) (skip_digits-append (d ∷ ds) s h e)
optional_digits (some c) ds s i n h e = rw i (skip_digits-append ds s h e)

skip_exponent-exponent_text :
    (flt : Bool) (ex : Option Exponent) (s : List ℕ)
    → IsExponent ex
    → Stops s
    → skip_exponent (flt, exponent_text ex s) ≡ (flt || is_some ex, s)
skip_exponent-exponent_text true none s h st = rw st.2 refl
skip_exponent-exponent_text false none s h st = rw st.2 refl
skip_exponent-exponent_text true (some x) s h st =
    rw (h.0, optional_digits x.sign x.power s h.1 h.2 h.3 st.0) refl
skip_exponent-exponent_text false (some x) s h st =
    rw (h.0, optional_digits x.sign x.power s h.1 h.2 h.3 st.0) refl

exponent_no_digit : (c : ℕ) → is_exponent c ≡ true → is_digit c ≡ false
exponent_no_digit c h = ground arith

exponent_no_point : (c : ℕ) → is_exponent c ≡ true → (c == b'.') ≡ false
exponent_no_point c h = ground arith

exponent_text-Stops :
    (ex : Option Exponent) (s : List ℕ)
    → IsExponent ex
    → Stops s
    → (is_digit (peek (exponent_text ex s)) ≡ false) × ((peek (exponent_text ex s) == b'.') ≡ false)
exponent_text-Stops none s h st = (st.0, st.1)
exponent_text-Stops (some x) s h st =
    (exponent_no_digit x.marker h.0, exponent_no_point x.marker h.0)

fraction_text-Stops :
    (fr : Option (List ℕ)) (s : List ℕ)
    → is_digit (peek s) ≡ false
    → is_digit (peek (fraction_text fr s)) ≡ false
fraction_text-Stops none s e = e
fraction_text-Stops (some ds) s e = refl

optional-append : (o : Option ℕ) (s rest : List ℕ) → optional o s ++ rest ≡ optional o (s ++ rest)
optional-append none s rest = refl
optional-append (some c) s rest = refl

exponent_text-append :
    (ex : Option Exponent) (s rest : List ℕ)
    → exponent_text ex s ++ rest ≡ exponent_text ex (s ++ rest)
exponent_text-append none s rest = refl
exponent_text-append (some x) s rest = ap (◌∷◌ x.marker) (
    optional-append x.sign (x.power ++ s) rest ∙ ap (optional x.sign) (append_assoc x.power s rest))

fraction_text-append :
    (fr : Option (List ℕ)) (s rest : List ℕ)
    → fraction_text fr s ++ rest ≡ fraction_text fr (s ++ rest)
fraction_text-append none s rest = refl
fraction_text-append (some ds) s rest = ap (◌∷◌ b'.') (append_assoc ds s rest)

whole_text-append :
    (b : Bool) (ds s rest : List ℕ) → whole_text b ds s ++ rest ≡ whole_text b ds (s ++ rest)
whole_text-append true ds s rest = ap (◌∷◌ b'-') (append_assoc ds s rest)
whole_text-append false ds s rest = append_assoc ds s rest

numeral_text-append :
    (n : Numeral) (rest : List ℕ) → numeral_text n [] ++ rest ≡ numeral_text n rest
numeral_text-append n rest =
    whole_text-append n.negative n.whole (fraction_text n.fraction (exponent_text n.exponent []))
      rest
    ∙ ap (whole_text n.negative n.whole) (
        fraction_text-append n.fraction (exponent_text n.exponent []) rest
        ∙ ap (fraction_text n.fraction) (exponent_text-append n.exponent [] rest))

-- The text of the number is cut out.
cut_out : (a rest : List ℕ) → take (length (a ++ rest) - length rest) (a ++ rest) ≡ a
cut_out a rest =
    ap (λ (n : ℕ). take n (a ++ rest)) (omega (arith, length-append a rest))
    ∙ take-append_self a rest

atoll-whole_text :
    (b : Bool) (ds : List ℕ)
    → All IsDigit ds
    → atoll (whole_text b ds []) ≡ clamp (if b then minus (digits ds 0) else pos (digits ds 0))
unfolding atoll leading_int
atoll-whole_text true ds h = ap (λ cs. clamp (minus (digits cs 0))) (append-nil ds)
atoll-whole_text false ds h =
    ap (λ cs. clamp (leading_int cs)) (append-nil ds) ∙ ap clamp (leading_int-digits ds h)

number_of-numeral :
    (n : Numeral) (rest : List ℕ)
    → IsNumeral n
    → number_of (numeral_text n [] ++ rest) (is_some n.fraction || is_some n.exponent, rest)
      ≡ ok (numeral_value n) rest
number_of-numeral n rest h =
    rw (cut_out (numeral_text n []) rest) (go n.fraction n.exponent refl refl)
  where
    go :
        (fr : Option (List ℕ)) (ex : Option Exponent)
        → n.fraction ≡ fr
        → n.exponent ≡ ex
        → ok
            (if is_some n.fraction || is_some n.exponent
              then double (numeral_text n [])
              else int (atoll (numeral_text n [])))
            rest
          ≡ ok (numeral_value n) rest
    go (some ds) ex e g = rw e refl
    go none (some x) e g = rw (e, g) refl
    go none none e g =
        rw (e, g) (ap (λ z. ok (int z) rest) (atoll-whole_text n.negative n.whole h.1))

pub parse_number-numeral_text :
    (n : Numeral) (rest : List ℕ)
    → IsNumeral n
    → Stops rest
    → parse_number (numeral_text n rest) ≡ ok (numeral_value n) rest
unfolding parse_number
parse_number-numeral_text n rest h st =
    let ex = exponent_text n.exponent rest in
    let xs = exponent_text-Stops n.exponent rest h.3 st in
    rw
      (
        skip_whole-whole_text n.negative n.whole (fraction_text n.fraction ex) h.0 h.1
            (fraction_text-Stops n.fraction ex xs.0),
        skip_fraction-fraction_text n.fraction ex h.2 xs.0 xs.1,
        skip_exponent-exponent_text (is_some n.fraction) n.exponent rest h.3 st,
      )
      (subst
        (λ t.
          number_of t (is_some n.fraction || is_some n.exponent, rest) ≡ ok (numeral_value n) rest)
        (numeral_text-append n rest) (number_of-numeral n rest h))
