-- ===== src/Text/Decimal.antt =====
-- Printed numbers, and how they are read.
use long.Base.{
  ℕ, zero, suc, ◌+◌, ◌*◌, ◌-◌, ◌/◌, ◌%◌, ◌<◌, ◌≡◌, refl, ap, ◌∙◌, true, false, Bool-cases, inl, inr,
  List, [], ◌∷◌, ◌==◌, leb, length, All, arith,
}
use long.Base.Int.{pos}
use long.Text.{is_digit, is_space, digits, leading_int, decimal_loop, decimal}

abbrev pub IsDigit : ℕ → Type 0
IsDigit c = is_digit c ≡ true

leb-false : (n : ℕ) → leb 10 n ≡ false → n < 10
leb-false n e = ground arith

shift_digit : (n : ℕ) → n / 10 * 10 + (48 + n % 10 - 48) ≡ n
shift_digit n = omega arith

pub IsDigit-add : (n : ℕ) → n < 10 → IsDigit (48 + n)
IsDigit-add n h = ground arith

pub IsDigit-no_space : (c : ℕ) → IsDigit c → is_space c ≡ false
IsDigit-no_space c h = ground arith

pub IsDigit-not : (c d : ℕ) → IsDigit c → d < 48 → (c == d) ≡ false
IsDigit-not c d h g = ground arith

pub digits_step :
    (c n : ℕ) (cs : List ℕ) → IsDigit c → digits (c ∷ cs) n ≡ digits cs (n * 10 + (c - 48))
unfolding digits
digits_step c n cs h = rw h refl

pub digits-decimal_loop :
    (f n : ℕ) (acc : List ℕ) → n < f → digits (decimal_loop f n acc) 0 ≡ digits acc n
unfolding decimal_loop
digits-decimal_loop zero n acc h = absurd (omega arith)
digits-decimal_loop (suc f) n acc h = elim (Bool-cases (leb 10 n)) [
  | inl t ↦
      rw (t, decimal_loop)
        (digits-decimal_loop f (n / 10) ((48 + n % 10) ∷ acc) (ground arith)
          ∙ digits_step (48 + n % 10) (n / 10) acc (IsDigit-add (n % 10) (omega arith))
          ∙ ap (digits acc) (shift_digit n))
  | inr t ↦
      rw (t, decimal_loop)
        (digits_step (48 + n) 0 acc (IsDigit-add n (leb-false n t)) ∙ ap (digits acc) (omega arith))
]

pub decimal_loop-All :
    (f n : ℕ) (acc : List ℕ) → n < f → All IsDigit acc → All IsDigit (decimal_loop f n acc)
unfolding decimal_loop
decimal_loop-All zero n acc h a = absurd (omega arith)
decimal_loop-All (suc f) n acc h a = elim (Bool-cases (leb 10 n)) [
  | inl t ↦
      rw (t, decimal_loop)
        (decimal_loop-All f (n / 10) ((48 + n % 10) ∷ acc) (ground arith)
          (IsDigit-add (n % 10) (omega arith), a))
  | inr t ↦ rw (t, decimal_loop) (IsDigit-add n (leb-false n t), a)
]

pub length-decimal_loop :
    (f n : ℕ) (acc : List ℕ) → n < f → length acc < length (decimal_loop f n acc)
unfolding decimal_loop
length-decimal_loop zero n acc h = absurd (omega arith)
length-decimal_loop (suc f) n acc h = elim (Bool-cases (leb 10 n)) [
  | inl t ↦
      rw (t, decimal_loop)
        (omega (arith, length-decimal_loop f (n / 10) ((48 + n % 10) ∷ acc) (ground arith)))
  | inr t ↦ rw (t, decimal_loop) (omega arith)
]

pub digits-decimal : (n : ℕ) → digits (decimal n) 0 ≡ n
unfolding digits
digits-decimal n = digits-decimal_loop (suc n) n [] (omega arith)

pub decimal-IsDigit : (n : ℕ) → All IsDigit (decimal n)
decimal-IsDigit n = decimal_loop-All (suc n) n [] (omega arith) tt

pub length-decimal : (n : ℕ) → 0 < length (decimal n)
length-decimal n = length-decimal_loop (suc n) n [] (omega arith)

pub leading_int-digits : (cs : List ℕ) → All IsDigit cs → leading_int cs ≡ pos (digits cs 0)
unfolding leading_int digits
leading_int-digits [] h = refl
leading_int-digits (c ∷ cs) h =
    rw
      (
        IsDigit-no_space c h.0,
        IsDigit-not c b'-' h.0 (omega arith),
        IsDigit-not c b'+' h.0 (omega arith),
      )
      refl
