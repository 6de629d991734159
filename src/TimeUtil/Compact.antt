-- ===== src/TimeUtil/Compact.antt =====
-- The time in the name of a log file.
use long.Base.{
  ℕ, zero, suc, ◌+◌, ◌-◌, ◌/◌, ◌%◌, ◌^◌, ◌≤◌, ◌<◌, ◌≡◌, refl, ap, sym, ◌∙◌, true, false, Bool-cases,
  inl, inr, List, [], ◌∷◌, ◌++◌, ◌==◌, leb, length, take, length-append, append-nil, All,
  All-append, arith,
}
use native.Mathlib.Nat.{pow-suc}
use long.Text.{decimal_loop, decimal}
use long.Text.Decimal.{IsDigit, IsDigit-not, decimal-IsDigit}
use long.TimeUtil.{Tm, zeros, padded, now_str, compact_time}

decimal_loop_short :
    (f n k : ℕ) (acc : List ℕ) → n < 10 ^ suc k → length (decimal_loop f n acc) ≤ suc k + length acc
unfolding decimal_loop
decimal_loop_short zero n k acc h = omega arith
decimal_loop_short (suc f) n k acc h = elim (Bool-cases (leb 10 n)) [
  | inr t ↦ rw (t, decimal_loop) (omega arith)
  | inl t ↦ rw (t, decimal_loop) (go k h t (decimal_loop_short f (n / 10)))
]
  where
    go :
        (k : ℕ)
        → n < 10 ^ suc k
        → leb 10 n ≡ true
        → ((j : ℕ) (bs : List ℕ)
            → n / 10 < 10 ^ suc j
            → length (decimal_loop f (n / 10) bs) ≤ suc j + length bs)
        → length (decimal_loop f (n / 10) ((48 + n % 10) ∷ acc)) ≤ suc k + length acc
    go zero h t ih = absurd (ground (arith, pow-suc 10 0))
    go (suc k) h t ih =
        omega (
          arith,
          pow-suc 10 (suc k),
          ih k ((48 + n % 10) ∷ acc) (omega (arith, pow-suc 10 (suc k))),
        )

length-zeros : (n : ℕ) → length (zeros n) ≡ n
unfolding zeros
length-zeros zero = refl
length-zeros (suc n) = ap suc (length-zeros n)

zeros-IsDigit : (n : ℕ) → All IsDigit (zeros n)
unfolding zeros
zeros-IsDigit zero = tt
zeros-IsDigit (suc n) = (refl, zeros-IsDigit n)

padded-IsDigit : (w n : ℕ) → All IsDigit (padded w n)
padded-IsDigit w n =
    All-append IsDigit (zeros (w - length (decimal n))) (decimal n)
      (zeros-IsDigit (w - length (decimal n))) (decimal-IsDigit n)

pub length-padded : (k n : ℕ) → n < 10 ^ suc k → length (padded (suc k) n) ≡ suc k
unfolding decimal_loop
length-padded k n h = omega (
  arith,
  length-append (zeros (suc k - length (decimal n))) (decimal n),
  length-zeros (suc k - length (decimal n)),
  decimal_loop_short (suc n) n k [] h,
)

compact_time-append :
    (ds s : List ℕ) → All IsDigit ds → compact_time (ds ++ s) ≡ ds ++ compact_time s
unfolding compact_time
compact_time-append [] s h = refl
compact_time-append (d ∷ ds) s h =
    rw
      (
        IsDigit-not d b'-' h.0 (omega arith),
        colon d h.0,
        IsDigit-not d b' ' h.0 (omega arith),
        compact_time,
      )
      (ap (◌∷◌ d) (compact_time-append ds s h.1))
  where
    colon : (c : ℕ) → IsDigit c → (c == b':') ≡ false
    colon c h = ground arith

-- The fields have the digits of their formats.
abbrev pub IsTime : Tm → Type 0
IsTime t =
    (t.tm_year + 1900 < 10 ^ 4)
    × (t.tm_mon + 1 < 10 ^ 2)
    × (t.tm_mday < 10 ^ 2)
    × (t.tm_hour < 10 ^ 2)
    × (t.tm_min < 10 ^ 2)
    × (t.tm_sec < 10 ^ 2)

take_all : (n : ℕ) (s : List ℕ) → length s ≤ n → take n s ≡ s
take_all zero [] h = refl
take_all zero (c ∷ s) h = absurd (omega arith)
take_all (suc n) [] h = refl
take_all (suc n) (c ∷ s) h = ap (◌∷◌ c) (take_all n s (omega arith))

-- Digits at the front of a text.
digits_first :
    (ds : List ℕ) → All IsDigit ds → (s : List ℕ) → compact_time (ds ++ s) ≡ ds ++ compact_time s
digits_first ds h s = compact_time-append ds s h

digits_only : (ds : List ℕ) → All IsDigit ds → compact_time ds ≡ ds
unfolding compact_time
digits_only ds h =
    ap compact_time (sym (append-nil ds)) ∙ compact_time-append ds [] h ∙ append-nil ds

length_first :
    (ds : List ℕ) (k : ℕ) → length ds ≡ k → (s : List ℕ) → length (ds ++ s) ≡ k + length s
length_first ds k e s = length-append ds s ∙ ap (λ (m : ℕ). m + length s) e

-- Six runs of digits with their marks, and without.
abbrev stamp : List ℕ → List ℕ → List ℕ → List ℕ → List ℕ → List ℕ → List ℕ
stamp y m d h i s = y ++ (b'-' ∷ (m ++ (b'-' ∷ (d ++ (b' ' ∷ (h ++ (b':' ∷ (i ++ (b':' ∷ s)))))))))

abbrev short_stamp : List ℕ → List ℕ → List ℕ → List ℕ → List ℕ → List ℕ → List ℕ
short_stamp y m d h i s = y ++ (m ++ (d ++ (b'-' ∷ (h ++ (i ++ s)))))

compact_time-stamp :
    (y m d h i s : List ℕ)
    → All IsDigit y
    → All IsDigit m
    → All IsDigit d
    → All IsDigit h
    → All IsDigit i
    → All IsDigit s
    → compact_time (stamp y m d h i s) ≡ short_stamp y m d h i s
unfolding compact_time
compact_time-stamp y m d h i s hy hm hd hh hi hs =
    rw
      (
        digits_first y hy,
        digits_first m hm,
        digits_first d hd,
        digits_first h hh,
        digits_first i hi,
        digits_only s hs,
      )
      refl

length-stamp :
    (y m d h i s : List ℕ)
    → length y ≡ 4
    → length m ≡ 2
    → length d ≡ 2
    → length h ≡ 2
    → length i ≡ 2
    → length s ≡ 2
    → (length (stamp y m d h i s) ≤ 79) × (length (short_stamp y m d h i s) ≡ 15)
length-stamp y m d h i s ly lm ld lh li ls = (
  rw
      (
        length_first y 4 ly,
        length_first m 2 lm,
        length_first d 2 ld,
        length_first h 2 lh,
        length_first i 2 li,
        ls,
      )
      (omega arith),
  rw
      (
        length_first y 4 ly,
        length_first m 2 lm,
        length_first d 2 ld,
        length_first h 2 lh,
        length_first i 2 li,
        ls,
      )
      refl,
)

-- The time without its marks: date and time, with a dash between them.
abbrev pub compacted : Tm → List ℕ
compacted t =
    padded 4 (t.tm_year + 1900)
    ++ (padded 2 (t.tm_mon + 1)
        ++ (padded 2 t.tm_mday
            ++ (b'-' ∷ (padded 2 t.tm_hour ++ (padded 2 t.tm_min ++ padded 2 t.tm_sec)))))

-- The compact time keeps every digit of the time in its place, and is 15 bytes long.
pub compact_time-now_str :
    (t : Tm)
    → IsTime t
    → (compact_time (now_str t) ≡ compacted t) × (length (compact_time (now_str t)) ≡ 15)
unfolding now_str
compact_time-now_str t h =
    let y = padded 4 (t.tm_year + 1900) in
    let m = padded 2 (t.tm_mon + 1) in
    let d = padded 2 t.tm_mday in
    let hh = padded 2 t.tm_hour in
    let i = padded 2 t.tm_min in
    let s = padded 2 t.tm_sec in
    let lengths =
      length-stamp y m d hh i s (length-padded 3 (t.tm_year + 1900) h.0)
        (length-padded 1 (t.tm_mon + 1) h.1) (length-padded 1 t.tm_mday h.2)
        (length-padded 1 t.tm_hour h.3) (length-padded 1 t.tm_min h.4)
        (length-padded 1 t.tm_sec h.5) in
    let e =
      ap compact_time (take_all 79 (stamp y m d hh i s) lengths.0)
      ∙ compact_time-stamp y m d hh i s (padded-IsDigit 4 (t.tm_year + 1900))
          (padded-IsDigit 2 (t.tm_mon + 1)) (padded-IsDigit 2 t.tm_mday)
          (padded-IsDigit 2 t.tm_hour) (padded-IsDigit 2 t.tm_min) (padded-IsDigit 2 t.tm_sec) in
    (e, ap (λ (u : List ℕ). length u) e ∙ lengths.1)
