-- ===== src/App/Run/Sleep.antt =====
-- How long `interruptibleSleep` of src/app/Application.cpp sleeps.
use long.Base.{
  ℕ, ◌+◌, ◌*◌, ◌≤◌, ◌<◌, ◌≡◌, refl, ◌∙◌, Bool, true, false, Bool-cases, inl, inr, List, [], ◌∷◌,
  length, some, if◌then◌else◌, ltb, ltb→lt, ltb→le, arith,
}
use long.App.Run.{sleep_loop, interruptible_sleep}

-- The loop ends, in less than a tenth of a second over, and not early if it says it slept.
abbrev Ends : List Bool → ℕ → ℕ → Type 0
Ends loads slept total =
    (r : Bool × ℕ) × ((sleep_loop loads slept total ≡ some r)
      × ((r.1 < total + 100) × (r.0 ≡ true → total ≤ r.1)))

sleep_loop-step :
    (running : Bool) (loads : List Bool) (slept total : ℕ)
    → slept < total
    → sleep_loop (running ∷ loads) slept total
      ≡ (if running then sleep_loop loads (slept + 100) total else some (false, slept))
unfolding sleep_loop
sleep_loop-step running loads slept total h = ground arith

sleep_loop-over :
    (running : Bool) (loads : List Bool) (slept total : ℕ)
    → total ≤ slept
    → sleep_loop (running ∷ loads) slept total ≡ some (running, slept)
unfolding sleep_loop
sleep_loop-over running loads slept total h = ground arith

one_round :
    (running : Bool) (loads : List Bool) (slept total : ℕ)
    → slept < total
    → (running ≡ true → Ends loads (slept + 100) total)
    → Ends (running ∷ loads) slept total
one_round false loads slept total l next =
    ((false, slept), (sleep_loop-step false loads slept total l, (omega arith, λ t. absurd cc)))
one_round true loads slept total l next =
    let (r, (e, rest)) = next refl in (r, (sleep_loop-step true loads slept total l ∙ e, rest))

sleep_loop-Ends :
    (loads : List Bool) (slept total : ℕ)
    → slept < total + 100
    → total + 100 ≤ slept + length loads * 100
    → Ends loads slept total
sleep_loop-Ends [] slept total l k = absurd (omega arith)
sleep_loop-Ends (b ∷ loads) slept total l k = elim (Bool-cases (ltb slept total)) [
  | inr e ↦
      let over = ltb→le slept total e in
      ((b, slept), (sleep_loop-over b loads slept total over, (l, λ t. over)))
  | inl e ↦
      let under = ltb→lt slept total e in
      one_round b loads slept total under
        (λ t. sleep_loop-Ends loads (slept + 100) total (omega arith) (omega arith))
]

-- With an answer of `running_` for each tenth of a second and one more, the sleep ends, less than a
-- tenth of a second over time; and it has lasted the whole time if it returns true.
pub interruptible_sleep_ends :
    (loads : List Bool) (total : ℕ)
    → total + 100 ≤ length loads * 100
    → (r : Bool × ℕ) × ((interruptible_sleep loads total ≡ some r)
        × ((r.1 < total + 100) × (r.0 ≡ true → total ≤ r.1)))
unfolding interruptible_sleep
interruptible_sleep_ends loads total h = sleep_loop-Ends loads 0 total (omega arith) (omega arith)
