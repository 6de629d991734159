-- ===== src/App/Serve/Lost.antt =====
-- `serveClient` and a camera that is lost.
use long.Base.{
  ℕ, ◌+◌, ◌≤◌, ◌<◌, ◌≡◌, refl, ap, ◌∙◌, List, [], ◌∷◌, ◌++◌, none, some, All, length, arith,
}
use long.App.Serve.{Client, Round, Outcome, goes_on, stops, serve_loop}
use long.App.Serve.Steps.{fails_after}
use long.App.Serve.Served.{fails_at_end, serve_loop-Served}

abbrev pub IsStopped : Outcome → Type 0
IsStopped (goes_on c) = ⊥
IsStopped (stops s c) = Unit

fails_at_end-append :
    (rs failed : List Round) (n : ℕ)
    → fails_at_end n (rs ++ failed) ≡ fails_at_end (fails_at_end n rs) failed
fails_at_end-append [] failed n = refl
fails_at_end-append (r ∷ rs) failed n = fails_at_end-append rs failed (fails_after n r.grab)

fails_at_end_counts :
    (failed : List Round) (n : ℕ)
    → All (λ r. r.grab ≡ none) failed
    → fails_at_end n failed ≡ n + length failed
fails_at_end_counts [] n h = omega arith
fails_at_end_counts (r ∷ rs) n h =
    ap (λ g. fails_at_end (fails_after n g) rs) h.0
    ∙ fails_at_end_counts rs (fails_after n none) h.1
    ∙ omega arith

-- A loop whose last five rounds or more find no frame has stopped, whatever came before and for
-- whatever reason, if the answers of the socket last until then.
pub serve_loop-IsStopped :
    (c : Client) (rs failed : List Round) (o : Outcome)
    → c.grab_fail_cnt < 5
    → 5 ≤ length failed
    → All (λ r. r.grab ≡ none) failed
    → serve_loop c (rs ++ failed) ≡ some o
    → IsStopped o
serve_loop-IsStopped c rs failed (stops s c') h g f e = tt
serve_loop-IsStopped c rs failed (goes_on c') h g f e =
    let served = serve_loop-Served c (rs ++ failed) c' h e in
    omega (
      arith,
      served.below,
      served.fails,
      fails_at_end-append rs failed c.grab_fail_cnt,
      fails_at_end_counts failed (fails_at_end c.grab_fail_cnt rs) f,
    )
