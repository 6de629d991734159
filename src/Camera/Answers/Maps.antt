-- ===== src/Camera/Answers/Maps.antt =====
-- The buffers that `CameraManager::open` maps, by what the kernel answers.
use long.Base.{
  ℕ, zero, suc, ◌≤◌, ◌≡◌, refl, sym, ap, ◌∙◌, Bool, true, false, not, List, [], ◌∷◌, ◌++◌,
  append-nil, append_assoc, length, Option, none, some, if◌then◌else◌, ltb, arith,
}
use long.Base.Int.{ℤ}
use long.Camera.{mapped, Camera, close_camera, BufferAnswer, map_loop, open_buffers, set_rate}
use long.Camera.Opens.{Enough}
use long.Camera.Answers.{first_of, addresses_of, buffers_of, rate_of, somes, mapped_after}

abbrev pub Fails : Option (Camera × Bool) → Type 0
Fails o = (c' : Camera) × (o ≡ some (c', false))

abbrev pub MapsTo : Camera → List (Option ℕ) → Option (List ℕ) → Option (Camera × Bool) → Type 0
MapsTo c done none o = Fails o
MapsTo c done (some ps) o =
    o ≡ some (record c { buffers = done ++ somes ps; requests = mapped_after ps c.requests }, true)

map_loop-MapsTo :
    (c : Camera) (done : List (Option ℕ)) (n : ℕ) (answers : List BufferAnswer)
    → n ≤ length answers
    → MapsTo c done (addresses_of n answers) (map_loop c done n answers)
unfolding map_loop
map_loop-MapsTo c done zero answers l =
    ap (λ bs. some (record c { buffers = bs }, true)) (sym (append-nil done))
map_loop-MapsTo c done (suc n) [] l = absurd (omega arith)
map_loop-MapsTo c done (suc n) (a ∷ answers) l =
    go a.queried a.address (addresses_of n answers) _ (λ p.
      map_loop-MapsTo (record c { requests = mapped p ∷ c.requests }) (done ++ (some p ∷ [])) n
        answers (omega arith))
  where
    next : ℕ → Option (Camera × Bool)
    next p =
        map_loop (record c { requests = mapped p ∷ c.requests }) (done ++ (some p ∷ [])) n answers

    go :
        (q : Bool) (o : Option ℕ) (r : Option (List ℕ)) (failed : Camera)
        → ((p : ℕ)
            → MapsTo
                (record c { requests = mapped p ∷ c.requests })
                (done ++ (some p ∷ []))
                r
                (next p))
        → MapsTo c done (first_of q o r) (
            if not q
            then some (failed, false)
            else elim o [ none ↦ some (failed, false) | some p ↦ next p ])
    go false o r failed k = (failed, refl)
    go true none r failed k = (failed, refl)
    go true (some p) none failed k = k p
    go true (some p) (some ps) failed k =
        k p
        ∙ ap
            (λ bs.
              some (
                record c { buffers = bs; requests = mapped_after ps (mapped p ∷ c.requests) },
                true,
              ))
            (append_assoc done (some p ∷ []) (somes ps))

pub open_buffers-MapsTo :
    (c : Camera) (count : Option ℕ) (answers : List BufferAnswer)
    → Enough count answers
    → MapsTo c [] (buffers_of count answers) (open_buffers c count answers)
unfolding open_buffers
open_buffers-MapsTo c none answers l = (close_camera c, refl)
open_buffers-MapsTo c (some count) answers l =
    go (ltb count 2) (map_loop-MapsTo c [] count answers l)
  where
    go :
        (b : Bool)
        → MapsTo c [] (addresses_of count answers) (map_loop c [] count answers)
        → MapsTo c []
            (if b then none else addresses_of count answers)
            (if b then some (close_camera c, false) else map_loop c [] count answers)
    go true k = (close_camera c, refl)
    go false k = k

pub set_rate_lem :
    (c : Camera) (fps : ℤ) (timed : Bool) (rate : Option ℕ)
    → set_rate c fps timed rate ≡ record c { fps = rate_of fps timed rate }
unfolding set_rate
set_rate_lem c fps true none = refl
set_rate_lem c fps false none = refl
set_rate_lem c fps true (some rate) = refl
set_rate_lem c fps false (some rate) = refl
