-- ===== src/Camera/Answers.antt =====
-- `CameraManager::open`, by what the kernel answers.
pub mod Maps
pub mod Whole
use long.Base.{
  ℕ, zero, suc, ◌≡◌, Bool, true, false, ◌&&◌, List, [], ◌∷◌, Option, none, some, if◌then◌else◌, ltb,
}
use long.Base.Int.{ℤ, of_u32}
use long.Handle.{opened}
use long.Camera.{Request, mapped, Camera, close_camera, BufferAnswer, OpenAnswers}
use long.Camera.Held.{IsClosed}

-- The addresses of the first `n` buffers, if each has one.
abbrev pub first_of : Bool → Option ℕ → Option (List ℕ) → Option (List ℕ)
first_of false address rest = none
first_of true none rest = none
first_of true (some p) none = none
first_of true (some p) (some ps) = some (p ∷ ps)

abbrev pub addresses_of : ℕ → List BufferAnswer → Option (List ℕ)
addresses_of zero answers = some []
addresses_of (suc n) [] = none
addresses_of (suc n) (a ∷ answers) = first_of a.queried a.address (addresses_of n answers)

-- At least two buffers are wanted.
abbrev pub buffers_of : Option ℕ → List BufferAnswer → Option (List ℕ)
buffers_of none answers = none
buffers_of (some count) answers = if ltb count 2 then none else addresses_of count answers

-- What `open` gets from the kernel.
pub record Got : Type 0 where
  pub fd : ℕ
  pub width : ℕ
  pub height : ℕ
  pub is_mjpeg : Bool
  pub addresses : List ℕ

abbrev pub got_from : Bool → Option ℕ → Option (ℕ × (ℕ × Bool)) → Option (List ℕ) → Option Got
got_from false device format buffers = none
got_from true none format buffers = none
got_from true (some fd) none buffers = none
got_from true (some fd) (some f) none = none
got_from true (some fd) (some (width, (height, is_mjpeg))) (some ps) =
    some (record { fd = fd; width = width; height = height; is_mjpeg = is_mjpeg; addresses = ps })

-- All that it wants, or nothing where one answer fails.
abbrev pub got : OpenAnswers → Option Got
got a =
    got_from (a.capabilities && (a.captures && a.streams)) a.device a.format
      (buffers_of a.count a.answers)

abbrev pub rate_of : ℤ → Bool → Option ℕ → ℤ
rate_of fps true (some rate) = of_u32 rate
rate_of fps true none = fps
rate_of fps false rate = fps

abbrev pub somes : List ℕ → List (Option ℕ)
somes [] = []
somes (p ∷ ps) = some p ∷ somes ps

-- The mappings of these addresses, one after the other, behind the requests before.
abbrev pub mapped_after : List ℕ → List Request → List Request
mapped_after [] requests = requests
mapped_after (p ∷ ps) requests = mapped_after ps (mapped p ∷ requests)

-- The camera `c'` is `c`, closed, with what `open` has got.
pub record IsOpened (c : Camera) (rate : ℤ) (g : Got) (c' : Camera) : Type 0 where
  pub given_back : IsClosed (close_camera c)
  pub descriptor : c'.handle.fd ≡ some g.fd
  pub calls : c'.handle.calls ≡ opened g.fd ∷ (close_camera c).handle.calls
  pub buffers : c'.buffers ≡ somes g.addresses
  pub requests : c'.requests ≡ mapped_after g.addresses (close_camera c).requests
  pub width : c'.width ≡ of_u32 g.width
  pub height : c'.height ≡ of_u32 g.height
  pub is_mjpeg : c'.is_mjpeg ≡ g.is_mjpeg
  pub fps : c'.fps ≡ rate
  pub idle : c'.streaming ≡ false
  pub no_index : c'.last_index ≡ none

abbrev pub OpensBy : Camera → ℤ → Option Got → Option (Camera × Bool) → Type 0
OpensBy c fps g none = ⊥
OpensBy c fps none (some (c', ok)) = (ok ≡ false) × IsClosed c'
OpensBy c fps (some g) (some (c', ok)) = (ok ≡ true) × IsOpened c fps g c'
