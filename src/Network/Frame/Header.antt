-- ===== src/Network/Frame/Header.antt =====
-- The six bytes of `buildHeader`, read back.
use long.Base.{ℕ, ◌+◌, ◌*◌, ◌/◌, ◌%◌, ◌^◌, ◌<◌, ◌≡◌, refl, [], ◌∷◌, arith}
use long.Base.Bytes.{IsByte, bit_or_shifted, bit_and_ff}
use long.Network.Frame.{build_header, ll_sof}
use Prim.Native.Nat.{bit_or}

-- `b0 | (b1 << 8) | (b2 << 16) | (b3 << 24)`, as a receiver of the header reads the length.
abbrev pub read_le32 : ℕ → ℕ → ℕ → ℕ → ℕ
read_le32 b0 b1 b2 b3 = bit_or (bit_or (bit_or b0 (b1 * 2 ^ 8)) (b2 * 2 ^ 16)) (b3 * 2 ^ 24)

pub read_le32-sum :
    (b0 b1 b2 b3 : ℕ)
    → IsByte b0
    → IsByte b1
    → IsByte b2
    → read_le32 b0 b1 b2 b3 ≡ b0 + b1 * 2 ^ 8 + b2 * 2 ^ 16 + b3 * 2 ^ 24
read_le32-sum b0 b1 b2 b3 h0 h1 h2 =
    rw
      (
        bit_or_shifted 8 b0 b1 (omega arith),
        bit_or_shifted 16 (b0 + b1 * 2 ^ 8) b2 (omega arith),
        bit_or_shifted 24 (b0 + b1 * 2 ^ 8 + b2 * 2 ^ 16) b3 (omega arith),
      )
      refl

-- The length that a sender puts into a header is the one that a receiver takes out.
pub read_le32-split :
    (len : ℕ)
    → len < 2 ^ 32
    → read_le32 (len % 256) (len / 2 ^ 8 % 256) (len / 2 ^ 16 % 256) (len / 2 ^ 24 % 256) ≡ len
read_le32-split len h =
    omega (
      arith,
      read_le32-sum (len % 256) (len / 2 ^ 8 % 256) (len / 2 ^ 16 % 256) (len / 2 ^ 24 % 256),
    )

pub build_header-bytes :
    (type len : ℕ)
    → build_header type len
      ≡ ll_sof
        ∷ type
        ∷ len % 256
        ∷ (len / 2 ^ 8) % 256
        ∷ (len / 2 ^ 16) % 256
        ∷ (len / 2 ^ 24) % 256
        ∷ []
unfolding build_header
build_header-bytes type len = simp bit_and_ff
