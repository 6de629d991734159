-- ===== src/Serial/Protocol/Crc.antt =====
-- `crc8` of Protocol.h on messages that differ in one byte.
use long.Base.{
  ℕ, zero, suc, ◌+◌, ◌/◌, ◌%◌, ◌≡◌, refl, sym, ap, ◌∙◌, true, List, [], ◌∷◌, ◌++◌, All,
  if◌then◌else◌, ◌==◌, ==→eq, arith,
}
use long.Base.Bytes.{
  IsByte, bit_xor-cancel_left, bit_xor_comm, bit_xor-IsByte, all_below, all_below-at,
}
use long.Serial.Protocol.{crc_bit, crc_bits, crc_loop, crc8}
use Prim.Native.Nat.{bit_xor}

-- The shift backwards: the round has put its 1 into the lowest bit exactly if the top bit was set.
undo_bit : ℕ → ℕ
undo_bit y = if y % 2 == 0 then y / 2 else bit_xor y 0x07 / 2 + 128

undo_bit_table : all_below 256 (λ x. undo_bit (crc_bit x) == x) ≡ true
unfolding all_below undo_bit crc_bit
undo_bit_table = refl

crc_bit-IsByte : (x : ℕ) → IsByte (crc_bit x)
unfolding crc_bit
crc_bit-IsByte x = ground arith

crc_bit-injective : (x y : ℕ) → IsByte x → IsByte y → crc_bit x ≡ crc_bit y → x ≡ y
crc_bit-injective x y hx hy e = sym (undone x hx) ∙ ap undo_bit e ∙ undone y hy
  where
    undone : (z : ℕ) → IsByte z → undo_bit (crc_bit z) ≡ z
    undone z h = ==→eq _ z (all_below-at 256 (λ x. undo_bit (crc_bit x) == x) z undo_bit_table h)

crc_bits-IsByte : (n x : ℕ) → IsByte x → IsByte (crc_bits n x)
unfolding crc_bits
crc_bits-IsByte zero x h = h
crc_bits-IsByte (suc n) x h = crc_bits-IsByte n (crc_bit x) (crc_bit-IsByte x)

crc_bits-injective : (n x y : ℕ) → IsByte x → IsByte y → crc_bits n x ≡ crc_bits n y → x ≡ y
unfolding crc_bits
crc_bits-injective zero x y hx hy e = e
crc_bits-injective (suc n) x y hx hy e =
    crc_bit-injective x y hx hy
      (crc_bits-injective n (crc_bit x) (crc_bit y) (crc_bit-IsByte x) (crc_bit-IsByte y) e)

abbrev crc_byte : ℕ → ℕ → ℕ
crc_byte crc b = crc_bits 8 (bit_xor crc b)

crc_byte-IsByte : (crc b : ℕ) → IsByte crc → IsByte b → IsByte (crc_byte crc b)
crc_byte-IsByte crc b h k = crc_bits-IsByte 8 _ (bit_xor-IsByte crc b h k)

-- Equal checksums of one message come from equal states before it.
crc_loop-injective :
    (bytes : List ℕ) (c d : ℕ)
    → All IsByte bytes
    → IsByte c
    → IsByte d
    → crc_loop c bytes ≡ crc_loop d bytes
    → c ≡ d
unfolding crc_loop
crc_loop-injective [] c d h hc hd e = e
crc_loop-injective (b ∷ bytes) c d h hc hd e =
    let same : crc_byte c b ≡ crc_byte d b =
      crc_loop-injective bytes (crc_byte c b) (crc_byte d b) h.1 (crc_byte-IsByte c b hc h.0)
        (crc_byte-IsByte d b hd h.0) e in
    let xors : bit_xor c b ≡ bit_xor d b =
      crc_bits-injective 8 _ _ (bit_xor-IsByte c b hc h.0) (bit_xor-IsByte d b hd h.0) same in
    bit_xor-cancel_left b c d (bit_xor_comm b c ∙ xors ∙ bit_xor_comm d b)

crc_loop-IsByte : (bytes : List ℕ) (c : ℕ) → All IsByte bytes → IsByte c → IsByte (crc_loop c bytes)
unfolding crc_loop
crc_loop-IsByte [] c h hc = hc
crc_loop-IsByte (b ∷ bytes) c h hc =
    crc_loop-IsByte bytes (crc_byte c b) h.1 (crc_byte-IsByte c b hc h.0)

crc_loop_changed :
    (front back : List ℕ) (x y c : ℕ)
    → All IsByte front
    → All IsByte back
    → IsByte x
    → IsByte y
    → IsByte c
    → crc_loop c (front ++ (x ∷ back)) ≡ crc_loop c (front ++ (y ∷ back))
    → x ≡ y
unfolding crc_loop
crc_loop_changed [] back x y c hf hb hx hy hc e =
    let same : crc_byte c x ≡ crc_byte c y =
      crc_loop-injective back (crc_byte c x) (crc_byte c y) hb (crc_byte-IsByte c x hc hx)
        (crc_byte-IsByte c y hc hy) e in
    bit_xor-cancel_left c x y
      (crc_bits-injective 8 _ _ (bit_xor-IsByte c x hc hx) (bit_xor-IsByte c y hc hy) same)
crc_loop_changed (b ∷ front) back x y c hf hb hx hy hc e =
    crc_loop_changed front back x y (crc_byte c b) hf.1 hb hx hy (crc_byte-IsByte c b hc hf.0) e

-- The checksum of bytes is a byte.
pub crc8-IsByte : (bytes : List ℕ) → All IsByte bytes → IsByte (crc8 bytes)
unfolding crc8
crc8-IsByte bytes h = crc_loop-IsByte bytes 0 h (omega arith)

-- Two messages of bytes that differ in one byte have different checksums.
pub crc8_changed :
    (front back : List ℕ) (x y : ℕ)
    → All IsByte front
    → All IsByte back
    → IsByte x
    → IsByte y
    → crc8 (front ++ (x ∷ back)) ≡ crc8 (front ++ (y ∷ back))
    → x ≡ y
unfolding crc8
crc8_changed front back x y hf hb hx hy e =
    crc_loop_changed front back x y 0 hf hb hx hy (omega arith) e
