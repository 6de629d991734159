-- ===== src/Config/Saved/Grammar.antt =====
-- The text that `save` of src/modules/config/ConfigManager.cpp writes: its parts are well formed.
use long.Base.{
  ℕ, suc, ◌≡◌, ◌≢◌, refl, ap, subst, Bool, ◌&&◌, leb, true, Bool-cases, inl, inr, List, [], ◌∷◌,
  All, length, ◌<◌, arith,
}
use long.Base.Int.{ℤ, pos, negsuc}
use long.Text.{codes, decimal}
use long.Text.Decimal.{decimal-IsDigit, length-decimal}
use long.Text.Same.{true_false}
use long.Json.Docs.{IsPiece, IsNumeral, IsSpace, IsLabel, IsDoc, AreMembers}
use long.Config.{CameraConf, NetworkConf, SerialConf, ConfigManager}
use long.Config.Saved.{
  IsPlain, plain_pieces, numeral_of, label, inner, outer, camera_doc, network_doc, serial_doc,
  config_doc, IsPlainConfig,
}

plain_pieces-IsPiece : (s : List ℕ) → All IsPlain s → All IsPiece (plain_pieces s)
plain_pieces-IsPiece [] h = tt
plain_pieces-IsPiece (c ∷ s) h = ((h.0.0, h.0.1), plain_pieces-IsPiece s h.1)

decimal_some : (n : ℕ) → decimal n ≢ []
decimal_some n e = omega (arith, length-decimal n, ap length e)

numeral_of-IsNumeral : (z : ℤ) → IsNumeral (numeral_of z)
numeral_of-IsNumeral (pos n) = (decimal_some n, decimal-IsDigit n, tt, tt)
numeral_of-IsNumeral (negsuc n) = (decimal_some (suc n), decimal-IsDigit (suc n), tt, tt)

-- The names of the members are letters.
abbrev is_name : List ℕ → Bool
is_name [] = true
is_name (c ∷ cs) = leb b'a' c && is_name cs

no_letter : (c d : ℕ) → leb b'a' c ≡ true → d < b'a' → c ≢ d
no_letter c d h g e = ground arith

is_name-IsPiece : (s : List ℕ) → is_name s ≡ true → All IsPiece (plain_pieces s)
is_name-IsPiece [] e = tt
is_name-IsPiece (c ∷ s) e = elim (Bool-cases (leb b'a' c)) [
  | inl t ↦ (
    (λ q. no_letter c b'"' t (omega arith) q, λ q. no_letter c b'\\' t (omega arith) q),
    is_name-IsPiece s (subst (λ b. (b && is_name s) ≡ true) t e),
  )
  | inr t ↦ absurd (true_false (subst (λ b. (b && is_name s) ≡ true) t e))
]

label-IsLabel :
    (indent name : List ℕ) → All IsSpace indent → is_name name ≡ true → IsLabel (label indent name)
label-IsLabel indent name h e = (h, is_name-IsPiece name e, tt, (refl, tt))

inner-label : (name : List ℕ) → is_name name ≡ true → IsLabel (label inner name)
inner-label name e = label-IsLabel inner name (refl, (refl, (refl, (refl, (refl, tt))))) e

outer-label : (name : List ℕ) → is_name name ≡ true → IsLabel (label outer name)
outer-label name e = label-IsLabel outer name (refl, (refl, (refl, tt))) e

camera_doc-IsDoc : (c : CameraConf) → All IsPlain c.device → IsDoc (camera_doc c)
unfolding IsDoc AreMembers
camera_doc-IsDoc c h = (
  inner-label (codes "device") refl,
  plain_pieces-IsPiece c.device h,
  tt,
  (
    inner-label (codes "width") refl,
    numeral_of-IsNumeral c.width,
    tt,
    (
      inner-label (codes "height") refl,
      numeral_of-IsNumeral c.height,
      tt,
      (inner-label (codes "fps") refl, numeral_of-IsNumeral c.fps, (refl, (refl, (refl, tt)))),
    ),
  ),
)

network_doc-IsDoc : (c : NetworkConf) → All IsPlain c.bind_addr → IsDoc (network_doc c)
unfolding IsDoc AreMembers
network_doc-IsDoc c h = (
  inner-label (codes "bind") refl,
  plain_pieces-IsPiece c.bind_addr h,
  tt,
  (inner-label (codes "port") refl, numeral_of-IsNumeral (pos c.port), (refl, (refl, (refl, tt)))),
)

serial_doc-IsDoc : (c : SerialConf) → All IsPlain c.device → IsDoc (serial_doc c)
unfolding IsDoc AreMembers
serial_doc-IsDoc c h = (
  inner-label (codes "device") refl,
  plain_pieces-IsPiece c.device h,
  tt,
  (inner-label (codes "baud") refl, numeral_of-IsNumeral c.baud, (refl, (refl, (refl, tt)))),
)

pub config_doc-IsDoc : (c : ConfigManager) → IsPlainConfig c → IsDoc (config_doc c)
unfolding IsDoc AreMembers
config_doc-IsDoc c h = (
  outer-label (codes "camera") refl,
  camera_doc-IsDoc c.camera h.camera_device,
  tt,
  (
    outer-label (codes "network") refl,
    network_doc-IsDoc c.network h.bind_addr,
    tt,
    (outer-label (codes "serial") refl, serial_doc-IsDoc c.serial h.serial_device, (refl, tt)),
  ),
)
