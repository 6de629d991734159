-- ===== src/Config/Saved.antt =====
-- The text that `save` of src/modules/config/ConfigManager.cpp writes, as a document.
pub mod Grammar
pub mod Again
use long.Base.{
  ℕ, suc, ◌≡◌, ◌≢◌, refl, ap, subst, ◌∙◌, Bool, ◌&&◌, leb, true, false, Bool-cases, inl, inr, List,
  [], ◌∷◌, ◌++◌, map, none, if◌then◌else◌, ◌==◌, ==→eq, All, length, ◌<◌, arith,
}
use long.Base.Int.{ℤ, pos, negsuc, clamp, clamp-IsI64, i32-IsI64, IsI32}
use long.Text.{codes, c_str, digits, minus, decimal, print_int}
use long.Text.Decimal.{digits-decimal, decimal-IsDigit, length-decimal}
use long.Text.Same.{true_false}
use long.Json.{int}
use long.Json.Docs.{
  Piece, plain_piece, IsPiece, pieces_text, pieces_value, Numeral, numeral_text, numeral_value,
  IsNumeral, IsSpace, Label, IsLabel, Doc, number_doc, string_doc, object_doc, Members, last_member,
  more_members, doc_text, members_text, IsDoc, AreMembers,
}
use long.Config.{CameraConf, NetworkConf, SerialConf, ConfigManager, config_text}

abbrev pub IsPlain : ℕ → Type 0
IsPlain c = (c ≢ b'"') × (c ≢ b'\\') × (c ≢ 0)

abbrev pub plain_pieces : List ℕ → List Piece
plain_pieces s = map plain_piece s

abbrev pub numeral_of : ℤ → Numeral
numeral_of (pos n) = record {
  negative = false;
  whole = decimal n;
  fraction = none;
  exponent = none;
}
numeral_of (negsuc n) = record {
  negative = true;
  whole = decimal (suc n);
  fraction = none;
  exponent = none;
}

abbrev pub label : List ℕ → List ℕ → Label
label indent name = record {
  before = indent;
  key = plain_pieces name;
  between = [];
  behind = codes " ";
}

abbrev text_doc : List ℕ → Doc
text_doc s = string_doc (plain_pieces s)

abbrev int_doc : ℤ → Doc
int_doc z = number_doc (numeral_of z)

abbrev pub inner : List ℕ
inner = codes "\n    "

abbrev pub outer : List ℕ
outer = codes "\n  "

abbrev pub camera_doc : CameraConf → Doc
camera_doc c = object_doc (
    more_members (label inner (codes "device")) (text_doc c.device) [] (
      more_members (label inner (codes "width")) (int_doc c.width) [] (
        more_members (label inner (codes "height")) (int_doc c.height) []
          (last_member (label inner (codes "fps")) (int_doc c.fps) outer))))

abbrev pub network_doc : NetworkConf → Doc
network_doc c = object_doc (
    more_members (label inner (codes "bind")) (text_doc c.bind_addr) []
      (last_member (label inner (codes "port")) (int_doc (pos c.port)) outer))

abbrev pub serial_doc : SerialConf → Doc
serial_doc c = object_doc (
    more_members (label inner (codes "device")) (text_doc c.device) []
      (last_member (label inner (codes "baud")) (int_doc c.baud) outer))

abbrev pub config_doc : ConfigManager → Doc
config_doc c = object_doc (
    more_members (label outer (codes "camera")) (camera_doc c.camera) [] (
      more_members (label outer (codes "network")) (network_doc c.network) []
        (last_member (label outer (codes "serial")) (serial_doc c.serial) (codes "\n"))))

pub pieces_value-plain_pieces : (s : List ℕ) → pieces_value (plain_pieces s) ≡ s
pieces_value-plain_pieces [] = refl
pieces_value-plain_pieces (c ∷ s) = ap (◌∷◌ c) (pieces_value-plain_pieces s)

pieces_text-plain_pieces : (s rest : List ℕ) → pieces_text (plain_pieces s) rest ≡ s ++ rest
pieces_text-plain_pieces [] rest = refl
pieces_text-plain_pieces (c ∷ s) rest = ap (◌∷◌ c) (pieces_text-plain_pieces s rest)

numeral_text-numeral_of :
    (z : ℤ) (rest : List ℕ) → numeral_text (numeral_of z) rest ≡ print_int z ++ rest
numeral_text-numeral_of (pos n) rest = refl
numeral_text-numeral_of (negsuc n) rest = refl

pub numeral_value-numeral_of : (z : ℤ) → IsI32 z → numeral_value (numeral_of z) ≡ int z
numeral_value-numeral_of (pos n) h =
    ap (λ m. int (clamp (pos m))) (digits-decimal n)
    ∙ ap int (clamp-IsI64 (pos n) (i32-IsI64 (pos n) h))
numeral_value-numeral_of (negsuc n) h =
    ap (λ m. int (clamp (minus m))) (digits-decimal (suc n))
    ∙ ap int (clamp-IsI64 (negsuc n) (i32-IsI64 (negsuc n) h))

c_str-plain : (s : List ℕ) → All IsPlain s → c_str s ≡ s
unfolding c_str
c_str-plain [] h = refl
c_str-plain (c ∷ s) h = elim (Bool-cases (c == 0)) [
  | inl t ↦ absurd (h.0.2 (==→eq c 0 t))
  | inr t ↦ rw (t, c_str) (ap (◌∷◌ c) (c_str-plain s h.1))
]

-- The strings hold no quote, no backslash and no NUL.
pub record IsPlainConfig (c : ConfigManager) : Type 0 where
  pub camera_device : All IsPlain c.camera.device
  pub bind_addr : All IsPlain c.network.bind_addr
  pub serial_device : All IsPlain c.serial.device

pub config_text-config_doc :
    (c : ConfigManager) → IsPlainConfig c → config_text c ≡ doc_text (config_doc c) (codes "\n")
unfolding config_text doc_text members_text
config_text-config_doc c h =
    rw
      (
        c_str-plain c.camera.device h.camera_device,
        c_str-plain c.network.bind_addr h.bind_addr,
        c_str-plain c.serial.device h.serial_device,
        pieces_text-plain_pieces c.camera.device,
        pieces_text-plain_pieces c.network.bind_addr,
        pieces_text-plain_pieces c.serial.device,
        numeral_text-numeral_of c.camera.width,
        numeral_text-numeral_of c.camera.height,
        numeral_text-numeral_of c.camera.fps,
        numeral_text-numeral_of c.serial.baud,
      )
      refl
