-- ===== src/Json/Meaning.antt =====
-- What a JSON document means, told without the parser of include/utils/JsonHelper.h.
pub mod Read
use long.Base.{
  ℕ, zero, suc, ◌+◌, ◌-◌, ◌*◌, ◌^◌, ◌≡◌, Bool, true, false, List, [], ◌∷◌, if◌then◌else◌, ◌==◌,
  length, All,
}
use long.Base.Int.{ℤ, pos, negsuc, IsI64}
use long.Text.{same_text}
use long.Json.{
  Node, null, bool, int, double, string, object, array, Fields, no_fields, field, Items, no_items,
  item,
}
use long.Json.Docs.{
  Piece, plain_piece, escaped_piece, unicode_piece, Numeral, numeral_text, is_whole, Doc, null_doc,
  bool_doc, number_doc, string_doc, empty_object, empty_array, object_doc, array_doc, Members,
  last_member, more_members, Elements, last_element, more_elements,
}

-- The escapes of JSON with the bytes that they stand for: the quote, the backslash and the slash,
-- the line feed, the carriage return and the tabulator.
abbrev pub escapes : List (ℕ × ℕ)
escapes = (b'"', 34) ∷ (b'\\', 92) ∷ (b'/', 47) ∷ (b'n', 10) ∷ (b'r', 13) ∷ (b't', 9) ∷ []

abbrev pub is_listed : ℕ → List (ℕ × ℕ) → Bool
is_listed e [] = false
is_listed e ((k, c) ∷ table) = if e == k then true else is_listed e table

abbrev pub listed : ℕ → List (ℕ × ℕ) → ℕ
listed e [] = 0
listed e ((k, c) ∷ table) = if e == k then c else listed e table

abbrev pub byte_meant : Piece → ℕ
byte_meant (plain_piece c) = c
byte_meant (escaped_piece e) = listed e escapes
byte_meant (unicode_piece a b c d) = 0

abbrev pub text_meant : List Piece → List ℕ
text_meant [] = []
text_meant (p ∷ ps) = byte_meant p ∷ text_meant ps

abbrev pub IsStandardPiece : Piece → Type 0
IsStandardPiece (plain_piece c) = Unit
IsStandardPiece (escaped_piece e) = is_listed e escapes ≡ true
IsStandardPiece (unicode_piece a b c d) = ⊥

-- Each digit by its place.
abbrev pub place_value : List ℕ → ℕ
place_value [] = 0
place_value (c ∷ cs) = (c - 48) * 10 ^ length cs + place_value cs

abbrev pub with_sign : Bool → ℕ → ℤ
with_sign false n = pos n
with_sign true zero = pos 0
with_sign true (suc n) = negsuc n

-- A number with a fraction or an exponent stands for itself.
abbrev pub number_meant : Numeral → Node
number_meant n =
    if is_whole n
    then int (with_sign n.negative (place_value n.whole))
    else double (numeral_text n [])

-- An integer has a place in 64 bits.
abbrev pub FitsIf : Bool → ℤ → Type 0
FitsIf true z = IsI64 z
FitsIf false z = Unit {0}

abbrev pub IsStandardNumber : Numeral → Type 0
IsStandardNumber n = FitsIf (is_whole n) (with_sign n.negative (place_value n.whole))

-- No member has this name.
abbrev pub IsFresh : List ℕ → Members → Type 0
IsFresh name (last_member l d ws) = same_text name (text_meant l.key) ≡ false
IsFresh name (more_members l d ws ms) =
    (same_text name (text_meant l.key) ≡ false) × IsFresh name ms

-- The members of an object are in their order, each under its own name.
unfoldable mutual
  pub meaning : Doc → Node
  meaning null_doc = null
  meaning (bool_doc b) = bool b
  meaning (number_doc n) = number_meant n
  meaning (string_doc ps) = string (text_meant ps)
  meaning (empty_object ws) = object no_fields
  meaning (empty_array ws) = array no_items
  meaning (object_doc ms) = object (members_meant ms)
  meaning (array_doc es) = array (elements_meant es)

  pub members_meant : Members → Fields
  members_meant (last_member l d ws) = field (text_meant l.key) (meaning d) no_fields
  members_meant (more_members l d ws ms) = field (text_meant l.key) (meaning d) (members_meant ms)

  pub elements_meant : Elements → Items
  elements_meant (last_element vs d ws) = item (meaning d) no_items
  elements_meant (more_elements vs d ws es) = item (meaning d) (elements_meant es)

-- Its strings have no escapes but these, its integers have their places in 64 bits, and no two
-- members of an object have the same name.
unfoldable mutual
  pub IsStandard : Doc → Type 0
  IsStandard (number_doc n) = IsStandardNumber n
  IsStandard (string_doc ps) = All IsStandardPiece ps
  IsStandard (object_doc ms) = AreStandardMembers ms
  IsStandard (array_doc es) = AreStandardElements es
  IsStandard _ = Unit

  pub AreStandardMembers : Members → Type 0
  AreStandardMembers (last_member l d ws) = All IsStandardPiece l.key × IsStandard d
  AreStandardMembers (more_members l d ws ms) =
      All IsStandardPiece l.key
      × IsStandard d
      × IsFresh (text_meant l.key) ms
      × AreStandardMembers ms

  pub AreStandardElements : Elements → Type 0
  AreStandardElements (last_element vs d ws) = IsStandard d
  AreStandardElements (more_elements vs d ws es) = IsStandard d × AreStandardElements es
