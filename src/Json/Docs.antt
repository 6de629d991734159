-- ===== src/Json/Docs.antt =====
-- The documents that include/utils/JsonHelper.h reads: their texts and their values.
use long.Base.{
  ℕ, ◌≡◌, ◌≢◌, Bool, true, false, List, [], ◌∷◌, ◌++◌, Option, none, some, if◌then◌else◌, All,
}
use long.Base.Int.{pos, clamp}
use long.Text.{codes, is_space, digits, minus}
use long.Text.Decimal.{IsDigit}
use long.Json.{
  Node, null, bool, int, double, string, object, array, Fields, no_fields, Items, no_items, item,
  put, unescape, is_exponent, is_sign,
}

abbrev pub IsSpace : ℕ → Type 0
IsSpace c = is_space c ≡ true

-- A byte of a string as it is, behind a backslash, or as `\u` and four bytes.
pub data Piece : Type 0 where
  plain_piece escaped_piece : ℕ → Piece
  unicode_piece : ℕ → ℕ → ℕ → ℕ → Piece

abbrev pub piece_text : Piece → List ℕ
piece_text (plain_piece c) = c ∷ []
piece_text (escaped_piece e) = b'\\' ∷ e ∷ []
piece_text (unicode_piece a b c d) = b'\\' ∷ b'u' ∷ a ∷ b ∷ c ∷ d ∷ []

abbrev pub piece_value : Piece → ℕ
piece_value (plain_piece c) = c
piece_value (escaped_piece e) = unescape e
piece_value (unicode_piece a b c d) = b'?'

abbrev pub IsPiece : Piece → Type 0
IsPiece (plain_piece c) = (c ≢ b'"') × (c ≢ b'\\')
IsPiece (escaped_piece e) = e ≢ b'u'
IsPiece (unicode_piece a b c d) = Unit

-- The texts are written before what follows them.
abbrev pub pieces_text : List Piece → List ℕ → List ℕ
pieces_text [] rest = rest
pieces_text (p ∷ ps) rest = piece_text p ++ pieces_text ps rest

abbrev pub pieces_value : List Piece → List ℕ
pieces_value [] = []
pieces_value (p ∷ ps) = piece_value p ∷ pieces_value ps

abbrev pub quoted : List Piece → List ℕ → List ℕ
quoted ps rest = b'"' ∷ pieces_text ps (b'"' ∷ rest)

-- `e` or `E`, a sign or none, and digits.
pub record Exponent : Type 0 where
  pub marker : ℕ
  pub sign : Option ℕ
  pub power : List ℕ

pub record Numeral : Type 0 where
  pub negative : Bool
  pub whole : List ℕ
  pub fraction : Option (List ℕ)
  pub exponent : Option Exponent

abbrev pub optional : Option ℕ → List ℕ → List ℕ
optional none rest = rest
optional (some c) rest = c ∷ rest

abbrev pub fraction_text : Option (List ℕ) → List ℕ → List ℕ
fraction_text none rest = rest
fraction_text (some ds) rest = b'.' ∷ (ds ++ rest)

abbrev pub exponent_text : Option Exponent → List ℕ → List ℕ
exponent_text none rest = rest
exponent_text (some x) rest = x.marker ∷ optional x.sign (x.power ++ rest)

abbrev pub whole_text : Bool → List ℕ → List ℕ → List ℕ
whole_text true ds rest = b'-' ∷ (ds ++ rest)
whole_text false ds rest = ds ++ rest

abbrev pub numeral_text : Numeral → List ℕ → List ℕ
numeral_text n rest =
    whole_text n.negative n.whole (fraction_text n.fraction (exponent_text n.exponent rest))

abbrev pub is_whole : Numeral → Bool
is_whole n = elim n.fraction [
  | some ds ↦ false
  | none ↦ elim n.exponent [ some x ↦ false | none ↦ true ]
]

-- An integer, cut to 64 bits, or the text that stands for a double.
abbrev pub numeral_value : Numeral → Node
numeral_value n =
    if is_whole n
    then int (clamp (if n.negative then minus (digits n.whole 0) else pos (digits n.whole 0)))
    else double (numeral_text n [])

abbrev pub IsSign : Option ℕ → Type 0
IsSign none = Unit
IsSign (some c) = is_sign c ≡ true

abbrev pub IsFraction : Option (List ℕ) → Type 0
IsFraction none = Unit
IsFraction (some ds) = All IsDigit ds

abbrev pub IsExponent : Option Exponent → Type 0
IsExponent none = Unit
IsExponent (some x) =
    (is_exponent x.marker ≡ true) × IsSign x.sign × (x.power ≢ []) × All IsDigit x.power

abbrev pub IsNumeral : Numeral → Type 0
IsNumeral n = (n.whole ≢ []) × All IsDigit n.whole × IsFraction n.fraction × IsExponent n.exponent

-- A key with the white space before it, before its colon and behind that.
pub record Label : Type 0 where
  pub before : List ℕ
  pub key : List Piece
  pub between : List ℕ
  pub behind : List ℕ

abbrev pub label_text : Label → List ℕ → List ℕ
label_text l rest = l.before ++ quoted l.key (l.between ++ (b':' ∷ (l.behind ++ rest)))

abbrev pub IsLabel : Label → Type 0
IsLabel l = All IsSpace l.before × All IsPiece l.key × All IsSpace l.between × All IsSpace l.behind

-- An empty object and an empty array hold white space. A member or an element is followed by white
-- space; an element stands behind some, too.
mutual
  pub data Doc : Type 0 where
    null_doc : Doc
    bool_doc : Bool → Doc
    number_doc : Numeral → Doc
    string_doc : List Piece → Doc
    empty_object empty_array : List ℕ → Doc
    object_doc : Members → Doc
    array_doc : Elements → Doc

  pub data Members : Type 0 where
    last_member : Label → Doc → List ℕ → Members
    more_members : Label → Doc → List ℕ → Members → Members

  pub data Elements : Type 0 where
    last_element : List ℕ → Doc → List ℕ → Elements
    more_elements : List ℕ → Doc → List ℕ → Elements → Elements

unfoldable mutual
  pub doc_text : Doc → List ℕ → List ℕ
  doc_text null_doc rest = codes "null" ++ rest
  doc_text (bool_doc true) rest = codes "true" ++ rest
  doc_text (bool_doc false) rest = codes "false" ++ rest
  doc_text (number_doc n) rest = numeral_text n rest
  doc_text (string_doc ps) rest = quoted ps rest
  doc_text (empty_object ws) rest = b'{' ∷ (ws ++ (b'}' ∷ rest))
  doc_text (empty_array ws) rest = b'[' ∷ (ws ++ (b']' ∷ rest))
  doc_text (object_doc ms) rest = b'{' ∷ members_text ms (b'}' ∷ rest)
  doc_text (array_doc es) rest = b'[' ∷ elements_text es (b']' ∷ rest)

  pub members_text : Members → List ℕ → List ℕ
  members_text (last_member l d ws) rest = label_text l (doc_text d (ws ++ rest))
  members_text (more_members l d ws ms) rest =
      label_text l (doc_text d (ws ++ (b',' ∷ members_text ms rest)))

  pub elements_text : Elements → List ℕ → List ℕ
  elements_text (last_element vs d ws) rest = vs ++ doc_text d (ws ++ rest)
  elements_text (more_elements vs d ws es) rest =
      vs ++ doc_text d (ws ++ (b',' ∷ elements_text es rest))

-- A later member of the same name takes the place of an earlier one.
unfoldable mutual
  pub doc_value : Doc → Node
  doc_value null_doc = null
  doc_value (bool_doc b) = bool b
  doc_value (number_doc n) = numeral_value n
  doc_value (string_doc ps) = string (pieces_value ps)
  doc_value (empty_object ws) = object no_fields
  doc_value (empty_array ws) = array no_items
  doc_value (object_doc ms) = object (members_value ms no_fields)
  doc_value (array_doc es) = array (elements_value es)

  pub members_value : Members → Fields → Fields
  members_value (last_member l d ws) fs = put (pieces_value l.key) (doc_value d) fs
  members_value (more_members l d ws ms) fs =
      members_value ms (put (pieces_value l.key) (doc_value d) fs)

  pub elements_value : Elements → Items
  elements_value (last_element vs d ws) = item (doc_value d) no_items
  elements_value (more_elements vs d ws es) = item (doc_value d) (elements_value es)

unfoldable mutual
  pub IsDoc : Doc → Type 0
  IsDoc (number_doc n) = IsNumeral n
  IsDoc (string_doc ps) = All IsPiece ps
  IsDoc (empty_object ws) = All IsSpace ws
  IsDoc (empty_array ws) = All IsSpace ws
  IsDoc (object_doc ms) = AreMembers ms
  IsDoc (array_doc es) = AreElements es
  IsDoc _ = Unit

  pub AreMembers : Members → Type 0
  AreMembers (last_member l d ws) = IsLabel l × IsDoc d × All IsSpace ws
  AreMembers (more_members l d ws ms) = IsLabel l × IsDoc d × All IsSpace ws × AreMembers ms

  pub AreElements : Elements → Type 0
  AreElements (last_element vs d ws) = All IsSpace vs × IsDoc d × All IsSpace ws
  AreElements (more_elements vs d ws es) =
      All IsSpace vs × IsDoc d × All IsSpace ws × AreElements es
