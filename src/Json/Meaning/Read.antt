-- ===== src/Json/Meaning/Read.antt =====
-- `parse` of include/utils/JsonHelper.h yields what a document means.
use native.Mathlib.Nat.{pow-suc}
use long.Base.{
  ℕ, zero, suc, ◌+◌, ◌-◌, ◌*◌, ◌^◌, ◌≡◌, refl, sym, ap, ap₂, ◌∙◌, Bool, true, false, List, [], ◌∷◌,
  ◌++◌, if◌then◌else◌, length, All, arith,
}
use long.Base.Int.{ℤ, pos, clamp, IsI64, clamp-IsI64}
use long.Text.{same_text, digits, minus}
use long.Text.Decimal.{IsDigit, digits_step}
use long.Json.{
  Node, int, double, string, object, array, Fields, no_fields, field, no_items, item, ok, put,
  unescape,
}
use long.Json.Parser.{parse}
use long.Json.Docs.{
  IsSpace, Piece, plain_piece, escaped_piece, unicode_piece, piece_value, pieces_value, Numeral,
  numeral_text, is_whole, numeral_value, IsNumeral, Doc, null_doc, bool_doc, number_doc, string_doc,
  empty_object, empty_array, object_doc, array_doc, Members, last_member, more_members, Elements,
  last_element, more_elements, doc_text, doc_value, members_value, elements_value, IsDoc,
  AreMembers, AreElements,
}
use long.Json.Numbers.{Stops}
use long.Json.Reads.Whole.{parse-doc_text}
use long.Json.Meaning.{
  escapes, is_listed, listed, byte_meant, text_meant, IsStandardPiece, place_value, with_sign,
  number_meant, FitsIf, IsStandardNumber, IsFresh, meaning, members_meant, elements_meant,
  IsStandard, AreStandardMembers, AreStandardElements,
}

unescape-listed : (e : ℕ) → is_listed e escapes ≡ true → unescape e ≡ listed e escapes
unescape-listed e h = ground arith

piece_value-byte_meant : (p : Piece) → IsStandardPiece p → piece_value p ≡ byte_meant p
piece_value-byte_meant (plain_piece c) h = refl
piece_value-byte_meant (escaped_piece e) h = unescape-listed e h
piece_value-byte_meant (unicode_piece a b c d) h = absurd h

pieces_value-text_meant :
    (ps : List Piece) → All IsStandardPiece ps → pieces_value ps ≡ text_meant ps
pieces_value-text_meant [] h = refl
pieces_value-text_meant (p ∷ ps) h =
    ap₂ ◌∷◌ (piece_value-byte_meant p h.0) (pieces_value-text_meant ps h.1)

shifted : (n d p v : ℕ) → (n * 10 + d) * p + v ≡ n * (p * 10) + (d * p + v)
shifted n d p v = omega arith

digits-place_value :
    (cs : List ℕ) (n : ℕ) → All IsDigit cs → digits cs n ≡ n * 10 ^ length cs + place_value cs
unfolding digits
digits-place_value [] n h = omega arith
digits-place_value (c ∷ cs) n h =
    digits_step c n cs h.0
    ∙ digits-place_value cs (n * 10 + (c - 48)) h.1
    ∙ shifted n (c - 48) (10 ^ length cs) (place_value cs)
    ∙ ap (λ t. n * t + ((c - 48) * 10 ^ length cs + place_value cs)) (sym (pow-suc 10 (length cs)))

integer-with_sign :
    (b : Bool) (n m : ℕ)
    → n ≡ m
    → IsI64 (with_sign b m)
    → clamp (if b then minus n else pos n) ≡ with_sign b m
integer-with_sign b n m e h =
    ap clamp (ap (λ n. if b then minus n else pos n) e ∙ go b m) ∙ clamp-IsI64 (with_sign b m) h
  where
    go : (b : Bool) (m : ℕ) → (if b then minus m else pos m) ≡ with_sign b m
    go false m = refl
    go true zero = refl
    go true (suc m) = refl

numeral_value-number_meant :
    (n : Numeral) → IsNumeral n → IsStandardNumber n → numeral_value n ≡ number_meant n
numeral_value-number_meant n i h = go (is_whole n) h
  where
    z : ℤ
    z = clamp (if n.negative then minus (digits n.whole 0) else pos (digits n.whole 0))

    go :
        (b : Bool)
        → FitsIf b (with_sign n.negative (place_value n.whole))
        → (if b then int z else double (numeral_text n [])) ≡ (
            if b
            then int (with_sign n.negative (place_value n.whole))
            else double (numeral_text n []))
    go true h = ap int (
        integer-with_sign n.negative (digits n.whole 0) (place_value n.whole)
          (digits-place_value n.whole 0 i.1 ∙ omega arith) h)
    go false h = refl

-- The members before others.
abbrev joined : Fields → Fields → Fields
joined no_fields gs = gs
joined (field k v fs) gs = field k v (joined fs gs)

joined-joined : (fs gs hs : Fields) → joined (joined fs gs) hs ≡ joined fs (joined gs hs)
joined-joined no_fields gs hs = refl
joined-joined (field k v fs) gs hs = ap (field k v) (joined-joined fs gs hs)

abbrev IsAbsent : List ℕ → Fields → Type 0
IsAbsent name no_fields = Unit {0}
IsAbsent name (field k v fs) = (same_text k name ≡ false) × IsAbsent name fs

abbrev AreAbsent : Members → Fields → Type 0
AreAbsent (last_member l d ws) fs = IsAbsent (text_meant l.key) fs
AreAbsent (more_members l d ws ms) fs = IsAbsent (text_meant l.key) fs × AreAbsent ms fs

put-joined :
    (name : List ℕ) (v : Node) (fs : Fields)
    → IsAbsent name fs
    → put name v fs ≡ joined fs (field name v no_fields)
unfolding put
put-joined name v no_fields h = refl
put-joined name v (field k w fs) h = rw (h.0, put) (ap (field k w) (put-joined name v fs h.1))

joined-IsAbsent :
    (name k : List ℕ) (v : Node) (fs : Fields)
    → IsAbsent name fs
    → same_text k name ≡ false
    → IsAbsent name (joined fs (field k v no_fields))
joined-IsAbsent name k v no_fields h e = (e, tt)
joined-IsAbsent name k v (field j w fs) h e = (h.0, joined-IsAbsent name k v fs h.1 e)

joined-AreAbsent :
    (ms : Members) (k : List ℕ) (v : Node) (fs : Fields)
    → AreAbsent ms fs
    → IsFresh k ms
    → AreAbsent ms (joined fs (field k v no_fields))
joined-AreAbsent (last_member l d ws) k v fs h e = joined-IsAbsent (text_meant l.key) k v fs h e
joined-AreAbsent (more_members l d ws ms) k v fs h e =
    (joined-IsAbsent (text_meant l.key) k v fs h.0 e.0, joined-AreAbsent ms k v fs h.1 e.1)

none_absent : (ms : Members) → AreAbsent ms no_fields
none_absent (last_member l d ws) = tt
none_absent (more_members l d ws ms) = (tt, none_absent ms)

mutual
  unfolding doc_value members_value elements_value meaning members_meant elements_meant IsDoc
      AreMembers AreElements IsStandard AreStandardMembers AreStandardElements

  doc_value-meaning : (d : Doc) → IsDoc d → IsStandard d → doc_value d ≡ meaning d
  doc_value-meaning null_doc i h = refl
  doc_value-meaning (bool_doc b) i h = refl
  doc_value-meaning (number_doc n) i h = numeral_value-number_meant n i h
  doc_value-meaning (string_doc ps) i h = ap string (pieces_value-text_meant ps h)
  doc_value-meaning (empty_object ws) i h = refl
  doc_value-meaning (empty_array ws) i h = refl
  doc_value-meaning (object_doc ms) i h =
      ap object (members_value-joined ms no_fields i h (none_absent ms))
  doc_value-meaning (array_doc es) i h = ap array (elements_value-elements_meant es i h)

  members_value-joined :
      (ms : Members) (fs : Fields)
      → AreMembers ms
      → AreStandardMembers ms
      → AreAbsent ms fs
      → members_value ms fs ≡ joined fs (members_meant ms)
  members_value-joined (last_member l d ws) fs i h a =
      ap₂ (λ k v. put k v fs) (pieces_value-text_meant l.key h.0) (doc_value-meaning d i.1 h.1)
      ∙ put-joined (text_meant l.key) (meaning d) fs a
  members_value-joined (more_members l d ws ms) fs i h a =
      ap (members_value ms) (
        ap₂ (λ k v. put k v fs) (pieces_value-text_meant l.key h.0) (doc_value-meaning d i.1 h.1)
        ∙ put-joined (text_meant l.key) (meaning d) fs a.0)
      ∙ members_value-joined ms (joined fs (field (text_meant l.key) (meaning d) no_fields)) i.3 h.3
          (joined-AreAbsent ms (text_meant l.key) (meaning d) fs a.1 h.2)
      ∙ joined-joined fs (field (text_meant l.key) (meaning d) no_fields) (members_meant ms)

  elements_value-elements_meant :
      (es : Elements)
      → AreElements es
      → AreStandardElements es
      → elements_value es ≡ elements_meant es
  elements_value-elements_meant (last_element vs d ws) i h =
      ap (λ v. item v no_items) (doc_value-meaning d i.1 h)
  elements_value-elements_meant (more_elements vs d ws es) i h =
      ap₂ item (doc_value-meaning d i.1 h.0) (elements_value-elements_meant es i.3 h.1)

-- The text of a document is read as what it means: the words, the strings with their escapes put
-- back, the integers by the places of their digits, the other numbers as the text that `atof` gets,
-- and the members of an object and the elements of an array in their order. White space may stand
-- anywhere between; what follows the document, and does not go on with a number, is left. The
-- strings have no escape but those of the quote, the backslash, the slash, the line feed, the
-- carriage return and the tabulator; the integers fit 64 bits, and no two members of an object have
-- the same name.
pub parse-meaning :
    (ws : List ℕ) (d : Doc) (rest : List ℕ)
    → All IsSpace ws
    → IsDoc d
    → IsStandard d
    → Stops rest
    → parse (ws ++ doc_text d rest) ≡ ok (meaning d) rest
parse-meaning ws d rest h i s st =
    parse-doc_text ws d rest h i st ∙ ap (λ v. ok v rest) (doc_value-meaning d i s)
