-- ===== src/Json/Tests.antt =====
-- The JSON parser at concrete texts.
use long.Base.{ℕ, List, ◌≡◌, refl, true, [], ◌∷◌, ◌++◌, none, arith}
use long.Base.Int.{pos, negsuc}
use long.Text.{codes, atoll, leading_int, digits}
use long.Json.{
  Node, at, bool, int, string, object, array, field, no_fields, item, no_items, ok, throws,
  expected, unexpected_char, expected_key, expected_comma_or_bracket, find, put, skip_ws, expect,
  string_loop, parse_string, skip_digits, parse_number, after, parse_bool, parse_null,
}
use long.Json.Parser.{first, next, opened, parse_key, parse_value, members, elements, parse}
use long.Json.Docs.{
  Members, plain_piece, escaped_piece, Doc, number_doc, string_doc, object_doc, array_doc,
  empty_array, last_member, more_members, last_element, more_elements, doc_text, doc_value,
  members_text, elements_text, members_value, elements_value, IsDoc,
}
use long.Json.Bounds.{Below}
use long.Json.Bounds.Ends.{parse-Below}
use long.Json.Meaning.{meaning, IsStandard}
use long.Json.Meaning.Read.{parse-meaning}
use long.Json.Named.{named, value_of, parse-named}

parse_runs :
    parse (codes " {\"a\": [1, -23 ,2.5e1], \"b\" : {}, \"a\":true} x")
    ≡ ok
        (object (field (codes "a") (bool true) (field (codes "b") (object no_fields) no_fields)))
        (codes " x")
unfolding parse parse_value members elements opened next first parse_key parse_null parse_bool after
    parse_number skip_digits parse_string string_loop expect skip_ws put find atoll leading_int
    digits
parse_runs = refl

-- An object and an array that the text does not close, and an escape of a form feed.
parse_open_runs :
    (parse (codes "{\"a\":1,") ≡ ok (object (field (codes "a") (int (pos 1)) no_fields)) [])
    × (parse (codes "[1,") ≡ ok (array (item (int (pos 1)) no_items)) [])
    × (parse (codes "\"\\f\\u0041\"") ≡ ok (string (codes "f?")) [])
    × (parse (codes "{1}") ≡ throws expected_key)
    × (parse (codes " ") ≡ throws unexpected_char)
    × (parse (codes "[1 2]") ≡ throws expected_comma_or_bracket)
    × (parse (codes "{\"a\" 1}") ≡ throws (expected b':'))
unfolding parse parse_value members elements opened next first parse_key parse_null parse_bool after
    parse_number skip_digits parse_string string_loop expect skip_ws put find atoll leading_int
    digits
parse_open_runs = (refl, refl, refl, refl, refl, refl, refl)

-- { "n" : -12 , "s":["x\n", []] }
abbrev array_here : Doc
array_here = array_doc (
    more_elements [] (string_doc (plain_piece b'x' ∷ escaped_piece b'n' ∷ [])) []
      (last_element (codes " ") (empty_array []) []))

abbrev doc_members : Members
doc_members =
    more_members
      (record {
        before = codes " ";
        key = plain_piece b'n' ∷ [];
        between = codes " ";
        behind = codes " ";
      })
      (number_doc
        (record { negative = true; whole = codes "12"; fraction = none; exponent = none }))
      (codes " ")
      (last_member (record { before = []; key = plain_piece b's' ∷ []; between = []; behind = [] })
        array_here (codes " "))

abbrev doc : Doc
doc = object_doc doc_members

doc_text_runs : doc_text doc (codes "!") ≡ codes "{ \"n\" : -12 ,\"s\":[\"x\\n\", []] }!"
unfolding doc_text members_text elements_text
doc_text_runs = refl

doc_value_runs :
    doc_value doc
    ≡ object (
        field (codes "n") (int (negsuc 11)) (
          field
            (codes "s")
            (array (item (string (b'x' ∷ b'\n' ∷ [])) (item (array no_items) no_items)))
            no_fields))
unfolding doc_value members_value elements_value put digits
doc_value_runs = refl

doc-IsDoc : IsDoc doc
unfolding IsDoc
doc-IsDoc = (
  ((refl, tt), ((λ e. omega arith, λ e. omega arith), tt), (refl, tt), (refl, tt)),
  (λ e. absurd cc, (refl, (refl, tt)), tt, tt),
  (refl, tt),
  (
    (tt, ((λ e. omega arith, λ e. omega arith), tt), tt, tt),
    (tt, ((λ e. omega arith, λ e. omega arith), (λ e. omega arith, tt)), tt, ((refl, tt), tt, tt)),
    (refl, tt),
  ),
)

doc-IsStandard : IsStandard doc
unfolding IsStandard
doc-IsStandard = ((tt, tt), omega arith, refl, ((tt, tt), ((tt, (refl, tt)), tt)))

parse-meaning_example :
    parse (codes "\n" ++ doc_text doc (codes "!")) ≡ ok (meaning doc) (codes "!")
parse-meaning_example =
    parse-meaning (codes "\n") doc (codes "!") (refl, tt) doc-IsDoc doc-IsStandard
      (refl, refl, refl)

parse-Below_example : Below 4 (parse (codes "[7]x"))
parse-Below_example = parse-Below (codes "[7]x")

parse-named_example :
    (v : Node) × (parse (codes "\n" ++ doc_text (object_doc doc_members) (codes "!"))
      ≡ ok v (codes "!"))
    × ((key : List ℕ) → at v key ≡ value_of (named doc_members key))
parse-named_example =
    parse-named (codes "\n") doc_members (codes "!") (refl, tt) doc-IsDoc (refl, refl, refl)
