-- ===== src/Json/Reads/Whole.antt =====
-- `parse` of include/utils/JsonHelper.h on a document.
use long.Base.{
  ℕ, zero, suc, ◌≡◌, refl, sym, subst, true, false, List, [], ◌∷◌, ◌++◌, ◌==◌, length, All,
}
use long.Text.{is_space}
use long.Json.{
  Node, string, object, array, no_fields, no_items, Parsed, ok, throws, out_of_fuel, ◌>>=◌,
  unexpected_char, skip_ws, peek, expect, after, parse_string, parse_bool, parse_null, parse_number,
}
use long.Json.Parser.{
  First, string_first, object_first, array_first, bool_first, null_first, number_first, no_first,
  fuel_for, first, opened, parse_value, members, elements, parse,
}
use long.Json.Docs.{
  IsSpace, AreMembers, AreElements, Members, last_member, more_members, Elements, numeral_value,
  numeral_text, Doc, null_doc, bool_doc, number_doc, string_doc, empty_object, empty_array,
  object_doc, array_doc, members_text, elements_text, members_value, elements_value, doc_text,
  doc_value, IsDoc,
}
use long.Json.Bounds.{Below}
use long.Json.Bounds.Ends.{parse-Below}
use long.Json.Pieces.{skip_ws-cons, skip_ws-append, parse_string-quoted, expect-cons}
use long.Json.Numbers.{Stops, parse_number-numeral_text}
use long.Json.Reads.{Reads, Reads-exact, bind-Reads}
use long.Json.Reads.Starts.{
  doc_text-Begins, skip_ws-doc_text, skip_ws-members_text, skip_ws-elements_text,
  elements_start-Begins, elements_start,
}
use long.Json.Reads.Loops.{ReadsValue, ReadsMembers, ReadsElements, members_step, elements_step}

-- `parseValue` behind its white space.
abbrev value_at : ℕ → List ℕ → First → Parsed Node
value_at f t string_first = parse_string t >>= λ r u. ok (string r) u
value_at f t object_first = expect b'{' t >>= λ _ u.
    opened b'}' no_fields (members f no_fields) u >>= λ fs v. ok (object fs) v
value_at f t array_first =
    expect b'[' t >>= λ _ u. opened b']' no_items (elements f) u >>= λ xs v. ok (array xs) v
value_at f t bool_first = parse_bool t
value_at f t null_first = parse_null t
value_at f t number_first = parse_number t
value_at f t no_first = throws unexpected_char

parse_value_at :
    (f : ℕ) (s : List ℕ) → parse_value (suc f) s ≡ value_at f (skip_ws s) (first (peek (skip_ws s)))
unfolding parse_value
parse_value_at f s = go (first (peek (skip_ws s))) refl
  where
    go :
        (k : First)
        → first (peek (skip_ws s)) ≡ k
        → parse_value (suc f) s ≡ value_at f (skip_ws s) k
    go string_first e = rw (e, parse_value) refl
    go object_first e = rw (e, parse_value) refl
    go array_first e = rw (e, parse_value) refl
    go bool_first e = rw (e, parse_value) refl
    go null_first e = rw (e, parse_value) refl
    go number_first e = rw (e, parse_value) refl
    go no_first e = rw (e, parse_value) refl

-- What the loop of an object, and that of an array, begins with is not the closing bracket.
opened_members :
    (f : ℕ) (ms : Members) (rest : List ℕ)
    → ReadsMembers f
    → AreMembers ms
    → Reads
        (members_value ms no_fields)
        rest
        (opened b'}' no_fields (members f no_fields) (members_text ms (b'}' ∷ rest)))
unfolding opened skip_ws
opened_members f (last_member l d ws) rest h i =
    rw (skip_ws-members_text (last_member l d ws) (b'}' ∷ rest) i, opened)
      (h (last_member l d ws) no_fields rest _ i refl)
opened_members f (more_members l d ws ms) rest h i =
    rw (skip_ws-members_text (more_members l d ws ms) (b'}' ∷ rest) i, opened)
      (h (more_members l d ws ms) no_fields rest _ i refl)

opened_elements :
    (f : ℕ) (es : Elements) (rest : List ℕ)
    → ReadsElements f
    → AreElements es
    → Reads
        (elements_value es)
        rest
        (opened b']' no_items (elements f) (elements_text es (b']' ∷ rest)))
unfolding opened
opened_elements f es rest h i =
    let start = elements_start es (b']' ∷ rest) in
    let b = elements_start-Begins es (b']' ∷ rest) i in
    rw (skip_ws-elements_text es (b']' ∷ rest) i, b.1, opened)
      (h es rest start i (skip_ws-append [] start tt b.0))

opened_empty :
    {A : Type 0} (close : ℕ) (nothing : A) (loop : List ℕ → Parsed A) (ws rest : List ℕ)
    → All IsSpace ws
    → is_space close ≡ false
    → (close == close) ≡ true
    → opened close nothing loop (ws ++ (close ∷ rest)) ≡ ok nothing rest
unfolding opened
opened_empty close nothing loop ws rest h e g = rw (skip_ws-cons ws close rest h e, g, opened) refl

value_at-Reads :
    (f : ℕ) (d : Doc) (rest : List ℕ)
    → ReadsMembers f
    → ReadsElements f
    → IsDoc d
    → Stops rest
    → Reads (doc_value d) rest (value_at f (doc_text d rest) (first (peek (doc_text d rest))))
unfolding doc_text doc_value IsDoc first parse_bool parse_null after
value_at-Reads f null_doc rest ms es i st = refl
value_at-Reads f (bool_doc true) rest ms es i st = refl
value_at-Reads f (bool_doc false) rest ms es i st = refl
value_at-Reads f (number_doc n) rest ms es i st =
    subst (λ k. Reads (numeral_value n) rest (value_at f (numeral_text n rest) k))
      (sym (doc_text-Begins (number_doc n) rest i).kind_is)
      (Reads-exact _ rest _ (parse_number-numeral_text n rest i st))
value_at-Reads f (string_doc ps) rest ms es i st = rw (parse_string-quoted ps rest i) refl
value_at-Reads f (empty_object ws) rest ms es i st =
    rw
      (
        expect-cons b'{' [] (ws ++ (b'}' ∷ rest)) tt refl refl,
        opened_empty b'}' no_fields (members f no_fields) ws rest i refl refl,
      )
      refl
value_at-Reads f (empty_array ws) rest ms es i st =
    rw
      (
        expect-cons b'[' [] (ws ++ (b']' ∷ rest)) tt refl refl,
        opened_empty b']' no_items (elements f) ws rest i refl refl,
      )
      refl
value_at-Reads f (object_doc m) rest ms es i st =
    rw (expect-cons b'{' [] (members_text m (b'}' ∷ rest)) tt refl refl)
      (bind-Reads (members_value m no_fields) rest _ rest _ _ (opened_members f m rest ms i) refl)
value_at-Reads f (array_doc e) rest ms es i st =
    rw (expect-cons b'[' [] (elements_text e (b']' ∷ rest)) tt refl refl)
      (bind-Reads (elements_value e) rest _ rest _ _ (opened_elements f e rest es i) refl)

value_step : (f : ℕ) → ReadsMembers f → ReadsElements f → ReadsValue (suc f)
value_step f ms es d rest s i st e = subst (Reads (doc_value d) rest) (sym (parse_value_at f s)) (
    subst (λ t. Reads (doc_value d) rest (value_at f t (first (peek t)))) (sym e)
      (value_at-Reads f d rest ms es i st))

all_read : (f : ℕ) → ReadsValue f × ReadsMembers f × ReadsElements f
unfolding parse_value members elements
all_read zero = (λ d rest s i st e. tt, λ ms fs rest s i e. tt, λ es rest s i e. tt)
all_read (suc f) =
    let (vs, ms, es) = all_read f in
    (value_step f ms es, members_step f vs ms, elements_step f vs es)

parse-Reads :
    (ws : List ℕ) (d : Doc) (rest : List ℕ)
    → All IsSpace ws
    → IsDoc d
    → Stops rest
    → Reads (doc_value d) rest (parse (ws ++ doc_text d rest))
unfolding parse
parse-Reads ws d rest h i st =
    rw (skip_ws-doc_text ws d rest h i, parse)
      ((all_read (fuel_for (doc_text d rest))).0 d rest (doc_text d rest) i st
        (skip_ws-doc_text [] d rest tt i))

ends_reading :
    {A : Type 0} (a : A) (rest : List ℕ) (n : ℕ) (p : Parsed A)
    → Below n p
    → Reads a rest p
    → p ≡ ok a rest
ends_reading a rest n (ok b s) h g = g
ends_reading a rest n (throws e) h g = g
ends_reading a rest n out_of_fuel h g = elim h [ ]

-- The text of a document, behind any white space and before any text that does not go on with a
-- number, is read as the value of the document, and what follows it is left.
pub parse-doc_text :
    (ws : List ℕ) (d : Doc) (rest : List ℕ)
    → All IsSpace ws
    → IsDoc d
    → Stops rest
    → parse (ws ++ doc_text d rest) ≡ ok (doc_value d) rest
parse-doc_text ws d rest h i st =
    ends_reading (doc_value d) rest (length (ws ++ doc_text d rest)) _
      (parse-Below (ws ++ doc_text d rest)) (parse-Reads ws d rest h i st)
