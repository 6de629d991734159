-- ===== src/Json/Named.antt =====
-- The members of an object in include/utils/JsonHelper.h by their names.
use long.Base.{
  ℕ, ◌≡◌, refl, ap, ◌∙◌, Bool, true, false, Bool-cases, inl, inr, List, ◌++◌, Option, none, some,
  if◌then◌else◌, All,
}
use long.Text.{same_text}
use long.Text.Same.{same_text-eq, same_text-other}
use long.Json.{Node, null, object, Fields, no_fields, field, ok, find, put, at}
use long.Json.Parser.{parse}
use long.Json.Docs.{
  IsSpace, pieces_value, Doc, object_doc, Members, last_member, more_members, doc_text, doc_value,
  members_value, IsDoc,
}
use long.Json.Numbers.{Stops}
use long.Json.Reads.Whole.{parse-doc_text}

-- The last member of this name.
abbrev pub named : Members → List ℕ → Option Doc
named (last_member l d ws) key = if same_text (pieces_value l.key) key then some d else none
named (more_members l d ws ms) key = elim (named ms key) [
  | some e ↦ some e
  | none ↦ if same_text (pieces_value l.key) key then some d else none
]

abbrev pub value_of : Option Doc → Node
value_of none = null
value_of (some d) = doc_value d

find-put :
    (k key : List ℕ) (v : Node) (fs : Fields)
    → find (put k v fs) key ≡ (if same_text k key then some v else find fs key)
unfolding find put
find-put k key v no_fields = refl
find-put k key v (field j w more) = elim (Bool-cases (same_text j k)) [
  | inl t ↦ rw (t, put) (rw (same_text-eq j k t) (both (same_text k key)))
  | inr t ↦ elim (Bool-cases (same_text j key)) [
    | inl u ↦ rw (t, u, same_text-other j k key t u, put, find) refl
    | inr u ↦ rw (t, u, find-put k key v more, put, find) refl
  ]
]
  where
    both :
        (b : Bool)
        → (if b then some v else find more key)
          ≡ (if b then some v else if b then some w else find more key)
    both true = refl
    both false = refl

-- What the object says of a name, over what stood there before.
abbrev over : Option Doc → Option Node → Option Node
over none o = o
over (some d) o = some (doc_value d)

find-members_value :
    (ms : Members) (fs : Fields) (key : List ℕ)
    → find (members_value ms fs) key ≡ over (named ms key) (find fs key)
unfolding members_value
find-members_value (last_member l d ws) fs key =
    find-put (pieces_value l.key) key (doc_value d) fs ∙ go (same_text (pieces_value l.key) key)
  where
    go :
        (b : Bool)
        → (if b then some (doc_value d) else find fs key)
          ≡ over (if b then some d else none) (find fs key)
    go true = refl
    go false = refl
find-members_value (more_members l d ws ms) fs key =
    find-members_value ms (put (pieces_value l.key) (doc_value d) fs) key
    ∙ ap (over (named ms key)) (find-put (pieces_value l.key) key (doc_value d) fs)
    ∙ go (named ms key) (same_text (pieces_value l.key) key)
  where
    go :
        (o : Option Doc) (b : Bool)
        → over o (if b then some (doc_value d) else find fs key)
          ≡ over (elim o [ some e ↦ some e | none ↦ if b then some d else none ]) (find fs key)
    go (some e) b = refl
    go none true = refl
    go none false = refl

at-object :
    (fs : Fields) (key : List ℕ) (o : Option Doc)
    → find fs key ≡ over o none
    → at (object fs) key ≡ value_of o
at-object fs key none e = rw (e, at) refl
at-object fs key (some d) e = rw (e, at) refl

-- An object is read as a map: whatever its members and the white space between them, each name leads
-- to the value of the last member of that name, and a name that no member has leads to null. The
-- text behind the object is left; it does not go on with a number.
pub parse-named :
    (ws : List ℕ) (ms : Members) (rest : List ℕ)
    → All IsSpace ws
    → IsDoc (object_doc ms)
    → Stops rest
    → (v : Node) × (parse (ws ++ doc_text (object_doc ms) rest) ≡ ok v rest)
      × ((key : List ℕ) → at v key ≡ value_of (named ms key))
unfolding doc_value find
parse-named ws ms rest h i st = (
  doc_value (object_doc ms),
  parse-doc_text ws (object_doc ms) rest h i st,
  λ key.
      at-object (members_value ms no_fields) key (named ms key)
        (find-members_value ms no_fields key),
)
