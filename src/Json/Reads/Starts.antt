-- ===== src/Json/Reads/Starts.antt =====
-- The first bytes of documents, and what include/utils/JsonHelper.h makes of them.
use long.Base.{ℕ, ◌≡◌, ◌≢◌, refl, Bool, true, false, List, [], ◌∷◌, ◌++◌, ◌==◌, All, arith}
use long.Text.{is_space}
use long.Text.Decimal.{IsDigit, IsDigit-no_space}
use long.Json.{skip_ws, peek}
use long.Json.Parser.{
  First, string_first, object_first, array_first, bool_first, null_first, number_first, no_first,
  first,
}
use long.Json.Docs.{
  IsSpace, whole_text, Label, quoted, Doc, null_doc, bool_doc, number_doc, string_doc, empty_object,
  empty_array, object_doc, array_doc, Members, last_member, more_members, Elements, last_element,
  more_elements, doc_text, members_text, elements_text, IsDoc, AreMembers, AreElements,
}
use long.Json.Pieces.{skip_ws-append, skip_ws-cons}
use long.Json.Numbers.{Stops}

abbrev pub doc_first : Doc → First
doc_first null_doc = null_first
doc_first (bool_doc b) = bool_first
doc_first (number_doc n) = number_first
doc_first (string_doc ps) = string_first
doc_first (empty_object ws) = object_first
doc_first (empty_array ws) = array_first
doc_first (object_doc ms) = object_first
doc_first (array_doc es) = array_first

-- The byte begins this kind of value; it is no white space, and does not close an array.
pub record Begins (c : ℕ) (k : First) : Type 0 where
  pub kind_is : first c ≡ k
  pub no_space : is_space c ≡ false
  pub no_bracket : (c == b']') ≡ false

digit-Begins : (c : ℕ) → IsDigit c → Begins c number_first
unfolding first
digit-Begins c h = record {
  kind_is = ground arith;
  no_space = IsDigit-no_space c h;
  no_bracket = ground arith;
}

whole_text-Begins :
    (b : Bool) (ds rest : List ℕ)
    → ds ≢ []
    → All IsDigit ds
    → Begins (peek (whole_text b ds rest)) number_first
unfolding first
whole_text-Begins true ds rest n h = record { kind_is = refl; no_space = refl; no_bracket = refl }
whole_text-Begins false [] rest n h = absurd (n refl)
whole_text-Begins false (d ∷ ds) rest n h = digit-Begins d h.0

pub doc_text-Begins :
    (d : Doc) (rest : List ℕ) → IsDoc d → Begins (peek (doc_text d rest)) (doc_first d)
unfolding first doc_text IsDoc
doc_text-Begins (bool_doc true) rest i = record {
  kind_is = refl;
  no_space = refl;
  no_bracket = refl;
}
doc_text-Begins (bool_doc false) rest i = record {
  kind_is = refl;
  no_space = refl;
  no_bracket = refl;
}
doc_text-Begins (number_doc n) rest i = whole_text-Begins n.negative n.whole _ i.0 i.1
doc_text-Begins null_doc rest i = record { kind_is = refl; no_space = refl; no_bracket = refl }
doc_text-Begins (string_doc ps) rest i = record {
  kind_is = refl;
  no_space = refl;
  no_bracket = refl;
}
doc_text-Begins (empty_object ws) rest i = record {
  kind_is = refl;
  no_space = refl;
  no_bracket = refl;
}
doc_text-Begins (empty_array ws) rest i = record {
  kind_is = refl;
  no_space = refl;
  no_bracket = refl;
}
doc_text-Begins (object_doc ms) rest i = record {
  kind_is = refl;
  no_space = refl;
  no_bracket = refl;
}
doc_text-Begins (array_doc es) rest i = record {
  kind_is = refl;
  no_space = refl;
  no_bracket = refl;
}

pub doc_first_some : (d : Doc) → no_first ≢ doc_first d
doc_first_some null_doc e = cc
doc_first_some (bool_doc b) e = cc
doc_first_some (number_doc n) e = cc
doc_first_some (string_doc ps) e = cc
doc_first_some (empty_object ws) e = cc
doc_first_some (empty_array ws) e = cc
doc_first_some (object_doc ms) e = cc
doc_first_some (array_doc es) e = cc

pub skip_ws-doc_text :
    (ws : List ℕ) (d : Doc) (rest : List ℕ)
    → All IsSpace ws
    → IsDoc d
    → skip_ws (ws ++ doc_text d rest) ≡ doc_text d rest
skip_ws-doc_text ws d rest h i =
    skip_ws-append ws (doc_text d rest) h (doc_text-Begins d rest i).no_space

-- Members and elements behind the first white space.
abbrev pub label_start : Label → List ℕ → List ℕ
label_start l rest = quoted l.key (l.between ++ (b':' ∷ (l.behind ++ rest)))

abbrev pub members_start : Members → List ℕ → List ℕ
members_start (last_member l d ws) rest = label_start l (doc_text d (ws ++ rest))
members_start (more_members l d ws ms) rest =
    label_start l (doc_text d (ws ++ (b',' ∷ members_text ms rest)))

abbrev pub elements_start : Elements → List ℕ → List ℕ
elements_start (last_element vs d ws) rest = doc_text d (ws ++ rest)
elements_start (more_elements vs d ws es) rest = doc_text d (ws ++ (b',' ∷ elements_text es rest))

pub skip_ws-members_text :
    (ms : Members) (rest : List ℕ)
    → AreMembers ms
    → skip_ws (members_text ms rest) ≡ members_start ms rest
unfolding members_text AreMembers
skip_ws-members_text (last_member l d ws) rest h = skip_ws-cons l.before b'"' _ h.0.0 refl
skip_ws-members_text (more_members l d ws ms) rest h = skip_ws-cons l.before b'"' _ h.0.0 refl

pub skip_ws-elements_text :
    (es : Elements) (rest : List ℕ)
    → AreElements es
    → skip_ws (elements_text es rest) ≡ elements_start es rest
unfolding elements_text AreElements
skip_ws-elements_text (last_element vs d ws) rest h = skip_ws-doc_text vs d (ws ++ rest) h.0 h.1
skip_ws-elements_text (more_elements vs d ws es) rest h =
    skip_ws-doc_text vs d (ws ++ (b',' ∷ elements_text es rest)) h.0 h.1

pub elements_start-Begins :
    (es : Elements) (rest : List ℕ)
    → AreElements es
    → (is_space (peek (elements_start es rest)) ≡ false)
      × ((peek (elements_start es rest) == b']') ≡ false)
unfolding AreElements
elements_start-Begins (last_element vs d ws) rest h =
    let b = doc_text-Begins d (ws ++ rest) h.1 in (b.no_space, b.no_bracket)
elements_start-Begins (more_elements vs d ws es) rest h =
    let b = doc_text-Begins d (ws ++ (b',' ∷ elements_text es rest)) h.1 in
    (b.no_space, b.no_bracket)

space-Stops : (c : ℕ) → is_space c ≡ true → Stops (c ∷ [])
space-Stops c h = (ground arith, ground arith, ground arith)

-- White space, and a byte that stops a number.
pub Stops-behind :
    (ws : List ℕ) (c : ℕ) (s : List ℕ) → All IsSpace ws → Stops (c ∷ []) → Stops (ws ++ (c ∷ s))
Stops-behind [] c s h st = st
Stops-behind (w ∷ ws) c s h st = space-Stops w h.0
