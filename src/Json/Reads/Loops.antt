-- ===== src/Json/Reads/Loops.antt =====
-- The loops of `parseObject` and `parseArray` in include/utils/JsonHelper.h on their documents.
use long.Base.{ℕ, suc, ◌≡◌, refl, ap, ◌∙◌, List, [], ◌∷◌, ◌++◌, drop}
use long.Json.{
  Node, Fields, Items, no_items, item, Parsed, ok, throws, ◌>>=◌, expected_comma_or_brace,
  expected_comma_or_bracket, skip_ws, peek, put,
}
use long.Json.Parser.{
  Next, goes_on, ends, neither, first, next, parse_key, parse_value, members, elements,
}
use long.Json.Docs.{
  pieces_value, Label, IsLabel, Doc, Members, last_member, more_members, Elements, last_element,
  more_elements, doc_text, members_text, elements_text, doc_value, members_value, elements_value,
  IsDoc, AreMembers, AreElements,
}
use long.Json.Pieces.{skip_ws-cons, parse_string-quoted, expect-cons}
use long.Json.Numbers.{Stops}
use long.Json.Reads.{Reads, bind-Reads}
use long.Json.Reads.Starts.{
  doc_text-Begins, doc_first_some, skip_ws-doc_text, label_start, members_start, elements_start,
  skip_ws-members_text, skip_ws-elements_text, Stops-behind,
}

-- What is shown of each function by induction on its fuel, for a text by what it is behind its
-- first white space.
abbrev pub ReadsValue : ℕ → Type 0
ReadsValue f =
    (d : Doc) (rest s : List ℕ)
    → IsDoc d
    → Stops rest
    → skip_ws s ≡ doc_text d rest
    → Reads (doc_value d) rest (parse_value f s)

abbrev pub ReadsMembers : ℕ → Type 0
ReadsMembers f =
    (ms : Members) (fs : Fields) (rest s : List ℕ)
    → AreMembers ms
    → skip_ws s ≡ members_start ms (b'}' ∷ rest)
    → Reads (members_value ms fs) rest (members f fs s)

abbrev pub ReadsElements : ℕ → Type 0
ReadsElements f =
    (es : Elements) (rest s : List ℕ)
    → AreElements es
    → skip_ws s ≡ elements_start es (b']' ∷ rest)
    → Reads (elements_value es) rest (elements f s)

-- How the loops go on behind a value.
abbrev behind_member : ℕ → Fields → List ℕ → Node → List ℕ → Next → Parsed Fields
behind_member f fs k v w goes_on = members f (put k v fs) (drop 1 w)
behind_member f fs k v w ends = ok (put k v fs) (drop 1 w)
behind_member f fs k v w neither = throws expected_comma_or_brace

abbrev behind_element : ℕ → Node → List ℕ → Next → Parsed Items
behind_element f v w goes_on = elements f (drop 1 w) >>= λ xs r. ok (item v xs) r
behind_element f v w ends = ok (item v no_items) (drop 1 w)
behind_element f v w neither = throws expected_comma_or_bracket

parse_key-label_start :
    (l : Label) (rest s : List ℕ)
    → IsLabel l
    → skip_ws s ≡ label_start l rest
    → parse_key s ≡ ok (pieces_value l.key) (l.behind ++ rest)
unfolding parse_key
parse_key-label_start l rest s h e =
    rw
      (
        e,
        parse_string-quoted l.key (l.between ++ (b':' ∷ (l.behind ++ rest))) h.1,
        expect-cons b':' l.between (l.behind ++ rest) h.2 refl refl,
      )
      refl

-- One turn: a key, a value and what stands behind it.
member_turn :
    (f : ℕ) (fs : Fields) (l : Label) (d : Doc) (u rest s : List ℕ) (q : Fields)
    → ReadsValue f
    → IsLabel l
    → IsDoc d
    → Stops u
    → skip_ws s ≡ label_start l (doc_text d u)
    → Reads q rest (
        behind_member f fs
          (pieces_value l.key)
          (doc_value d)
          (skip_ws u)
          (next b'}' (peek (skip_ws u))))
    → Reads q rest (members (suc f) fs s)
unfolding members next skip_ws
member_turn f fs l d u rest [] q vs h i st e g = absurd cc
member_turn f fs l d u rest (c ∷ cs) q vs h i st e g =
    rw (parse_key-label_start l (doc_text d u) (c ∷ cs) h e) (
      bind-Reads (doc_value d) u q rest (parse_value f (l.behind ++ doc_text d u)) _
        (vs d u (l.behind ++ doc_text d u) i st (skip_ws-doc_text l.behind d u h.3 i))
        (go (next b'}' (peek (skip_ws u))) g))
  where
    go :
        (n : Next)
        → Reads q rest (behind_member f fs (pieces_value l.key) (doc_value d) (skip_ws u) n)
        → Reads q rest (elim n [
          | goes_on ↦ members f (put (pieces_value l.key) (doc_value d) fs) (drop 1 (skip_ws u))
          | ends ↦ ok (put (pieces_value l.key) (doc_value d) fs) (drop 1 (skip_ws u))
          | neither ↦ throws expected_comma_or_brace
        ])
    go goes_on g = g
    go ends g = g
    go neither g = g

pub members_step : (f : ℕ) → ReadsValue f → ReadsMembers f → ReadsMembers (suc f)
unfolding members_value AreMembers next
members_step f vs ms (last_member l d ws) fs rest s h e =
    member_turn f fs l d (ws ++ (b'}' ∷ rest)) rest s _ vs h.0 h.1
      (Stops-behind ws b'}' rest h.2 (refl, refl, refl)) e
      (rw (skip_ws-cons ws b'}' rest h.2 refl) refl)
members_step f vs ms (more_members l d ws more) fs rest s h e =
    let next_text = members_text more (b'}' ∷ rest) in
    member_turn f fs l d (ws ++ (b',' ∷ next_text)) rest s _ vs h.0 h.1
      (Stops-behind ws b',' next_text h.2 (refl, refl, refl)) e
      (rw (skip_ws-cons ws b',' next_text h.2 refl) (
        ms more (put (pieces_value l.key) (doc_value d) fs) rest next_text h.3
          (skip_ws-members_text more (b'}' ∷ rest) h.3)))

element_turn :
    (f : ℕ) (d : Doc) (u rest s : List ℕ) (q : Items)
    → ReadsValue f
    → IsDoc d
    → Stops u
    → skip_ws s ≡ doc_text d u
    → Reads q rest (behind_element f (doc_value d) (skip_ws u) (next b']' (peek (skip_ws u))))
    → Reads q rest (elements (suc f) s)
unfolding elements next skip_ws first
element_turn f d u rest [] q vs i st e g =
    absurd (doc_first_some d (ap (λ t. first (peek t)) e ∙ (doc_text-Begins d u i).kind_is))
element_turn f d u rest (c ∷ cs) q vs i st e g =
    bind-Reads (doc_value d) u q rest (parse_value f (c ∷ cs)) _ (vs d u (c ∷ cs) i st e)
      (go (next b']' (peek (skip_ws u))) g)
  where
    go :
        (n : Next)
        → Reads q rest (behind_element f (doc_value d) (skip_ws u) n)
        → Reads q rest (elim n [
          | goes_on ↦ elements f (drop 1 (skip_ws u)) >>= λ xs r. ok (item (doc_value d) xs) r
          | ends ↦ ok (item (doc_value d) no_items) (drop 1 (skip_ws u))
          | neither ↦ throws expected_comma_or_bracket
        ])
    go goes_on g = g
    go ends g = g
    go neither g = g

pub elements_step : (f : ℕ) → ReadsValue f → ReadsElements f → ReadsElements (suc f)
unfolding elements_value AreElements next
elements_step f vs es (last_element ss d ws) rest s h e =
    element_turn f d (ws ++ (b']' ∷ rest)) rest s _ vs h.1
      (Stops-behind ws b']' rest h.2 (refl, refl, refl)) e
      (rw (skip_ws-cons ws b']' rest h.2 refl) refl)
elements_step f vs es (more_elements ss d ws more) rest s h e =
    let next_text = elements_text more (b']' ∷ rest) in
    element_turn f d (ws ++ (b',' ∷ next_text)) rest s _ vs h.1
      (Stops-behind ws b',' next_text h.2 (refl, refl, refl)) e
      (rw (skip_ws-cons ws b',' next_text h.2 refl) (
        bind-Reads (elements_value more) rest _ rest (elements f next_text) _
          (es more rest next_text h.3 (skip_ws-elements_text more (b']' ∷ rest) h.3)) refl))
