-- ===== src/Json/Bounds/Ends.antt =====
-- The loops of the parser in include/utils/JsonHelper.h, and the fuel they need.
use long.Base.{
  ℕ, zero, suc, ◌+◌, ◌*◌, ◌≤◌, ◌<◌, ◌≡◌, refl, List, [], ◌∷◌, length, drop, length-drop, arith,
}
use long.Json.{
  Node, object, array, Fields, no_fields, no_items, item, Parsed, ok, throws, ◌>>=◌, skip_ws, peek,
  expect, put, parse_string, expected_comma_or_brace, expected_comma_or_bracket,
}
use long.Json.Parser.{
  First, string_first, object_first, array_first, bool_first, null_first, number_first, no_first,
  Next, goes_on, ends, neither, first, next, opened, parse_key, parse_value, members, elements,
  parse,
}
use long.Json.Bounds.{
  Below, Below-weaken, bind-Below, length-skip_ws, expect-Below, parse_string-Below,
}
use long.Json.Bounds.Parts.{
  parse_number-Below, parse_bool-Below, parse_null-Below, opened-Below, parse_key-Below,
}

-- What is shown of each function by induction on its fuel.
abbrev ValueEnds : ℕ → Type 0
ValueEnds f = (s : List ℕ) → 2 * length s < f → Below (length s) (parse_value f s)

abbrev MembersEnd : ℕ → Type 0
MembersEnd f =
    (fs : Fields) (s : List ℕ) → 2 * length s + 1 < f → Below (suc (length s)) (members f fs s)

abbrev ElementsEnd : ℕ → Type 0
ElementsEnd f = (s : List ℕ) → 2 * length s + 1 < f → Below (suc (length s)) (elements f s)

-- A bracket, and what stands between it and the other.
brackets-Below :
    {A : Type 0} (f open_at close n : ℕ) (nothing : A) (loop : List ℕ → Parsed A) (make : A → Node)
    (t : List ℕ)
    → 0 < open_at
    → length t ≤ n
    → 2 * n < suc f
    → ((u : List ℕ) → 2 * length u + 1 < f → Below (suc (length u)) (loop u))
    → Below n (expect open_at t >>= λ _ u. opened close nothing loop u >>= λ a v. ok (make a) v)
brackets-Below f open_at close n nothing loop make t o h g k =
    bind-Below (length t) n (expect open_at t) _ (expect-Below open_at t o) λ _ u p.
      bind-Below (suc (length u)) n (opened close nothing loop u) _
        (opened-Below close (length u) nothing loop u (omega arith) λ w q.
          Below-weaken (suc (length w)) (suc (length u)) (loop w) (omega arith) (k w (omega arith)))
        λ a v q. omega arith

value_step : (f : ℕ) → MembersEnd f → ElementsEnd f → ValueEnds (suc f)
unfolding parse_value
value_step f ms es s h = go (first (peek t)) refl
  where
    t : List ℕ
    t = skip_ws s

    shorter : length t ≤ length s
    shorter = length-skip_ws s

    go : (k : First) → first (peek (skip_ws s)) ≡ k → Below (length s) (parse_value (suc f) s)
    go string_first e =
        rw (e, parse_value)
          (bind-Below (length t) (length s) (parse_string t) _ (parse_string-Below t)
            λ r u p. omega (arith, shorter))
    go object_first e =
        rw (e, parse_value)
          (brackets-Below f b'{' b'}' (length s) no_fields (members f no_fields) object t
            (omega arith) shorter h (ms no_fields))
    go array_first e =
        rw (e, parse_value)
          (brackets-Below f b'[' b']' (length s) no_items (elements f) array t (omega arith) shorter
            h es)
    go bool_first e =
        rw (e, parse_value) (Below-weaken (length t) (length s) _ shorter (parse_bool-Below t))
    go null_first e =
        rw (e, parse_value) (Below-weaken (length t) (length s) _ shorter (parse_null-Below t))
    go number_first e =
        rw (e, parse_value) (Below-weaken (length t) (length s) _ shorter (parse_number-Below t e))
    go no_first e = rw (e, parse_value) tt

members_step : (f : ℕ) → ValueEnds f → MembersEnd f → MembersEnd (suc f)
unfolding members
members_step f vs ms fs [] h = omega arith
members_step f vs ms fs (c ∷ cs) h =
    bind-Below (length (c ∷ cs)) (suc (length (c ∷ cs))) (parse_key (c ∷ cs)) _
      (parse_key-Below (c ∷ cs))
      λ k t p.
        bind-Below (length t) (suc (length (c ∷ cs))) (parse_value f t) _ (vs t (omega arith))
          λ v u q. go k t p v u q (next b'}' (peek (skip_ws u)))
  where
    go :
        (k t : List ℕ)
        → length t < length (c ∷ cs)
        → (v : Node) (u : List ℕ) → length u < length t
        → (n : Next)
        → Below (suc (length (c ∷ cs))) (elim n [
          | goes_on ↦ members f (put k v fs) (drop 1 (skip_ws u))
          | ends ↦ ok (put k v fs) (drop 1 (skip_ws u))
          | neither ↦ throws expected_comma_or_brace
        ])
    go k t p v u q goes_on =
        Below-weaken (suc (length (drop 1 (skip_ws u)))) (suc (length (c ∷ cs))) _
          (omega (arith, length-drop 1 (skip_ws u), length-skip_ws u))
          (ms (put k v fs) (drop 1 (skip_ws u))
            (omega (arith, length-drop 1 (skip_ws u), length-skip_ws u)))
    go k t p v u q ends = omega (arith, length-drop 1 (skip_ws u), length-skip_ws u)
    go k t p v u q neither = tt

elements_step : (f : ℕ) → ValueEnds f → ElementsEnd f → ElementsEnd (suc f)
unfolding elements
elements_step f vs es [] h = omega arith
elements_step f vs es (c ∷ cs) h =
    bind-Below (length (c ∷ cs)) (suc (length (c ∷ cs))) (parse_value f (c ∷ cs)) _
      (vs (c ∷ cs) (omega arith)) λ v u q. go v u q (next b']' (peek (skip_ws u)))
  where
    go :
        (v : Node) (u : List ℕ)
        → length u < length (c ∷ cs)
        → (n : Next)
        → Below (suc (length (c ∷ cs))) (elim n [
          | goes_on ↦ elements f (drop 1 (skip_ws u)) >>= λ xs r. ok (item v xs) r
          | ends ↦ ok (item v no_items) (drop 1 (skip_ws u))
          | neither ↦ throws expected_comma_or_bracket
        ])
    go v u q goes_on =
        bind-Below (suc (length (drop 1 (skip_ws u)))) (suc (length (c ∷ cs))) _ _
          (es (drop 1 (skip_ws u)) (omega (arith, length-drop 1 (skip_ws u), length-skip_ws u)))
          λ xs r p. omega (arith, length-drop 1 (skip_ws u), length-skip_ws u)
    go v u q ends = omega (arith, length-drop 1 (skip_ws u), length-skip_ws u)
    go v u q neither = tt

all_ends : (f : ℕ) → ValueEnds f × MembersEnd f × ElementsEnd f
all_ends zero =
    (λ s h. absurd (omega arith), λ fs s h. absurd (omega arith), λ s h. absurd (omega arith))
all_ends (suc f) =
    let (vs, ms, es) = all_ends f in
    (value_step f ms es, members_step f vs ms, elements_step f vs es)

-- The parser comes to an end on every text, with a value before what is left or with an exception,
-- and what is left is shorter than the text.
pub parse-Below : (s : List ℕ) → Below (length s) (parse s)
unfolding parse
parse-Below s =
    Below-weaken (length (skip_ws s)) (length s) _ (length-skip_ws s)
      ((all_ends (suc (2 * length (skip_ws s)))).0 (skip_ws s) (omega arith))
