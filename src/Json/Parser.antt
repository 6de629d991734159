-- ===== src/Json/Parser.antt =====
-- include/utils/JsonHelper.h: `parseValue` with its loops, and `parse`.
use long.Base.{ℕ, zero, suc, ◌*◌, ◌||◌, List, [], ◌∷◌, if◌then◌else◌, ◌==◌, length, drop}
use long.Text.{is_digit}
use long.Json.{
  Node, string, object, array, Fields, no_fields, Items, no_items, item, Parsed, ok, throws,
  out_of_fuel, ◌>>=◌, unexpected_char, expected_key, expected_comma_or_brace,
  expected_comma_or_bracket, put, skip_ws, peek, expect, parse_string, parse_number, parse_bool,
  parse_null,
}

-- What a byte begins.
pub data First : Type 0 where
  string_first object_first array_first bool_first null_first number_first no_first : First

unfoldable pub first : ℕ → First
first c =
    if c == b'"'
    then string_first
    else if c == b'{'
    then object_first
    else if c == b'['
    then array_first
    else if (c == b't') || (c == b'f')
    then bool_first
    else if c == b'n'
    then null_first
    else if (c == b'-') || is_digit c
    then number_first
    else no_first

-- How a loop goes on behind a value.
pub data Next : Type 0 where
  goes_on ends neither : Next

unfoldable pub next : ℕ → ℕ → Next
next close c = if c == b',' then goes_on else if c == close then ends else neither

-- Behind `{` or `[`: nothing, or what the loop reads.
unfoldable pub opened : {A : Type 0} → ℕ → A → (List ℕ → Parsed A) → List ℕ → Parsed A
opened close nothing loop s =
    let t = skip_ws s in if peek t == close then ok nothing (drop 1 t) else loop t

-- A key with its colon.
unfoldable pub parse_key : List ℕ → Parsed (List ℕ)
parse_key s =
    let t = skip_ws s in
    if peek t == b'"'
    then (parse_string t >>= λ k u. expect b':' u >>= λ _ v. ok k v)
    else throws expected_key

-- The loops end at the end of the text.
unfoldable mutual
  pub parse_value : ℕ → List ℕ → Parsed Node
  parse_value zero s = out_of_fuel
  parse_value (suc f) s =
      let t = skip_ws s in
      elim (first (peek t)) [
        | string_first ↦ parse_string t >>= λ r u. ok (string r) u
        | object_first ↦ expect b'{' t >>= λ _ u.
            opened b'}' no_fields (members f no_fields) u >>= λ fs v. ok (object fs) v
        | array_first ↦
            expect b'[' t >>= λ _ u. opened b']' no_items (elements f) u >>= λ xs v. ok (array xs) v
        | bool_first ↦ parse_bool t
        | null_first ↦ parse_null t
        | number_first ↦ parse_number t
        | no_first ↦ throws unexpected_char
      ]

  -- The loop of `parseObject`, by the members read so far.
  pub members : ℕ → Fields → List ℕ → Parsed Fields
  members zero fs s = out_of_fuel
  members (suc f) fs [] = ok fs []
  members (suc f) fs (c ∷ cs) = parse_key (c ∷ cs) >>= λ k t. parse_value f t >>= λ v u.
      let w = skip_ws u in
      elim (next b'}' (peek w)) [
        | goes_on ↦ members f (put k v fs) (drop 1 w)
        | ends ↦ ok (put k v fs) (drop 1 w)
        | neither ↦ throws expected_comma_or_brace
      ]

  -- The loop of `parseArray`.
  pub elements : ℕ → List ℕ → Parsed Items
  elements zero s = out_of_fuel
  elements (suc f) [] = ok no_items []
  elements (suc f) (c ∷ cs) = parse_value f (c ∷ cs) >>= λ v u.
      let w = skip_ws u in
      elim (next b']' (peek w)) [
        | goes_on ↦ elements f (drop 1 w) >>= λ xs r. ok (item v xs) r
        | ends ↦ ok (item v no_items) (drop 1 w)
        | neither ↦ throws expected_comma_or_bracket
      ]

-- Fuel for a text: each value and each turn of a loop takes one, and a text of `n` bytes has no
-- more than `2 * n + 1` of them inside one another.
abbrev pub fuel_for : List ℕ → ℕ
fuel_for s = suc (2 * length s)

-- `parse`: the exception is caught, and what stands behind the value is not looked at.
unfoldable pub parse : List ℕ → Parsed Node
parse s = let t = skip_ws s in parse_value (fuel_for t) t
