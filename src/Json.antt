-- ===== src/Json.antt =====
-- include/utils/JsonHelper.h: nodes, strings, numbers and words. The parser's position is the text
-- that is left.
pub mod Parser
pub mod Bounds
pub mod Docs
pub mod Pieces
pub mod Numbers
pub mod Reads
pub mod Named
pub mod Meaning
mod Tests
use long.Base.{
  ℕ, zero, suc, ◌+◌, ◌-◌, ◌*◌, Bool, true, false, ◌||◌, List, [], ◌∷◌, Option, none, some,
  if◌then◌else◌, ◌==◌, length, take, drop,
}
use long.Base.Int.{ℤ}
use long.Text.{codes, same_text, is_space, is_digit, atoll}

-- `JsonNode`: a type with the value that goes with it. A double is the text that `atof` is given.
-- The members of an object are found by their names only, so their order is not the map's.
mutual
  pub data Node : Type 0 where
    null : Node
    bool : Bool → Node
    int : ℤ → Node
    double : List ℕ → Node
    string : List ℕ → Node
    object : Fields → Node
    array : Items → Node

  pub data Fields : Type 0 where
    no_fields : Fields
    field : List ℕ → Node → Fields → Fields

  pub data Items : Type 0 where
    no_items : Items
    item : Node → Items → Items

-- What the parser throws.
pub data Error : Type 0 where
  expected : ℕ → Error
  unexpected_char expected_bool expected_null expected_key expected_comma_or_brace
        expected_comma_or_bracket :
      Error

-- A result with the text that is left, or an exception.
pub data Parsed (A : Type 0) : Type 0 where
  ok : A → List ℕ → Parsed A
  throws : Error → Parsed A
  out_of_fuel : Parsed A

infixl 5 ◌>>=◌
abbrev pub ◌>>=◌ : {A B : Type 0} → Parsed A → (A → List ℕ → Parsed B) → Parsed B
ok a s >>= f = f a s
throws e >>= f = throws e
out_of_fuel >>= f = out_of_fuel

unfoldable pub find : Fields → List ℕ → Option Node
find no_fields key = none
find (field k v more) key = let rest = find more key in if same_text k key then some v else rest

-- `obj_val[key] = v`
unfoldable pub put : List ℕ → Node → Fields → Fields
put key v no_fields = field key v no_fields
put key v (field k w more) =
    let rest = put key v more in if same_text k key then field k v more else field k w rest

-- `operator[]`: a value that is no object has no members.
abbrev pub at : Node → List ℕ → Node
at (object fs) key = elim (find fs key) [ none ↦ null | some v ↦ v ]
at _ key = null

abbrev pub is_null : Node → Bool
is_null null = true
is_null _ = false

abbrev pub is_object : Node → Bool
is_object (object fs) = true
is_object _ = false

abbrev pub string_or : Node → List ℕ → List ℕ
string_or (string s) def = s
string_or _ def = def

-- `to_long` is `static_cast<long long>(std::atof(…))`.
abbrev pub int_or : (List ℕ → ℤ) → Node → ℤ → ℤ
int_or to_long (int z) def = z
int_or to_long (double s) def = to_long s
int_or to_long _ def = def

unfoldable pub skip_ws : List ℕ → List ℕ
skip_ws [] = []
skip_ws (c ∷ cs) = let rest = skip_ws cs in if is_space c then rest else c ∷ cs

abbrev pub peek : List ℕ → ℕ
peek [] = 0
peek (c ∷ cs) = c

-- `expect` of a byte other than NUL.
unfoldable pub expect : ℕ → List ℕ → Parsed Unit
expect c s = let t = skip_ws s in if peek t == c then ok tt (drop 1 t) else throws (expected c)

-- What a byte does to the loop of `parseString`.
pub data Kind : Type 0 where
  closes escapes copies : Kind

abbrev pub kind : ℕ → Kind
kind c = if c == b'"' then closes else if c == b'\\' then escapes else copies

-- The `switch` without its case for `u`.
abbrev pub unescape : ℕ → ℕ
unescape e =
    if e == b'n' then b'\n' else if e == b'r' then b'\r' else if e == b't' then b'\t' else e

-- In the string, behind a backslash, or behind `\u` with `n + 1` bytes to pass over.
pub data Mode : Type 0 where
  plain escaped : Mode
  passing : ℕ → Mode

-- The loop: the string, and the text behind it.
unfoldable pub string_loop : Mode → List ℕ → List ℕ × List ℕ
string_loop plain [] = ([], [])
string_loop plain (c ∷ cs) = elim (kind c) [
  | closes ↦ ([], c ∷ cs)
  | escapes ↦ string_loop escaped cs
  | copies ↦ let (r, rest) = string_loop plain cs in (c ∷ r, rest)
]
string_loop escaped [] = (0 ∷ [], [])
string_loop escaped (e ∷ cs) = elim (e == b'u') [
  | true ↦ string_loop (passing 3) cs
  | false ↦ let (r, rest) = string_loop plain cs in (unescape e ∷ r, rest)
]
string_loop (passing n) [] = (b'?' ∷ [], [])
string_loop (passing zero) (c ∷ cs) = let (r, rest) = string_loop plain cs in (b'?' ∷ r, rest)
string_loop (passing (suc n)) (c ∷ cs) = string_loop (passing n) cs

unfoldable pub parse_string : List ℕ → Parsed (List ℕ)
parse_string s = expect b'"' s >>= λ _ t.
    let (r, rest) = string_loop plain t in expect b'"' rest >>= λ _ u. ok r u

unfoldable pub skip_digits : List ℕ → List ℕ
skip_digits [] = []
skip_digits (c ∷ cs) = let rest = skip_digits cs in if is_digit c then rest else c ∷ cs

abbrev pub skip_one : Bool → List ℕ → List ℕ
skip_one b s = if b then drop 1 s else s

-- Behind the sign and the digits; then behind a fraction, with `flt`; then behind an exponent.
abbrev pub skip_whole : List ℕ → List ℕ
skip_whole s = skip_digits (skip_one (peek s == b'-') s)

abbrev pub skip_fraction : List ℕ → Bool × List ℕ
skip_fraction s = if peek s == b'.' then (true, skip_digits (drop 1 s)) else (false, s)

abbrev pub is_exponent : ℕ → Bool
is_exponent c = (c == b'e') || (c == b'E')

abbrev pub is_sign : ℕ → Bool
is_sign c = (c == b'+') || (c == b'-')

abbrev pub skip_exponent : Bool × List ℕ → Bool × List ℕ
skip_exponent (flt, s) =
    let t = drop 1 s in
    if is_exponent (peek s) then (true, skip_digits (skip_one (is_sign (peek t)) t)) else (flt, s)

abbrev pub number_of : List ℕ → Bool × List ℕ → Parsed Node
number_of s (flt, rest) =
    let num = take (length s - length rest) s in
    ok (if flt then double num else int (atoll num)) rest

unfoldable pub parse_number : List ℕ → Parsed Node
parse_number s = number_of s (skip_exponent (skip_fraction (skip_whole s)))

-- The text behind a word, if the word stands there.
unfoldable pub after : List ℕ → List ℕ → Option (List ℕ)
after [] s = some s
after (w ∷ ws) [] = none
after (w ∷ ws) (c ∷ cs) = let rest = after ws cs in if c == w then rest else none

unfoldable pub parse_bool : List ℕ → Parsed Node
parse_bool s = elim (after (codes "true") s) [
  | some rest ↦ ok (bool true) rest
  | none ↦ elim (after (codes "false") s) [
    | some rest ↦ ok (bool false) rest
    | none ↦ throws expected_bool
  ]
]

unfoldable pub parse_null : List ℕ → Parsed Node
parse_null s = elim (after (codes "null") s) [
  | some rest ↦ ok null rest
  | none ↦ throws expected_null
]
