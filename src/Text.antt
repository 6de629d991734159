-- ===== src/Text.antt =====
-- Byte strings, as std::string and the C library have them: tests, numbers and their printing.
pub mod Decimal
pub mod Same
use Prim.Native.Char.{code}
use Prim.Native.String.{String}
use long.Base.{
  ℕ, zero, suc, ◌+◌, ◌-◌, ◌*◌, ◌/◌, ◌%◌, Bool, true, false, ◌&&◌, ◌||◌, List, [], ◌∷◌, ◌++◌,
  if◌then◌else◌, ◌==◌, leb,
}
use long.Base.Int.{ℤ, pos, negsuc, clamp, to_u32, of_u32}

-- The bytes of a literal.
abbrev pub codes : String → List ℕ
codes String.[] = []
codes (String.◌∷◌ c s) = code c ∷ codes s

-- `==` on strings.
abbrev pub same_text : List ℕ → List ℕ → Bool
same_text [] [] = true
same_text [] (y ∷ ys) = false
same_text (x ∷ xs) [] = false
same_text (x ∷ xs) (y ∷ ys) = if x == y then same_text xs ys else false

-- `std::isspace` and `std::isdigit`.
abbrev pub is_space : ℕ → Bool
is_space c = (c == 32) || (leb 9 c && leb c 13)

abbrev pub is_digit : ℕ → Bool
is_digit c = leb 48 c && leb c 57

unfoldable pub digits : List ℕ → ℕ → ℕ
digits [] n = n
digits (c ∷ cs) n = let rest = digits cs (n * 10 + (c - 48)) in if is_digit c then rest else n

abbrev pub minus : ℕ → ℤ
minus zero = pos 0
minus (suc n) = negsuc n

abbrev pub signed : List ℕ → ℤ
signed [] = pos 0
signed (c ∷ cs) =
    if c == b'-'
    then minus (digits cs 0)
    else if c == b'+'
    then pos (digits cs 0)
    else pos (digits (c ∷ cs) 0)

-- The integer at the front of a text, behind its white space.
unfoldable pub leading_int : List ℕ → ℤ
leading_int [] = signed []
leading_int (c ∷ cs) = let rest = leading_int cs in if is_space c then rest else signed (c ∷ cs)

-- `atoll`, as the GNU C library has it: an integer out of range is cut to the nearest `long long`.
unfoldable pub atoll : List ℕ → ℤ
atoll s = clamp (leading_int s)

-- `atoi`, there a cast of the same `long` to `int`.
unfoldable pub atoi : List ℕ → ℤ
atoi s = of_u32 (to_u32 (atoll s))

-- The C string in a std::string: what stands before the first NUL.
unfoldable pub c_str : List ℕ → List ℕ
c_str [] = []
c_str (c ∷ cs) = let rest = c_str cs in if c == 0 then [] else c ∷ rest

-- `%u`: the digits of `n` before `acc`, the last first. Fuel above `n` is enough.
unfoldable pub decimal_loop : ℕ → ℕ → List ℕ → List ℕ
decimal_loop zero n acc = acc
decimal_loop (suc f) n acc = elim (leb 10 n) [
  | true ↦ decimal_loop f (n / 10) ((48 + n % 10) ∷ acc)
  | false ↦ (48 + n) ∷ acc
]

abbrev pub decimal : ℕ → List ℕ
decimal n = decimal_loop (suc n) n []

-- `%d`.
abbrev pub print_int : ℤ → List ℕ
print_int (pos n) = decimal n
print_int (negsuc n) = b'-' ∷ decimal (suc n)
