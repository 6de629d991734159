-- ===== src/Json/Pieces.antt =====
-- White space and strings in include/utils/JsonHelper.h.
use long.Base.{
  ℕ, ◌≡◌, ◌≢◌, refl, true, false, Bool-cases, inl, inr, List, [], ◌∷◌, ◌++◌, ◌==◌, ==→eq, All,
}
use long.Text.{is_space}
use long.Json.{ok, skip_ws, peek, expect, kind, copies, plain, string_loop, parse_string}
use long.Json.Parser.{parse_key}
use long.Json.Docs.{
  IsSpace, Piece, plain_piece, escaped_piece, unicode_piece, IsPiece, pieces_text, pieces_value,
  quoted, Label, label_text, IsLabel,
}

pub skip_ws-append :
    (ws s : List ℕ) → All IsSpace ws → is_space (peek s) ≡ false → skip_ws (ws ++ s) ≡ s
unfolding skip_ws
skip_ws-append [] [] h e = refl
skip_ws-append [] (c ∷ s) h e = rw e refl
skip_ws-append (w ∷ ws) s h e = rw (h.0, skip_ws) (skip_ws-append ws s h.1 e)

-- White space before a byte that is none.
pub skip_ws-cons :
    (ws : List ℕ) (c : ℕ) (s : List ℕ)
    → All IsSpace ws
    → is_space c ≡ false
    → skip_ws (ws ++ (c ∷ s)) ≡ c ∷ s
skip_ws-cons ws c s h e = skip_ws-append ws (c ∷ s) h e

pub expect-cons :
    (c : ℕ) (ws s : List ℕ)
    → All IsSpace ws
    → is_space c ≡ false
    → (c == c) ≡ true
    → expect c (ws ++ (c ∷ s)) ≡ ok tt s
unfolding expect
expect-cons c ws s h e g = rw (skip_ws-cons ws c s h e, g) refl

kind_copies : (c : ℕ) → c ≢ b'"' → c ≢ b'\\' → kind c ≡ copies
kind_copies c p q = elim (Bool-cases (c == b'"')) [
  | inl t ↦ absurd (p (==→eq c b'"' t))
  | inr t ↦ elim (Bool-cases (c == b'\\')) [
    | inl u ↦ absurd (q (==→eq c b'\\' u))
    | inr u ↦ rw (t, u) refl
  ]
]

not_u : (e : ℕ) → e ≢ b'u' → (e == b'u') ≡ false
not_u e p = elim (Bool-cases (e == b'u')) [ inl t ↦ absurd (p (==→eq e b'u' t)) | inr t ↦ t ]

pub string_loop-pieces_text :
    (ps : List Piece) (rest : List ℕ)
    → All IsPiece ps
    → string_loop plain (pieces_text ps (b'"' ∷ rest)) ≡ (pieces_value ps, b'"' ∷ rest)
unfolding string_loop
string_loop-pieces_text [] rest h = refl
string_loop-pieces_text (plain_piece c ∷ ps) rest h =
    rw (kind_copies c h.0.0 h.0.1, string_loop-pieces_text ps rest h.1, string_loop) refl
string_loop-pieces_text (escaped_piece e ∷ ps) rest h =
    rw (not_u e h.0, string_loop-pieces_text ps rest h.1, string_loop) refl
string_loop-pieces_text (unicode_piece a b c d ∷ ps) rest h =
    rw (string_loop-pieces_text ps rest h.1, string_loop) refl

pub parse_string-quoted :
    (ps : List Piece) (rest : List ℕ)
    → All IsPiece ps
    → parse_string (quoted ps rest) ≡ ok (pieces_value ps) rest
unfolding parse_string
parse_string-quoted ps rest h =
    rw
      (
        expect-cons b'"' [] (pieces_text ps (b'"' ∷ rest)) tt refl refl,
        string_loop-pieces_text ps rest h,
        expect-cons b'"' [] rest tt refl refl,
      )
      refl

pub parse_key-label_text :
    (l : Label) (rest : List ℕ)
    → IsLabel l
    → parse_key (label_text l rest) ≡ ok (pieces_value l.key) (l.behind ++ rest)
unfolding parse_key
parse_key-label_text l rest h =
    let after_key = l.between ++ (b':' ∷ (l.behind ++ rest)) in
    rw
      (
        skip_ws-cons l.before b'"' (pieces_text l.key (b'"' ∷ after_key)) h.0 refl,
        parse_string-quoted l.key after_key h.1,
        expect-cons b':' l.between (l.behind ++ rest) h.2 refl refl,
      )
      refl
