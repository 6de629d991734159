-- ===== src/Base/Chunks.antt =====
-- Scanners of a stream that keep what they cannot use yet: the reads of a connection and the scans
-- between them.
use Prim.Native.Nat.{ℕ}
use mathlib.Core.Path.{◌≡◌, refl, sym, ap, ◌∙◌}
use mathlib.Core.Option.{Option, none, some}
use mathlib.Core.List.{List, [], ◌∷◌, ◌++◌, append_assoc, append-nil, flatten}

infixl 5 ◌>>=◌
abbrev pub ◌>>=◌ {ℓ κ} : {A : Type ℓ} {B : Type κ} → Option A → (A → Option B) → Option B
none >>= k = none
some a >>= k = k a

>>=-assoc {ℓ κ μ} :
    {A : Type ℓ} {B : Type κ} {C : Type μ} (o : Option A) (j : A → Option B) (k : B → Option C)
    → ((o >>= j) >>= k) ≡ (o >>= λ a. j a >>= k)
>>=-assoc none j k = refl
>>=-assoc (some a) j k = refl

>>=-some {ℓ} : {A : Type ℓ} (o : Option A) → (o >>= some) ≡ o
>>=-some none = refl
>>=-some (some a) = refl

-- A scanner takes a buffer and the items found so far, and returns what it keeps and all items.
abbrev pub Scanner : Type 0 → Type 0
Scanner S = List ℕ → S → Option (List ℕ × S)

-- What a scanner promises to the reading code: it can stop anywhere and go on later.
pub record IsIncremental {S : Type 0} (scan : Scanner S) : Type 0 where
  pub on_empty : (out : S) → scan [] out ≡ some ([], out)
  pub on_append :
      (a b : List ℕ) (out : S)
      → scan (a ++ b) out ≡ (scan a out >>= λ (rest, out'). scan (rest ++ b) out')

module _ {S : Type 0} (scan : Scanner S) where
  -- The scans of a connection that reads `chunks` one after the other, from the buffer `kept` on.
  unfoldable pub scan_chunks : List (List ℕ) → List ℕ → S → Option (List ℕ × S)
  scan_chunks [] kept out = some (kept, out)
  scan_chunks (chunk ∷ chunks) kept out =
      scan (kept ++ chunk) out >>= λ (kept', out'). scan_chunks chunks kept' out'

  scan_chunks-after :
      IsIncremental scan
      → (chunks : List (List ℕ)) (a : List ℕ) (out : S)
      → (scan a out >>= λ (kept, out'). scan_chunks chunks kept out')
        ≡ scan (a ++ flatten chunks) out
  unfolding scan_chunks flatten
  scan_chunks-after law [] a out = >>=-some (scan a out) ∙ ap (λ t. scan t out) (sym (append-nil a))
  scan_chunks-after law (chunk ∷ chunks) a out =
      sym (>>=-assoc (scan a out) (λ (kept, out'). scan (kept ++ chunk) out') _)
      ∙ ap (λ t. t >>= λ (kept, out'). scan_chunks chunks kept out')
          (sym (law.on_append a chunk out))
      ∙ scan_chunks-after law chunks (a ++ chunk) out
      ∙ ap (λ t. scan t out) (append_assoc a chunk (flatten chunks))

  -- However a stream is cut into chunks, its scans end in the buffer and with the items of one
  -- scan of the whole.
  pub scan_chunks-flatten :
      IsIncremental scan
      → (chunks : List (List ℕ)) (out : S) → scan_chunks chunks [] out ≡ scan (flatten chunks) out
  scan_chunks-flatten law chunks out =
      ap (λ t. t >>= λ (kept, out'). scan_chunks chunks kept out') (sym (law.on_empty out))
      ∙ scan_chunks-after law chunks [] out
