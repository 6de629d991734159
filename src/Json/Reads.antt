-- ===== src/Json/Reads.antt =====
-- Documents read by include/utils/JsonHelper.h.
pub mod Starts
pub mod Loops
pub mod Whole
use long.Base.{◌≡◌, refl, sym, ap, subst, List, ℕ}
use long.Json.{Parsed, ok, throws, out_of_fuel, ◌>>=◌}

-- Where its fuel is enough, the parser reads `a` and leaves `rest`.
abbrev pub Reads : {A : Type 0} → A → List ℕ → Parsed A → Type 0
Reads a rest out_of_fuel = Unit
Reads a rest (ok b s) = ok b s ≡ ok a rest
Reads a rest (throws e) = throws e ≡ ok a rest

pub Reads-exact :
    {A : Type 0} (a : A) (rest : List ℕ) (p : Parsed A) → p ≡ ok a rest → Reads a rest p
Reads-exact a rest p e = subst (Reads a rest) (sym e) refl

pub bind-Reads :
    {A B : Type 0} (a : A) (r : List ℕ) (b : B) (q : List ℕ) (p : Parsed A)
    (f : A → List ℕ → Parsed B)
    → Reads a r p
    → Reads b q (f a r)
    → Reads b q (p >>= f)
bind-Reads a r b q (ok c s) f h g = subst (Reads b q) (sym (ap (λ p. p >>= f) h)) g
bind-Reads a r b q (throws e) f h g = absurd cc
bind-Reads a r b q out_of_fuel f h g = tt
