-- ===== src/Handle/Owned.antt =====
-- The calls that open and close a descriptor, replayed.
use long.Base.{
  ℕ, ◌≡◌, refl, sym, ap, ◌∙◌, Bool, true, false, Option, none, some, List, [], ◌∷◌, if◌then◌else◌,
  ◌==◌, arith,
}
use long.Handle.{Call, opened, closed, Handle, close_handle, open_handle}

-- The descriptor that is open after a call, where at most one is open before it; `none` where the
-- call opens a second one, or closes one that is not open.
abbrev after : Option (Option ℕ) → Call → Option (Option ℕ)
after none c = none
after (some none) (opened n) = some (some n)
after (some none) (closed n) = none
after (some (some m)) (opened n) = none
after (some (some m)) (closed n) = if m == n then some none else none

abbrev pub replay : List Call → Option (Option ℕ)
replay [] = some none
replay (c ∷ earlier) = after (replay earlier) c

-- The calls so far leave open the one descriptor that the object holds, or none if it holds none.
abbrev pub IsOwned : Handle → Type 0
IsOwned h = replay h.calls ≡ some h.fd

pub close_handle-IsOwned : (h : Handle) → IsOwned h → IsOwned (close_handle h)
unfolding close_handle
close_handle-IsOwned h e = go h.calls h.fd e
  where
    go :
        (calls : List Call) (fd : Option ℕ)
        → replay calls ≡ some fd
        → IsOwned (close_handle (record { fd = fd; calls = calls }))
    go calls none e = e
    go calls (some n) e = rw e (ground arith)

pub fd-close_handle : (h : Handle) → (close_handle h).fd ≡ none
unfolding close_handle
fd-close_handle h = go h.calls h.fd
  where
    go :
        (calls : List Call) (fd : Option ℕ)
        → (close_handle (record { fd = fd; calls = calls })).fd ≡ none
    go calls none = refl
    go calls (some n) = refl

pub open_handle-IsOwned :
    (h : Handle) (answer : Option ℕ) → h.fd ≡ none → IsOwned h → IsOwned (open_handle h answer)
unfolding open_handle
open_handle-IsOwned h none f e = e ∙ ap some f
open_handle-IsOwned h (some n) f e = rw (e, f) refl

pub fd-open_handle : (h : Handle) (answer : Option ℕ) → (open_handle h answer).fd ≡ answer
unfolding open_handle
fd-open_handle h none = refl
fd-open_handle h (some n) = refl

-- An attempt to open: whether it says that it has succeeded, which it does exactly if the object
-- then holds a descriptor.
abbrev pub is_some : Option ℕ → Bool
is_some none = false
is_some (some n) = true

pub record IsAttempt (h : Handle) (result : Bool) : Type 0 where
  pub owned : IsOwned h
  pub tells : result ≡ is_some h.fd

-- To give up: the descriptor is closed, and the attempt says no.
pub give_up : (h : Handle) → IsOwned h → IsAttempt (close_handle h) false
give_up h e = record {
  owned = close_handle-IsOwned h e;
  tells = ap is_some (sym (fd-close_handle h));
}

-- Close, then open anew.
pub reopen-IsOwned :
    (h : Handle) (answer : Option ℕ) → IsOwned h → IsOwned (open_handle (close_handle h) answer)
reopen-IsOwned h answer e =
    open_handle-IsOwned (close_handle h) answer (fd-close_handle h) (close_handle-IsOwned h e)
