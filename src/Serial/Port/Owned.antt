-- ===== src/Serial/Port/Owned.antt =====
-- The descriptor of `SerialManager::open`.
use long.Base.{ℕ, ◌≡◌, sym, ap, inl, inr, not, Bool-cases, Option, none, some}
use long.Handle.{Handle, close_handle, open_handle}
use long.Handle.Owned.{IsOwned, IsAttempt, give_up, is_some, reopen-IsOwned, fd-open_handle}
use long.Serial.Port.{OpenAnswers, open_port_on, open_port}

open_port_on-IsAttempt :
    (h : Handle) (a : OpenAnswers) (baud : ℕ) (answer : Option ℕ)
    → IsOwned h
    → h.fd ≡ answer
    → IsAttempt (open_port_on h a baud answer).0 (open_port_on h a baud answer).1.0
unfolding open_port_on
open_port_on-IsAttempt h a baud none o e = record { owned = o; tells = ap is_some (sym e) }
open_port_on-IsAttempt h a baud (some fd) o e = elim (Bool-cases (not a.got)) [
  | inl t ↦ rw t (give_up h o)
  | inr t ↦ elim (Bool-cases (not a.set)) [
    | inl u ↦ rw (t, u) (give_up h o)
    | inr u ↦ rw (t, u) (record { owned = o; tells = ap is_some (sym e) })
  ]
]

-- Whatever the kernel answers, `open` closes the port that was open before, leaves open at most the
-- new one, and returns true exactly if it does.
pub open_port-IsAttempt :
    (h : Handle) (a : OpenAnswers) (baud : ℕ)
    → IsOwned h
    → IsAttempt (open_port h a baud).0 (open_port h a baud).1.0
unfolding open_port
open_port-IsAttempt h a baud o =
    open_port_on-IsAttempt (open_handle (close_handle h) a.device) a baud a.device
      (reopen-IsOwned h a.device o) (fd-open_handle (close_handle h) a.device)
