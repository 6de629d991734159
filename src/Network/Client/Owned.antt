-- ===== src/Network/Client/Owned.antt =====
-- The socket of `TcpClient::connect`.
use long.Base.{ℕ, ◌≡◌, sym, ap, not, Bool-cases, inl, inr, Option, none, some}
use long.Handle.{Handle, close_handle, open_handle}
use long.Handle.Owned.{IsOwned, IsAttempt, give_up, is_some, reopen-IsOwned, fd-open_handle}
use long.Network.Client.{ConnectAnswers, connect_on, connect}

connect_on-IsAttempt :
    (h : Handle) (a : ConnectAnswers) (answer : Option ℕ)
    → IsOwned h
    → h.fd ≡ answer
    → IsAttempt (connect_on h a answer).0 (connect_on h a answer).1
unfolding connect_on
connect_on-IsAttempt h a none o e = record { owned = o; tells = ap is_some (sym e) }
connect_on-IsAttempt h a (some fd) o e = elim (Bool-cases (not a.valid_addr)) [
  | inl t ↦ rw t (give_up h o)
  | inr t ↦ elim (Bool-cases (not a.connecting)) [
    | inl u ↦ rw (t, u) (give_up h o)
    | inr u ↦ elim (Bool-cases (not a.writable)) [
      | inl v ↦ rw (t, u, v) (give_up h o)
      | inr v ↦ elim (Bool-cases (not a.no_error)) [
        | inl w ↦ rw (t, u, v, w) (give_up h o)
        | inr w ↦ rw (t, u, v, w) (record { owned = o; tells = ap is_some (sym e) })
      ]
    ]
  ]
]

-- Whatever the kernel answers, `connect` closes the socket that was open before, leaves open at
-- most the new one, and returns true exactly if it does.
pub connect-IsAttempt :
    (h : Handle) (a : ConnectAnswers) → IsOwned h → IsAttempt (connect h a).0 (connect h a).1
unfolding connect
connect-IsAttempt h a o =
    connect_on-IsAttempt (open_handle (close_handle h) a.socket) a a.socket
      (reopen-IsOwned h a.socket o) (fd-open_handle (close_handle h) a.socket)
