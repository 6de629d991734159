-- ===== src/Network/Listener/Owned.antt =====
-- The socket of `TcpServer::listen`.
use long.Base.{ℕ, ◌≡◌, sym, ap, not, Bool-cases, inl, inr, Option, none, some, ◌&&◌}
use long.Handle.{Handle, close_handle, open_handle}
use long.Handle.Owned.{IsOwned, IsAttempt, give_up, is_some, reopen-IsOwned, fd-open_handle}
use long.Network.Listener.{ListenAnswers, listen_on, listen}

listen_on-IsAttempt :
    (h : Handle) (a : ListenAnswers) (answer : Option ℕ)
    → IsOwned h
    → h.fd ≡ answer
    → IsAttempt (listen_on h a answer).0 (listen_on h a answer).1
unfolding listen_on
listen_on-IsAttempt h a none o e = record { owned = o; tells = ap is_some (sym e) }
listen_on-IsAttempt h a (some fd) o e = elim (Bool-cases (not a.any_addr && not a.valid_addr)) [
  | inl t ↦ rw t (give_up h o)
  | inr t ↦ elim (Bool-cases (not a.bound)) [
    | inl u ↦ rw (t, u) (give_up h o)
    | inr u ↦ elim (Bool-cases (not a.listening)) [
      | inl v ↦ rw (t, u, v) (give_up h o)
      | inr v ↦ rw (t, u, v) (record { owned = o; tells = ap is_some (sym e) })
    ]
  ]
]

-- Whatever the kernel answers, `listen` closes the socket that was open before, leaves open at most
-- the new one, and returns true exactly if it does.
pub listen-IsAttempt :
    (h : Handle) (a : ListenAnswers) → IsOwned h → IsAttempt (listen h a).0 (listen h a).1
unfolding listen
listen-IsAttempt h a o =
    listen_on-IsAttempt (open_handle (close_handle h) a.socket) a a.socket
      (reopen-IsOwned h a.socket o) (fd-open_handle (close_handle h) a.socket)
