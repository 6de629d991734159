-- ===== src/Network/Server/Polls.antt =====
-- Whole calls of `pollCommands` over the life of a connection.
use long.Base.{
  ℕ, ◌+◌, ◌≡◌, refl, sym, ap, ap₂, ◌∙◌, List, [], ◌∷◌, ◌++◌, map, append_assoc, append-nil, Option,
  none, some, length, length-append, All, arith,
}
use mathlib.Core.List.{flatten}
use long.Base.Int.{pos, negsuc}
use long.Network.Socket.{RecvAnswer, received, closed, recv_failed, eintr, eagain, other}
use long.Network.Frame.{Command}
use long.Network.Server.{Poll, drained, returns, recv_loop, finish_poll, poll_commands, scan}
use long.Network.Server.Scan.{Leaves, scan-Leaves}
use long.Base.Chunks.{◌>>=◌, scan_chunks, scan_chunks-flatten}
use long.Network.Server.Stream.{scan-IsIncremental}
use long.Network.Server.RoundTrip.{Frame, IsFrame, sent_all, commands_in, scan-sent_all}

-- The answers of a call that reads all there is: data and interruptions, then EAGAIN.
abbrev pub IsDrain : List RecvAnswer → Type 0
IsDrain [] = ⊥
IsDrain (received bytes ∷ more) = IsDrain more
IsDrain (recv_failed eintr ∷ more) = IsDrain more
IsDrain (recv_failed eagain ∷ more) = Unit {0}
IsDrain (recv_failed (other e) ∷ more) = ⊥
IsDrain (closed ∷ more) = ⊥

-- The answers of a call during which the peer closes.
abbrev pub IsClosing : List RecvAnswer → Type 0
IsClosing [] = ⊥
IsClosing (received bytes ∷ more) = IsClosing more
IsClosing (recv_failed eintr ∷ more) = IsClosing more
IsClosing (recv_failed eagain ∷ more) = ⊥
IsClosing (recv_failed (other e) ∷ more) = ⊥
IsClosing (closed ∷ more) = Unit {0}

-- The bytes that a call reads.
abbrev pub bytes_in : List RecvAnswer → List ℕ
bytes_in [] = []
bytes_in (received bytes ∷ more) = bytes ++ bytes_in more
bytes_in (recv_failed eintr ∷ more) = bytes_in more
bytes_in (recv_failed eagain ∷ more) = []
bytes_in (recv_failed (other e) ∷ more) = []
bytes_in (closed ∷ more) = []

recv_loop-IsDrain :
    (answers : List RecvAnswer) (buf : List ℕ) (total : ℕ)
    → IsDrain answers
    → recv_loop answers buf total
      ≡ some (drained (total + length (bytes_in answers)), buf ++ bytes_in answers)
unfolding recv_loop
recv_loop-IsDrain [] buf total h = absurd h
recv_loop-IsDrain (received bytes ∷ more) buf total h =
    recv_loop-IsDrain more (buf ++ bytes) (total + length bytes) h
    ∙ ap₂ (λ n t. some (drained n, t)) (omega (arith, length-append bytes (bytes_in more)))
        (append_assoc buf bytes (bytes_in more))
recv_loop-IsDrain (recv_failed eintr ∷ more) buf total h = recv_loop-IsDrain more buf total h
recv_loop-IsDrain (recv_failed eagain ∷ more) buf total h =
    ap₂ (λ n t. some (drained n, t)) (omega arith) (sym (append-nil buf))
recv_loop-IsDrain (recv_failed (other e) ∷ more) buf total h = absurd h
recv_loop-IsDrain (closed ∷ more) buf total h = absurd h

recv_loop-IsClosing :
    (answers : List RecvAnswer) (buf : List ℕ) (total : ℕ)
    → IsClosing answers
    → recv_loop answers buf total ≡ some (returns (negsuc 0), buf ++ bytes_in answers)
unfolding recv_loop
recv_loop-IsClosing [] buf total h = absurd h
recv_loop-IsClosing (received bytes ∷ more) buf total h =
    recv_loop-IsClosing more (buf ++ bytes) (total + length bytes) h
    ∙ ap (λ t. some (returns (negsuc 0), t)) (append_assoc buf bytes (bytes_in more))
recv_loop-IsClosing (recv_failed eintr ∷ more) buf total h = recv_loop-IsClosing more buf total h
recv_loop-IsClosing (recv_failed eagain ∷ more) buf total h = absurd h
recv_loop-IsClosing (recv_failed (other e) ∷ more) buf total h = absurd h
recv_loop-IsClosing (closed ∷ more) buf total h =
    ap (λ t. some (returns (negsuc 0), t)) (sym (append-nil buf))

-- A call that reads all there is returns the number of bytes read, and scans them behind the
-- buffer that it was given.
pub poll_commands-IsDrain :
    (answers : List RecvAnswer) (buf : List ℕ) (out : List Command)
    → IsDrain answers
    → (p : Poll) × (poll_commands answers buf out ≡ some p)
      × (p.result ≡ pos (length (bytes_in answers)))
      × (scan (buf ++ bytes_in answers) out ≡ some (p.buf, p.out))
unfolding poll_commands finish_poll
poll_commands-IsDrain answers buf out h =
    go (scan (buf ++ bytes_in answers) out) refl (scan-Leaves (buf ++ bytes_in answers) out)
  where
    go :
        (o : Option (List ℕ × List Command))
        → scan (buf ++ bytes_in answers) out ≡ o
        → Leaves (buf ++ bytes_in answers) o
        → (p : Poll) × (poll_commands answers buf out ≡ some p)
          × (p.result ≡ pos (length (bytes_in answers)))
          × (scan (buf ++ bytes_in answers) out ≡ some (p.buf, p.out))
    go none e l = absurd l
    go (some (rest, out')) e l =
        (record { result = pos (length (bytes_in answers)); buf = rest; out = out' }, poll, refl, e)
      where
        poll :
            poll_commands answers buf out
            ≡ some (record { result = pos (length (bytes_in answers)); buf = rest; out = out' })
        poll =
            rw (recv_loop-IsDrain answers buf 0 h, poll_commands)
              (rw (e, finish_poll)
                (ap (λ n. some (record { result = pos n; buf = rest; out = out' })) (omega arith)))

-- A call during which the peer closes returns -1 and hands out no command, not even one that came
-- whole before the end: its bytes stay in the buffer, which the caller drops.
pub poll_commands-IsClosing :
    (answers : List RecvAnswer) (buf : List ℕ) (out : List Command)
    → IsClosing answers
    → poll_commands answers buf out
      ≡ some (record { result = negsuc 0; buf = buf ++ bytes_in answers; out = out })
unfolding poll_commands finish_poll
poll_commands-IsClosing answers buf out h =
    rw (recv_loop-IsClosing answers buf 0 h, poll_commands) refl

-- The calls that a connection makes one after the other.
unfoldable pub poll_each :
    List (List RecvAnswer) → List ℕ → List Command → Option (List ℕ × List Command)
poll_each [] buf out = some (buf, out)
poll_each (answers ∷ calls) buf out =
    poll_commands answers buf out >>= λ p. poll_each calls p.buf p.out

poll_each-scan_chunks :
    (calls : List (List RecvAnswer)) (buf : List ℕ) (out : List Command)
    → All IsDrain calls
    → poll_each calls buf out ≡ scan_chunks scan (map bytes_in calls) buf out
unfolding poll_each scan_chunks
poll_each-scan_chunks [] buf out h = refl
poll_each-scan_chunks (answers ∷ calls) buf out h =
    let (p, e, r, s) = poll_commands-IsDrain answers buf out h.0 in
    rw (e, s) (poll_each-scan_chunks calls p.buf p.out h.1)

-- A connection on which the peer sends frames gets their commands, in the order sent and each once,
-- and keeps nothing: however the bytes are spread over the calls and the reads of each call, and
-- whatever interruptions come between.
pub poll_each-sent_all :
    (calls : List (List RecvAnswer)) (frames : List Frame)
    → All IsDrain calls
    → All IsFrame frames
    → flatten (map bytes_in calls) ≡ sent_all frames
    → poll_each calls [] [] ≡ some ([], commands_in frames)
poll_each-sent_all calls frames h k e =
    poll_each-scan_chunks calls [] [] h
    ∙ scan_chunks-flatten scan scan-IsIncremental (map bytes_in calls) []
    ∙ ap (λ t. scan t []) e
    ∙ scan-sent_all frames [] k
