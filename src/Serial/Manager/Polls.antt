-- ===== src/Serial/Manager/Polls.antt =====
-- Calls of `poll`, one after the other.
use long.Base.{
  ℕ, ◌≡◌, refl, sym, ap, ◌∙◌, true, List, [], ◌∷◌, ◌++◌, append-nil, append_assoc, Option, none,
  some, All,
}
use long.Base.Chunks.{◌>>=◌, scan_chunks, scan_chunks-flatten}
use mathlib.Core.List.{flatten}
use long.Serial.Manager.{
  Manager, Received, ReadAnswer, read_bytes, read_nothing, poll, poll_open, poll_read, finish_poll,
  scan, scan_loop,
}
use long.Serial.Manager.Stream.{serial_scan-IsIncremental, serial_scan-behind, behind}
use long.Serial.Manager.Front.{Message, IsMessage, sent, told}
use long.Serial.Manager.RoundTrip.{serial_scan-sent}

-- The calls of `poll` with these answers of `read`, and the reports of all of them.
pub poll_each : Manager → List ReadAnswer → List Received → Option (Manager × List Received)
poll_each m [] out = some (m, out)
poll_each m (answer ∷ answers) out =
    poll m answer >>= λ (m', events). poll_each m' answers (out ++ events)

-- The bytes of each read that has any.
abbrev pub chunks_in : List ReadAnswer → List (List ℕ)
chunks_in [] = []
chunks_in (read_nothing ∷ answers) = chunks_in answers
chunks_in (read_bytes b bytes ∷ answers) = (b ∷ bytes) ∷ chunks_in answers

-- An open port with a callback, and `kept` in its buffer.
abbrev pub port : ℕ → List ℕ → Manager
port fd kept = record { fd = some fd; has_cb = true; rx_buf = kept }

abbrev pub with_buf : ℕ → Option (List ℕ × List Received) → Option (Manager × List Received)
with_buf fd none = none
with_buf fd (some (kept, out)) = some (port fd kept, out)

abbrev pub sent_all : List Message → List ℕ
sent_all [] = []
sent_all (m ∷ messages) = sent m ++ sent_all messages

abbrev pub told_all : List Message → List Received
told_all [] = []
told_all (m ∷ messages) = told m ∷ told_all messages

serial_scan-sent_all :
    (messages : List Message) (out : List Received)
    → All IsMessage messages
    → scan true (sent_all messages) out ≡ some ([], out ++ told_all messages)
unfolding scan scan_loop
serial_scan-sent_all [] out h = ap (λ t. some ([], t)) (sym (append-nil out))
serial_scan-sent_all (m ∷ messages) out h =
    serial_scan-sent true m (sent_all messages) out h.0
    ∙ serial_scan-sent_all messages (out ++ (told m ∷ [])) h.1
    ∙ ap (λ t. some ([], t)) (append_assoc out (told m ∷ []) (told_all messages))

abbrev Agree : ℕ → List ReadAnswer → Type 0
Agree fd answers =
    (kept : List ℕ) (out : List Received)
    → poll_each (port fd kept) answers out
      ≡ with_buf fd (scan_chunks (scan true) (chunks_in answers) kept out)

-- After a read whose scan gives `o`.
resume :
    (fd : ℕ) (answers : List ReadAnswer) (kept : List ℕ) (out : List Received)
    (o : Option (List ℕ × List Received))
    → Agree fd answers
    → (finish_poll (port fd kept) o >>= λ (m, events). poll_each m answers (out ++ events))
      ≡ with_buf fd
          (behind out o >>= λ (t, out'). scan_chunks (scan true) (chunks_in answers) t out')
unfolding finish_poll
resume fd answers kept out none agree = refl
resume fd answers kept out (some (rest, events)) agree = agree rest (out ++ events)

poll_each-scan_chunks : (fd : ℕ) (answers : List ReadAnswer) → Agree fd answers
unfolding poll_each scan_chunks poll poll_open poll_read
poll_each-scan_chunks fd [] kept out = refl
poll_each-scan_chunks fd (read_nothing ∷ answers) kept out =
    rw append-nil (poll_each-scan_chunks fd answers kept out)
poll_each-scan_chunks fd (read_bytes b bytes ∷ answers) kept out =
    resume fd answers kept out (scan true (kept ++ (b ∷ bytes)) [])
      (poll_each-scan_chunks fd answers)
    ∙ ap (λ o. with_buf fd (o >>= λ (t, out'). scan_chunks (scan true) (chunks_in answers) t out'))
        (sym (serial_scan-behind true (kept ++ (b ∷ bytes)) out))

-- The messages that are sent to an open port are reported in the order sent, each once, with its
-- payload and the length of that, and nothing is kept: however the bytes are spread over the reads,
-- and whatever reads without data come between.
pub serial_poll_each-sent_all :
    (fd : ℕ) (answers : List ReadAnswer) (messages : List Message)
    → All IsMessage messages
    → flatten (chunks_in answers) ≡ sent_all messages
    → poll_each (port fd []) answers [] ≡ some (port fd [], told_all messages)
serial_poll_each-sent_all fd answers messages h e =
    poll_each-scan_chunks fd answers [] []
    ∙ ap (with_buf fd) (
        scan_chunks-flatten (scan true) (serial_scan-IsIncremental true) (chunks_in answers) []
        ∙ ap (λ t. scan true t []) e
        ∙ serial_scan-sent_all messages [] h)
