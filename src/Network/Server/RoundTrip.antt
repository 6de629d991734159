-- ===== src/Network/Server/RoundTrip.antt =====
-- `buildFrame` of FrameProtocol.h and the scan of `pollCommands`.
use long.Base.{
  ℕ, ◌%◌, ◌^◌, ◌≤◌, ◌≡◌, ◌≢◌, inl, refl, sym, ap, ap₂, ◌∙◌, List, [], ◌∷◌, ◌++◌, append_assoc,
  append-nil, some, length, length-append, drop, take, drop-append_self, All, if◌then◌else◌, ◌==◌,
  arith,
}
use long.Network.Frame.{
  Command, build_header, build_frame, ll_sof, ll_header_size, ll_max_payload, frame_code,
  frame_command,
}
use long.Network.Frame.Header.{read_le32, read_le32-split, build_header-bytes}
use long.Network.Server.{push_command, scan}
use long.Network.Server.Scan.{scan-resync, scan-frame}
use long.Network.Server.Stream.{push_command-append}

-- A payload with the type under which it is sent.
pub record Frame : Type 0 where
  pub type : ℕ
  pub payload : List ℕ

abbrev pub IsFrame : Frame → Type 0
IsFrame fr = length fr.payload ≤ ll_max_payload

-- The bytes of a frame on the wire.
abbrev pub sent : Frame → List ℕ
sent fr = build_frame fr.type (some fr.payload) (length fr.payload)

abbrev first_two : List ℕ → List Command
first_two (id ∷ value ∷ more) = record { cmd_id = id; value = value } ∷ []
first_two short = []

-- The command that a frame carries: the first two bytes of a payload that has two, under 0x40.
abbrev pub command_in : Frame → List Command
command_in fr = if fr.type == frame_code frame_command then first_two fr.payload else []

abbrev pub commands_in : List Frame → List Command
commands_in [] = []
commands_in (fr ∷ frames) = command_in fr ++ commands_in frames

abbrev pub sent_all : List Frame → List ℕ
sent_all [] = []
sent_all (fr ∷ frames) = sent fr ++ sent_all frames

take_all : (xs : List ℕ) → take (length xs) xs ≡ xs
take_all [] = refl
take_all (x ∷ xs) = ap (◌∷◌ x) (take_all xs)

pub build_frame-append :
    (type : ℕ) (payload : List ℕ)
    → build_frame type (some payload) (length payload)
      ≡ build_header type (length payload % 2 ^ 32) ++ payload
unfolding build_frame
build_frame-append type [] = sym (append-nil _)
build_frame-append type (x ∷ xs) = ground (arith, take_all xs)

push_command-first_two :
    (type : ℕ) (payload : List ℕ) (out : List Command)
    → push_command type (length payload) payload out
      ≡ out ++ command_in (record { type = type; payload = payload })
unfolding push_command
push_command-first_two type [] out = ground (arith, append-nil out)
push_command-first_two type (x ∷ []) out = ground (arith, append-nil out)
push_command-first_two type (x ∷ y ∷ more) out = ground (arith, append-nil out)

module _ (type b2 b3 b4 b5 : ℕ) (payload rest : List ℕ) (out : List Command) where
  scan-header :
      read_le32 b2 b3 b4 b5 ≡ length payload
      → length payload ≤ ll_max_payload
      → scan (ll_sof ∷ type ∷ b2 ∷ b3 ∷ b4 ∷ b5 ∷ (payload ++ rest)) out
        ≡ scan rest (push_command type (length payload) payload out)
  scan-header e h =
      scan-frame ll_sof type b2 b3 b4 b5 (payload ++ rest) out refl (omega arith)
        (omega (arith, length-append payload rest))
      ∙ ap (λ (n : ℕ). scan (drop n (payload ++ rest)) (push_command type n (payload ++ rest) out))
          e
      ∙ ap₂ scan (drop-append_self payload rest)
          (push_command-append type (length payload) payload rest out (omega arith))

-- A frame of an allowed length in front of the buffer is taken off whole, and its command is put
-- behind those that are out.
pub scan-build_frame :
    (fr : Frame) (rest : List ℕ) (out : List Command)
    → IsFrame fr
    → scan (sent fr ++ rest) out ≡ scan rest (out ++ command_in fr)
scan-build_frame fr rest out h =
    ap (λ t. scan (t ++ rest) out)
      (build_frame-append fr.type fr.payload
        ∙ ap (λ t. t ++ fr.payload) (build_header-bytes fr.type (length fr.payload % 2 ^ 32)))
    ∙ scan-header fr.type _ _ _ _ fr.payload rest out
        (read_le32-split (length fr.payload % 2 ^ 32) (omega arith) ∙ omega arith) h
    ∙ ap (scan rest) (push_command-first_two fr.type fr.payload out)

-- Bytes before a start byte are dropped.
pub scan-noise :
    (noise rest : List ℕ) (out : List Command)
    → All (λ b. b ≢ ll_sof) noise
    → ll_header_size ≤ length rest
    → scan (noise ++ rest) out ≡ scan rest out
scan-noise [] rest out h k = refl
scan-noise (x ∷ noise) rest out h k =
    skip (noise ++ rest) (omega (arith, length-append noise rest)) ∙ scan-noise noise rest out h.1 k
  where
    skip : (xs : List ℕ) → 6 ≤ length xs → scan (x ∷ xs) out ≡ scan xs out
    skip (b1 ∷ b2 ∷ b3 ∷ b4 ∷ b5 ∷ tl) l = scan-resync x b1 b2 b3 b4 b5 tl out (inl h.0)
    skip [] l = absurd (omega arith)
    skip (b1 ∷ []) l = absurd (omega arith)
    skip _ l = absurd (omega arith)

pub scan-sent_all :
    (frames : List Frame) (out : List Command)
    → All IsFrame frames
    → scan (sent_all frames) out ≡ some ([], out ++ commands_in frames)
unfolding scan
scan-sent_all [] out h = ap (λ t. some ([], t)) (sym (append-nil out))
scan-sent_all (fr ∷ frames) out h =
    scan-build_frame fr (sent_all frames) out h.0
    ∙ scan-sent_all frames (out ++ command_in fr) h.1
    ∙ ap (λ t. some ([], t)) (append_assoc out (command_in fr) (commands_in frames))
