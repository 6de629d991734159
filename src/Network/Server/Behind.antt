-- ===== src/Network/Server/Behind.antt =====
-- The scan of `pollCommands` behind commands that were taken earlier.
use long.Base.{
  ℕ, zero, suc, ◌≡◌, refl, sym, ap, ◌∙◌, Bool, true, false, ◌&&◌, List, [], ◌∷◌, ◌++◌, append_assoc,
  append-nil, Option, none, some, length, drop, if◌then◌else◌, ◌==◌, leb, get_or,
}
use long.Network.Frame.{Command, frame_code, frame_command}
use long.Network.Frame.Header.{read_le32}
use long.Network.Server.{push_command, scan_loop, scan}
use long.Network.Server.Scan.{
  verdict, resync, waits, complete, scan_loop-resync, scan_loop-wait, scan_loop-frame,
}

abbrev pub behind : List Command → Option (List ℕ × List Command) → Option (List ℕ × List Command)
behind front none = none
behind front (some (rest, out)) = some (rest, front ++ out)

push_command-behind :
    (type len : ℕ) (payload : List ℕ) (front out : List Command)
    → push_command type len payload (front ++ out) ≡ front ++ push_command type len payload out
unfolding push_command
push_command-behind type len payload front out =
    go ((type == frame_code frame_command) && leb 2 len)
  where
    c : Command
    c = record { cmd_id = get_or payload 0 0; value = get_or payload 1 0 }

    go :
        (b : Bool)
        → (if b then (front ++ out) ++ (c ∷ []) else front ++ out)
          ≡ front ++ (if b then out ++ (c ∷ []) else out)
    go true = append_assoc front out (c ∷ [])
    go false = refl

scan_loop-behind :
    (f : ℕ) (rest : List ℕ) (front out : List Command)
    → scan_loop f rest (front ++ out) ≡ behind front (scan_loop f rest out)
scan_loop-behind zero rest front out = unfold scan_loop in refl
scan_loop-behind (suc f) (b0 ∷ b1 ∷ b2 ∷ b3 ∷ b4 ∷ b5 ∷ tl) front out =
    let len = read_le32 b2 b3 b4 b5 in
    elim (verdict b0 len (length tl)) [
      | resync v ↦
          scan_loop-resync f b0 b1 b2 b3 b4 b5 tl (front ++ out) v
          ∙ scan_loop-behind f (b1 ∷ b2 ∷ b3 ∷ b4 ∷ b5 ∷ tl) front out
          ∙ ap (behind front) (sym (scan_loop-resync f b0 b1 b2 b3 b4 b5 tl out v))
      | waits k l m ↦
          scan_loop-wait f b0 b1 b2 b3 b4 b5 tl (front ++ out) k l m
          ∙ ap (behind front) (sym (scan_loop-wait f b0 b1 b2 b3 b4 b5 tl out k l m))
      | complete k l m ↦
          scan_loop-frame f b0 b1 b2 b3 b4 b5 tl (front ++ out) k l m
          ∙ ap (scan_loop f (drop len tl)) (push_command-behind b1 len tl front out)
          ∙ scan_loop-behind f (drop len tl) front (push_command b1 len tl out)
          ∙ ap (behind front) (sym (scan_loop-frame f b0 b1 b2 b3 b4 b5 tl out k l m))
    ]
scan_loop-behind (suc f) [] front out = unfold scan_loop in refl
scan_loop-behind (suc f) rest front out = unfold scan_loop in refl

pub scan-behind :
    (buf : List ℕ) (front : List Command) → scan buf front ≡ behind front (scan buf [])
unfolding scan
scan-behind buf front =
    ap (scan_loop (suc (length buf)) buf) (sym (append-nil front))
    ∙ scan_loop-behind (suc (length buf)) buf front []
