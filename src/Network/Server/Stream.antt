-- ===== src/Network/Server/Stream.antt =====
-- The scan of `pollCommands` on a stream that comes in pieces.
use long.Base.{
  ℕ, zero, suc, ◌≤◌, ◌<◌, ◌≡◌, refl, sym, ap, ◌∙◌, List, [], ◌∷◌, ◌++◌, Option, none, some,
  eq_of_some, ap₂, length, length-append, length-drop, drop, drop-append, get_or-append, arith,
}
use long.Base.Chunks.{◌>>=◌, IsIncremental}
use long.Network.Frame.{Command}
use long.Network.Frame.Header.{read_le32}
use long.Network.Server.{scan_loop, push_command, scan}
use long.Network.Server.Scan.{
  scan_loop_fuel, verdict, resync, waits, complete, scan_loop-resync, scan_loop-wait,
  scan_loop-frame, scan-Leaves, Leaves,
}

pub push_command-append :
    (type len : ℕ) (payload more : List ℕ) (out : List Command)
    → len ≤ length payload
    → push_command type len (payload ++ more) out ≡ push_command type len payload out
unfolding push_command
push_command-append type len payload more out h =
    ground (arith, get_or-append payload more 0 0, get_or-append payload more 1 0)

-- Where the loop on `a` has stopped at once.
stopped :
    (g h : ℕ) (a b : List ℕ) (out : List Command) (rest : List ℕ) (out' : List Command)
    → length (a ++ b) < g
    → length (rest ++ b) < h
    → ◌≡◌ {A = Option (List ℕ × List Command)} (some (a, out)) (some (rest, out'))
    → scan_loop g (a ++ b) out ≡ scan_loop h (rest ++ b) out'
stopped g h a b out rest out' p q e =
    let same : ◌≡◌ {A = List ℕ × List Command} (a, out) (rest, out') = eq_of_some e in
    let fits : length (rest ++ b) < g =
      omega (arith, ap (λ (t : List ℕ × List Command). length (t.0 ++ b)) same) in
    ap (λ (t : List ℕ × List Command). scan_loop g (t.0 ++ b) t.1) same
    ∙ scan_loop_fuel g h (rest ++ b) out' fits q

-- The loop on `a ++ b` comes by the state in which the loop on `a` stops.
scan_loop-append :
    (f g h : ℕ) (a b : List ℕ) (out : List Command) (rest : List ℕ) (out' : List Command)
    → length (a ++ b) < g
    → length (rest ++ b) < h
    → scan_loop f a out ≡ some (rest, out')
    → scan_loop g (a ++ b) out ≡ scan_loop h (rest ++ b) out'
scan_loop-append zero g h a b out rest out' p q e = unfold scan_loop in cc
scan_loop-append (suc f) zero h a b out rest out' p q e = absurd (omega arith)
scan_loop-append (suc f) (suc g) h (b0 ∷ b1 ∷ b2 ∷ b3 ∷ b4 ∷ b5 ∷ tl) b out rest out' p q e =
    let len = read_le32 b2 b3 b4 b5 in
    elim (verdict b0 len (length tl)) [
      | resync v ↦
          scan_loop-resync g b0 b1 b2 b3 b4 b5 (tl ++ b) out v
          ∙ scan_loop-append f g h (b1 ∷ b2 ∷ b3 ∷ b4 ∷ b5 ∷ tl) b out rest out' (omega arith) q
              (sym (scan_loop-resync f b0 b1 b2 b3 b4 b5 tl out v) ∙ e)
      | waits k l m ↦
          stopped (suc g) h (b0 ∷ b1 ∷ b2 ∷ b3 ∷ b4 ∷ b5 ∷ tl) b out rest out' p q
            (sym (scan_loop-wait f b0 b1 b2 b3 b4 b5 tl out k l m) ∙ e)
      | complete k l m ↦
          scan_loop-frame g b0 b1 b2 b3 b4 b5 (tl ++ b) out k l (omega (arith, length-append tl b))
          ∙ ap₂ (scan_loop g) (drop-append len tl b m) (push_command-append b1 len tl b out m)
          ∙ scan_loop-append f g h (drop len tl) b (push_command b1 len tl out) rest out'
              (omega (arith, length-drop len tl, length-append tl b, length-append (drop len tl) b))
              q (sym (scan_loop-frame f b0 b1 b2 b3 b4 b5 tl out k l m) ∙ e)
    ]
scan_loop-append (suc f) (suc g) h [] b out rest out' p q e =
    stopped (suc g) h [] b out rest out' p q (unfold scan_loop in e)
scan_loop-append (suc f) (suc g) h a b out rest out' p q e =
    stopped (suc g) h a b out rest out' p q (unfold scan_loop in e)

-- A buffer that came in two reads is scanned as if it had come in one: what the first scan keeps
-- is put before the second read.
pub scan-append :
    (a b : List ℕ) (out : List Command)
    → scan (a ++ b) out ≡ (scan a out >>= λ (rest, out'). scan (rest ++ b) out')
scan-append a b out = go (scan a out) refl (scan-Leaves a out)
  where
    go :
        (o : Option (List ℕ × List Command))
        → scan a out ≡ o
        → Leaves a o
        → scan (a ++ b) out ≡ (o >>= λ (rest, out'). scan (rest ++ b) out')
    go none e h = absurd h
    go (some (rest, out')) e h =
        unfold scan in
        scan_loop-append (suc (length a)) (suc (length (a ++ b))) (suc (length (rest ++ b))) a b out
          rest out' (omega arith) (omega arith) e

-- The scan of `pollCommands` can stop anywhere and go on at the next read.
pub scan-IsIncremental : IsIncremental scan
scan-IsIncremental = record { on_empty = λ out. unfold scan in refl; on_append = scan-append }
