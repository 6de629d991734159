-- ===== src/App/Serve/Commands.antt =====
-- `serveClient` and `pollCommands`: from the bytes of the operator to the commands logged.
use long.Base.{
  ℕ, ◌<◌, ◌≡◌, refl, sym, ap, ap₂, ◌∙◌, List, [], ◌∷◌, ◌++◌, map, some, All, eq_of_some,
}
use mathlib.Core.List.{flatten}
use long.Network.Socket.{RecvAnswer}
use long.Network.Frame.{Command}
use long.Network.Server.Behind.{behind, scan-behind}
use long.Network.Server.RoundTrip.{Frame, IsFrame, sent_all, commands_in}
use long.Network.Server.Polls.{
  IsDrain, bytes_in, poll_each, poll_commands-IsDrain, poll_each-sent_all,
}
use long.App.Serve.{Client, Round, goes_on, serve_loop}
use long.App.Serve.Served.{polls, serve_loop-Served}

abbrev pub reads_of : List Round → List (List RecvAnswer)
reads_of [] = []
reads_of (r ∷ rs) = r.reads ∷ reads_of rs

-- To clear the list before a call and to append what the call takes is to go on with the list.
polls-poll_each :
    (rs : List Round) (buf : List ℕ) (logged : List Command)
    → All IsDrain (reads_of rs)
    → polls rs buf logged ≡ poll_each (reads_of rs) buf logged
unfolding poll_each
polls-poll_each [] buf logged h = refl
polls-poll_each (r ∷ rs) buf logged h =
    let (p, e, pr, ps) = poll_commands-IsDrain r.reads buf [] h.0 in
    let (q, f, qr, qs) = poll_commands-IsDrain r.reads buf logged h.0 in
    let same : ◌≡◌ {A = List ℕ × List Command} (q.buf, q.out) (p.buf, logged ++ p.out) =
      eq_of_some (sym qs ∙ scan-behind (buf ++ bytes_in r.reads) logged ∙ ap (behind logged) ps) in
    rw (e, f)
      (polls-poll_each rs p.buf (logged ++ p.out) h.1
        ∙ ap (λ (t : List ℕ × List Command). poll_each (reads_of rs) t.0 t.1) (sym same))

-- As long as the loop goes on, and each round reads what there is: the commands of the frames that
-- the operator has sent have been seen, in the order sent and each once, and nothing is kept.
pub serve_loop-commands_in :
    (c : Client) (rs : List Round) (c' : Client) (frames : List Frame)
    → c.grab_fail_cnt < 5
    → c.rx_buf ≡ []
    → c.logged ≡ []
    → serve_loop c rs ≡ some (goes_on c')
    → All IsDrain (reads_of rs)
    → All IsFrame frames
    → flatten (map bytes_in (reads_of rs)) ≡ sent_all frames
    → (c'.rx_buf ≡ []) × (c'.logged ≡ commands_in frames)
serve_loop-commands_in c rs c' frames h b l e d k s =
    let seen = (serve_loop-Served c rs c' h e).logged in
    let same : ◌≡◌ {A = List ℕ × List Command} (c'.rx_buf, c'.logged) ([], commands_in frames) =
      eq_of_some (
        sym seen
        ∙ ap₂ (polls rs) b l
        ∙ polls-poll_each rs [] [] d
        ∙ poll_each-sent_all (reads_of rs) frames d k s) in
    (ap (λ t. t.0) same, ap (λ t. t.1) same)
