-- ===== src/App/Whole/Closed.antt =====
-- The camera over a whole run of the application.
use long.Base.{
  ℕ, zero, suc, ◌≡◌, refl, sym, ap, subst, ◌∙◌, Bool, true, false, List, [], ◌∷◌, Option, none,
  some, if◌then◌else◌, All,
}
use long.Base.Int.{ℤ, pos, negsuc}
use long.Camera.{Camera, new_camera, open_camera, close_camera}
use long.Camera.Held.{
  addresses, IsHeld, IsClosed, close_camera-IsClosed, OpensTo, Opened, succeeded, gave_up,
}
use long.Camera.Opens.{Enough, open_camera-OpensTo}
use long.App.Run.{OpenEnd, camera_ready, not_running, interrupted}
use long.App.Serve.{Outcome, goes_on, stops}
use long.App.Stream.{stream_client}
use long.App.Stream.Idle.{Idle, LeavesIdle, stream_client-LeavesIdle}
use long.App.Whole.{
  Try, tried, try_loop, Visit, visited, client_visit, visit_loop, closing_camera, run_on, run_whole,
  destroyed, application,
}

-- A closed camera holds nothing.
IsClosed-Idle : (cam : Camera) → IsClosed cam → Idle cam
IsClosed-Idle cam k = record {
  held = record {
    owned = k.owned;
    held = k.released ∙ ap (λ bs. some (addresses bs)) (sym k.no_buffers);
    idle = λ e. k.stopped;
  };
  off = k.stopped;
}

abbrev Tried : Option (Camera × OpenEnd) → Type 0
Tried none = Unit
Tried (some (cam, e)) = Idle cam

-- For each buffer that the driver says it has, there is an answer.
abbrev pub AreEnough : List Try → Type 0
AreEnough tries = All (λ a. Enough a.answers.count a.answers.answers) tries

Opened-Idle : (cam : Camera) (ok : Bool) → Opened cam ok → Idle cam
Opened-Idle cam ok (succeeded t f n h) = record { held = h; off = n }
Opened-Idle cam ok (gave_up t k) = IsClosed-Idle cam k

tried-Tried :
    (slept : Bool) (o : Option (Camera × Bool)) (next : Camera → Option (Camera × OpenEnd))
    → OpensTo o
    → ((c : Camera) → Idle c → Tried (next c))
    → Tried (tried slept o next)
unfolding tried
tried-Tried slept none next h k = tt
tried-Tried slept (some (cam, true)) next h k = Opened-Idle cam true h
tried-Tried true (some (cam, false)) next h k = k cam (Opened-Idle cam false h)
tried-Tried false (some (cam, false)) next h k = Opened-Idle cam false h

try_loop-Tried :
    (cam : Camera) (fps : ℤ) (tries : List Try)
    → AreEnough tries
    → Idle cam
    → Tried (try_loop cam fps tries)
unfolding try_loop
try_loop-Tried cam fps [] e i = tt
try_loop-Tried cam fps (a ∷ more) e i = go a.running (
    tried-Tried a.slept (open_camera cam fps a.answers) _
      (open_camera-OpensTo cam fps a.answers e.0 i.held) λ c j. try_loop-Tried c fps more e.1 j)
  where
    go :
        (b : Bool)
        → Tried (tried a.slept (open_camera cam fps a.answers) (λ c. try_loop c fps more))
        → Tried (
            if b
            then tried a.slept (open_camera cam fps a.answers) (λ c. try_loop c fps more)
            else some (cam, not_running))
    go true h = h
    go false h = i

abbrev Visited : Option Camera → Type 0
Visited none = Unit
Visited (some cam) = Idle cam

visited-Visited :
    (o : Option (Camera × Outcome)) (next : Camera → Option Camera)
    → LeavesIdle o
    → ((c : Camera) → Idle c → Visited (next c))
    → Visited (visited o next)
unfolding visited
visited-Visited none next s k = tt
visited-Visited (some (cam, goes_on c)) next s k = tt
visited-Visited (some (cam, stops why c)) next s k = k cam s

client_visit-Visited :
    (fd : ℤ) (cam : Camera) (v : Visit) (next : Camera → Option Camera)
    → Idle cam
    → ((c : Camera) → Idle c → Visited (next c))
    → Visited (client_visit fd cam v next)
unfolding client_visit
client_visit-Visited (negsuc zero) cam v next i k = k cam i
client_visit-Visited (negsuc (suc zero)) cam v next i k = i
client_visit-Visited (negsuc (suc (suc n))) cam v next i k =
    visited-Visited (stream_client cam v.oks v.on v.now v.answers v.shots) next
      (stream_client-LeavesIdle cam v.oks v.on v.now v.answers v.shots i) k
client_visit-Visited (pos n) cam v next i k =
    visited-Visited (stream_client cam v.oks v.on v.now v.answers v.shots) next
      (stream_client-LeavesIdle cam v.oks v.on v.now v.answers v.shots i) k

visit_loop-Visited :
    (cam : Camera) (visits : List Visit) → Idle cam → Visited (visit_loop cam visits)
unfolding visit_loop
visit_loop-Visited cam [] i = tt
visit_loop-Visited cam (v ∷ more) i =
    go v.running (client_visit-Visited v.client cam v _ i λ c j. visit_loop-Visited c more j)
  where
    rest : Option Camera
    rest = client_visit v.client cam v (λ c. visit_loop c more)

    go : (b : Bool) → Visited rest → Visited (if b then rest else some cam)
    go true h = h
    go false h = i

-- A run ends with a camera that holds what it should.
abbrev Ended : Option (Camera × ℕ) → Type 0
Ended none = Unit
Ended (some (cam, code)) = IsHeld cam

closed_held : (cam : Camera) → IsHeld cam → IsHeld (close_camera cam)
closed_held cam h = (IsClosed-Idle (close_camera cam) (close_camera-IsClosed cam h)).held

closing_camera-Ended : (o : Option Camera) → Visited o → Ended (closing_camera o)
unfolding closing_camera
closing_camera-Ended none v = tt
closing_camera-Ended (some cam) v = closed_held cam v.held

run_on-Ended :
    (running listened : Bool) (visits : List Visit) (o : Option (Camera × OpenEnd))
    → Tried o
    → Ended (run_on running listened visits o)
unfolding run_on
run_on-Ended running listened visits none t = tt
run_on-Ended running listened visits (some (cam, not_running)) t = t.held
run_on-Ended running listened visits (some (cam, interrupted)) t = t.held
run_on-Ended false listened visits (some (cam, camera_ready)) t = t.held
run_on-Ended true false visits (some (cam, camera_ready)) t = closed_held cam t.held
run_on-Ended true true visits (some (cam, camera_ready)) t =
    closing_camera-Ended (visit_loop cam visits) (visit_loop-Visited cam visits t)

-- The application has ended, with an exit code, and its camera is closed.
abbrev IsDone : Option (Camera × ℕ) → Type 0
IsDone none = Unit
IsDone (some (cam, code)) = IsClosed cam

destroyed-IsDone : (o : Option (Camera × ℕ)) → Ended o → IsDone (destroyed o)
unfolding destroyed
destroyed-IsDone none e = tt
destroyed-IsDone (some (cam, code)) e = close_camera-IsClosed cam e

new_camera-Idle : Idle new_camera
new_camera-Idle = record {
  held = record { owned = refl; held = refl; idle = λ e. refl };
  off = refl;
}

application-IsDone :
    (fps : ℤ) (tries : List Try) (running listened : Bool) (visits : List Visit)
    → AreEnough tries
    → IsDone (application fps tries running listened visits)
unfolding application run_whole
application-IsDone fps tries running listened visits e =
    destroyed-IsDone (run_whole new_camera fps tries running listened visits) (
      run_on-Ended running listened visits (try_loop new_camera fps tries)
        (try_loop-Tried new_camera fps tries e new_camera-Idle))

-- However a run of the application goes, over any tries to open the camera and any clients, and
-- whatever fails in them: once the application has ended and is destroyed, its camera is closed. The
-- descriptors and the mappings of buffers that it got have all been given back, each once, and it
-- does not stream. The driver has answered for each buffer that it says it has.
pub application-IsClosed :
    (fps : ℤ) (tries : List Try) (running listened : Bool) (visits : List Visit) (cam : Camera)
    (code : ℕ)
    → AreEnough tries
    → application fps tries running listened visits ≡ some (cam, code)
    → IsClosed cam
application-IsClosed fps tries running listened visits cam code e r =
    subst IsDone r (application-IsDone fps tries running listened visits e)
