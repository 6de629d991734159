-- ===== src/Camera/Held.antt =====
-- What the CameraManager holds: its descriptor and the mappings of its buffers.
use long.Base.{
  ◌≤◌, length, arith, ℕ, zero, suc, ◌≡◌, refl, sym, ap, subst, ◌∙◌, Bool, true, false, not, ◌||◌,
  List, [], ◌∷◌, ◌++◌, Option, none, some, if◌then◌else◌, ◌==◌, ==-refl,
}
use long.Handle.Owned.{IsOwned, close_handle-IsOwned, fd-close_handle}
use long.Camera.{
  Request, mapped, unmapped, queued, dequeued, stream_on, stream_off, Camera, has_fd,
  stop_streaming, unmap_all, unmap_buffers, close_camera, BufferAnswer, nones, map_loop,
}

-- The mappings of the buffers, in order.
abbrev pub addresses : List (Option ℕ) → List ℕ
addresses [] = []
addresses (none ∷ bs) = addresses bs
addresses (some a ∷ bs) = a ∷ addresses bs

-- The mappings that are left after a request, oldest first; `none` where it takes away one that is
-- not the oldest.
abbrev pub after : Option (List ℕ) → Request → Option (List ℕ)
after none r = none
after (some ps) (mapped a) = some (ps ++ (a ∷ []))
after (some []) (unmapped a) = none
after (some (x ∷ ps)) (unmapped a) = if x == a then some ps else none
after (some ps) (queued i) = some ps
after (some ps) (dequeued i) = some ps
after (some ps) stream_on = some ps
after (some ps) stream_off = some ps

abbrev pub mappings : List Request → Option (List ℕ)
mappings [] = some []
mappings (r ∷ earlier) = after (mappings earlier) r

-- The mappings are those of the buffers, and nothing is held without the descriptor.
pub record IsHeld (c : Camera) : Type 0 where
  pub owned : IsOwned c.handle
  pub held : mappings c.requests ≡ some (addresses c.buffers)
  pub idle : has_fd c ≡ false → c.streaming ≡ false

-- All is given back.
pub record IsClosed (c : Camera) : Type 0 where
  pub owned : IsOwned c.handle
  pub no_fd : c.handle.fd ≡ none
  pub released : mappings c.requests ≡ some []
  pub no_buffers : c.buffers ≡ []
  pub stopped : c.streaming ≡ false
  pub no_index : c.last_index ≡ none

mappings-unmap_all :
    (bs : List (Option ℕ)) (rs : List Request)
    → mappings rs ≡ some (addresses bs)
    → mappings (unmap_all bs rs) ≡ some []
unfolding unmap_all
mappings-unmap_all [] rs e = e
mappings-unmap_all (none ∷ bs) rs e = mappings-unmap_all bs rs e
mappings-unmap_all (some a ∷ bs) rs e = mappings-unmap_all bs (unmapped a ∷ rs) (
    ap (λ o. after o (unmapped a)) e
    ∙ ap (λ b. if b then some (addresses bs) else none) (==-refl a))

mappings-off :
    (rs : List Request) (ps : List ℕ) → mappings rs ≡ some ps → mappings (stream_off ∷ rs) ≡ some ps
mappings-off rs ps e = ap (λ o. after o stream_off) e

-- What `stopStreaming` leaves.
pub record Stopped (c c' : Camera) : Type 0 where
  pub stopped : c'.streaming ≡ false
  pub same_handle : c'.handle ≡ c.handle
  pub same_buffers : c'.buffers ≡ c.buffers
  pub held : mappings c'.requests ≡ some (addresses c.buffers)

already : (c : Camera) → IsHeld c → c.streaming ≡ false → Stopped c c
already c h e = record { stopped = e; same_handle = refl; same_buffers = refl; held = h.held }

not_streaming : (a b : Bool) → (a ≡ false → b ≡ false) → (not a || not b) ≡ true → b ≡ false
not_streaming a false h e = refl
not_streaming false true h e = h refl
not_streaming true true h e = absurd cc

pub stop_streaming-Stopped : (c : Camera) → IsHeld c → Stopped c (stop_streaming c)
unfolding stop_streaming
stop_streaming-Stopped c h = go (not (has_fd c) || not c.streaming) refl
  where
    off : Camera
    off = record c { streaming = false; last_index = none; requests = stream_off ∷ c.requests }

    go : (b : Bool) → (not (has_fd c) || not c.streaming) ≡ b → Stopped c (if b then c else off)
    go true e = already c h (not_streaming (has_fd c) c.streaming h.idle e)
    go false e = record {
      stopped = refl;
      same_handle = refl;
      same_buffers = refl;
      held = mappings-off c.requests (addresses c.buffers) h.held;
    }

before_unmap : (c : Camera) → IsHeld c → Stopped c (if c.streaming then stop_streaming c else c)
before_unmap c h = go c.streaming refl
  where
    go : (b : Bool) → c.streaming ≡ b → Stopped c (if b then stop_streaming c else c)
    go true e = stop_streaming-Stopped c h
    go false e = already c h e

-- `close` gives back all that the camera holds, whatever it was doing.
pub close_camera-IsClosed : (c : Camera) → IsHeld c → IsClosed (close_camera c)
unfolding close_camera unmap_buffers
close_camera-IsClosed c h =
    let s = if c.streaming then stop_streaming c else c in
    let k = before_unmap c h in
    record {
      owned = close_handle-IsOwned s.handle (subst IsOwned (sym k.same_handle) h.owned);
      no_fd = fd-close_handle s.handle;
      released =
          mappings-unmap_all s.buffers s.requests
            (k.held ∙ ap (λ t. some (addresses t)) (sym k.same_buffers));
      no_buffers = refl;
      stopped = k.stopped;
      no_index = refl;
    }

-- How `open` ends: with the descriptor and its mappings, or with nothing.
pub data Opened (c : Camera) (ok : Bool) : Type 0 where
  succeeded : ok ≡ true → has_fd c ≡ true → c.streaming ≡ false → IsHeld c → Opened c ok
  gave_up : ok ≡ false → IsClosed c → Opened c ok

abbrev pub OpensTo : Option (Camera × Bool) → Type 0
OpensTo none = ⊥
OpensTo (some (c, ok)) = Opened c ok

pub fails : (c : Camera) → IsHeld c → OpensTo (some (close_camera c, false))
fails c h = gave_up refl (close_camera-IsClosed c h)

addresses-nones : (done : List (Option ℕ)) (n : ℕ) → addresses (done ++ nones n) ≡ addresses done
addresses-nones [] zero = refl
addresses-nones [] (suc n) = addresses-nones [] n
addresses-nones (none ∷ done) n = addresses-nones done n
addresses-nones (some a ∷ done) n = ap (◌∷◌ a) (addresses-nones done n)

addresses-some :
    (done : List (Option ℕ)) (a : ℕ)
    → addresses (done ++ (some a ∷ [])) ≡ addresses done ++ (a ∷ [])
addresses-some [] a = refl
addresses-some (none ∷ done) a = addresses-some done a
addresses-some (some b ∷ done) a = ap (◌∷◌ b) (addresses-some done a)

-- With `done` mapped.
pub record Mapping (c : Camera) (done : List (Option ℕ)) : Type 0 where
  pub owned : IsOwned c.handle
  pub has : has_fd c ≡ true
  pub off : c.streaming ≡ false
  pub held : mappings c.requests ≡ some (addresses done)

held_with :
    (c : Camera) (done bs : List (Option ℕ))
    → Mapping c done
    → addresses bs ≡ addresses done
    → IsHeld (record c { buffers = bs })
held_with c done bs m e = record {
  owned = m.owned;
  held = m.held ∙ ap some (sym e);
  idle = λ t. m.off;
}

pub map_loop-OpensTo :
    (c : Camera) (done : List (Option ℕ)) (n : ℕ) (answers : List BufferAnswer)
    → n ≤ length answers
    → Mapping c done
    → OpensTo (map_loop c done n answers)
unfolding map_loop
map_loop-OpensTo c done zero answers l m = succeeded refl m.has m.off (held_with c done done m refl)
map_loop-OpensTo c done (suc n) [] l m = absurd (omega arith)
map_loop-OpensTo c done (suc n) (a ∷ answers) l m = go (not a.queried) a.address (λ p.
    map_loop-OpensTo (record c { requests = mapped p ∷ c.requests }) (done ++ (some p ∷ [])) n
      answers (omega arith)
      (record {
        owned = m.owned;
        has = m.has;
        off = m.off;
        held = ap (λ o. after o (mapped p)) m.held ∙ ap some (sym (addresses-some done p));
      }))
  where
    failed : Camera
    failed = record c { buffers = done ++ nones (suc n) }

    fail : OpensTo (some (close_camera failed, false))
    fail = fails failed (held_with c done _ m (addresses-nones done (suc n)))

    next : ℕ → Option (Camera × Bool)
    next p =
        map_loop (record c { requests = mapped p ∷ c.requests }) (done ++ (some p ∷ [])) n answers

    go :
        (b : Bool) (o : Option ℕ)
        → ((p : ℕ) → OpensTo (next p))
        → OpensTo (
            if b
            then some (close_camera failed, false)
            else elim o [ none ↦ some (close_camera failed, false) | some p ↦ next p ])
    go true o k = fail
    go false none k = fail
    go false (some p) k = k p
