-- ===== src/Music/Queue/Laws.antt =====
-- The queue of the music player (src/music_player.c) against a plain playlist.
use rockchip_1106_voice_agen.Prelude.{
  ℕ, ◌+◌, ◌^◌, ◌<◌, ◌≡◌, refl, sym, ◌∙◌, ◌≢◌, Bool, true, false, ◌&&◌, Option, none, some, List, [],
  ◌∷◌, ◌++◌, arith, ◌==◌, if◌then◌else◌,
}
use mathlib.Core.List.{append-nil, append_assoc}
use rockchip_1106_voice_agen.Music.Queue.{
  Item, Player, u64, is_empty, Wake, quit, sleep, take_item, clear, should_abort, start,
  stop_player, interrupt, is_active, enqueue, enqueue_all, play_urls, promote, dequeue, wake,
  finish_item,
}

token-fresh : (n : ℕ) → n < 2 ^ 64 → (u64 (n + 1) == n) ≡ false
token-fresh n h = ground arith

module _ {G : Type 0} where
  -- What is still to be played, in order.
  abbrev pub playlist : Player G → List (Item G)
  playlist p = p.queue ++ p.pending

  -- The items of an array of URLs: those that are there and not empty.
  abbrev pub items : G → List (Option (List ℕ)) → List (Item G)
  items gain [] = []
  items gain (none ∷ us) = items gain us
  items gain (some [] ∷ us) = items gain us
  items gain (some (c ∷ cs) ∷ us) = record { url = c ∷ cs; gain = gain } ∷ items gain us

  -- `i == 0 && !head` puts an item in front only of an empty list.
  abbrev OneAhead : ℕ → Player G → Type 0
  OneAhead i p = i ≡ 0 → playlist p ≡ []

  enqueue-later :
      (gain : G) (i : ℕ) (u : List ℕ) (p : Player G)
      → i ≢ 0
      → playlist (enqueue gain i (some u) p) ≡ playlist p ++ items gain (some u ∷ [])
  unfolding enqueue
  enqueue-later gain i [] p h = sym (append-nil (playlist p))
  enqueue-later gain i (c ∷ cs) p h =
      ground (arith, append_assoc p.queue p.pending (record { url = c ∷ cs; gain = gain } ∷ []))

  enqueue_all-later :
      (gain : G) (i : ℕ) (us : List (Option (List ℕ))) (p : Player G)
      → i ≢ 0
      → playlist (enqueue_all gain i us p) ≡ playlist p ++ items gain us
  unfolding enqueue_all
  enqueue_all-later gain i [] p h = sym (append-nil (playlist p))
  enqueue_all-later gain i (none ∷ us) p h =
      unfold enqueue in enqueue_all-later gain (i + 1) us p (λ e. omega arith)
  enqueue_all-later gain i (some [] ∷ us) p h =
      unfold enqueue in enqueue_all-later gain (i + 1) us p (λ e. omega arith)
  enqueue_all-later gain i (some (c ∷ cs) ∷ us) p h = rw (
    enqueue_all-later gain (i + 1) us (enqueue gain i (some (c ∷ cs)) p) (λ e. omega arith),
    enqueue-later gain i (c ∷ cs) p h,
    append_assoc (playlist p) (items gain (some (c ∷ cs) ∷ [])) (items gain us),
  )

  enqueue-first :
      (gain : G) (c : ℕ) (cs : List ℕ) (p : Player G)
      → p.queue ≡ []
      → p.pending ≡ []
      → playlist (enqueue gain 0 (some (c ∷ cs)) p) ≡ items gain (some (c ∷ cs) ∷ [])
  unfolding enqueue
  enqueue-first gain c cs p q r = rw (q, r)

  enqueue_all-first :
      (gain : G) (us : List (Option (List ℕ))) (p : Player G)
      → p.queue ≡ []
      → p.pending ≡ []
      → playlist (enqueue_all gain 0 us p) ≡ items gain us
  unfolding enqueue_all
  enqueue_all-first gain [] p q r = rw (q, r)
  enqueue_all-first gain (none ∷ us) p q r =
      unfold enqueue in rw (enqueue_all-later gain 1 us p (λ e. omega arith), q, r)
  enqueue_all-first gain (some [] ∷ us) p q r =
      unfold enqueue in rw (enqueue_all-later gain 1 us p (λ e. omega arith), q, r)
  enqueue_all-first gain (some (c ∷ cs) ∷ us) p q r = rw (
    enqueue_all-later gain 1 us (enqueue gain 0 (some (c ∷ cs)) p) (λ e. omega arith),
    enqueue-first gain c cs p q r,
  )

  -- A request replaces what was waiting: afterwards the playlist is the URLs of the array that are
  -- there and not empty, in their order and with the clamped gain. An empty array leaves the player
  -- as it was, its playlist too.
  pub play_urls-playlist :
      (clamp : G → G) (gain : G) (us : List (Option (List ℕ))) (p : Player G)
      → (playlist (play_urls clamp gain us p)
          ≡ (if is_empty us then playlist p else items (clamp gain) us))
        × (play_urls clamp gain [] p ≡ p)
  unfolding play_urls clear
  play_urls-playlist clamp gain [] p = (refl, refl)
  play_urls-playlist clamp gain (u ∷ us) p = (
    enqueue_all-first (clamp gain) (u ∷ us)
        (clear (record p { token = u64 (p.token + 1); stream_running = false })) refl refl,
    refl,
  )

  -- A look of the thread, by the playlist.
  abbrev pub Wakes : Player G → Player G × Wake G → List (Item G) → Type 0
  Wakes p r [] = (r.0 ≡ p) × (r.1 ≡ (if p.stop then quit else sleep))
  Wakes p r (item ∷ rest) =
      (r.1 ≡ (if p.stop then quit else take_item item p.token))
      × (playlist (r.0) ≡ (if p.stop then item ∷ rest else rest))

  wake-parts :
      (q r : List (Item G)) (running stop playing : Bool) (token : ℕ) (stream : Bool)
      → let p : Player G = record {
        queue = q;
        pending = r;
        running = running;
        stop = stop;
        playing = playing;
        token = token;
        stream_running = stream;
      } in
        Wakes p (wake p) (q ++ r)
  unfolding wake promote dequeue
  wake-parts [] [] running true playing token stream = (refl, refl)
  wake-parts [] [] running false playing token stream = (refl, refl)
  wake-parts [] (x ∷ r) running true playing token stream = (refl, refl)
  wake-parts [] (x ∷ r) running false playing token stream = (refl, refl)
  wake-parts (x ∷ q) r running true playing token stream = (refl, refl)
  wake-parts (x ∷ q) r running false playing token stream = (refl, refl)

  finish_item-parts :
      (q r : List (Item G)) (running stop playing : Bool) (token : ℕ) (stream : Bool)
      → playlist (
          finish_item (record {
            queue = q;
            pending = r;
            running = running;
            stop = stop;
            playing = playing;
            token = token;
            stream_running = stream;
          }))
        ≡ q ++ r
  unfolding finish_item promote
  finish_item-parts [] [] running stop playing token stream = refl
  finish_item-parts [] (x ∷ r) running stop playing token stream = refl
  finish_item-parts (x ∷ q) r running stop playing token stream = refl

  -- What the thread finds is what the playlist says: it quits if the player is stopped, with the
  -- playlist as it was; else it sleeps if the playlist is empty, and otherwise takes the first
  -- item, under the token of this moment, leaving the others in order.
  pub wake-playlist : (p : Player G) → Wakes p (wake p) (playlist p)
  wake-playlist p = wake-parts p.queue p.pending p.running p.stop p.playing p.token p.stream_running

  -- The end of a round neither loses nor reorders an item.
  pub finish_item-playlist : (p : Player G) → playlist (finish_item p) ≡ playlist p
  finish_item-playlist p =
      finish_item-parts p.queue p.pending p.running p.stop p.playing p.token p.stream_running

  abbrev SameControl : Player G → Player G → Type 0
  SameControl p q = (q.stop ≡ p.stop) × (q.token ≡ p.token)

  ite-SameControl :
      (b : Bool) (p q r : Player G)
      → SameControl p q
      → SameControl p r
      → SameControl p (if b then q else r)
  ite-SameControl true p q r h k = h
  ite-SameControl false p q r h k = k

  enqueue-SameControl :
      (gain : G) (i : ℕ) (u : Option (List ℕ)) (p : Player G) → SameControl p (enqueue gain i u p)
  unfolding enqueue
  enqueue-SameControl gain i none p = (refl, refl)
  enqueue-SameControl gain i (some []) p = (refl, refl)
  enqueue-SameControl gain i (some (c ∷ cs)) p =
      ite-SameControl (i == 0 && is_empty p.queue) p
        (record p { queue = record { url = c ∷ cs; gain = gain } ∷ [] })
        (record p { pending = p.pending ++ (record { url = c ∷ cs; gain = gain } ∷ []) })
        (refl, refl) (refl, refl)

  enqueue_all-SameControl :
      (gain : G) (i : ℕ) (us : List (Option (List ℕ))) (p : Player G)
      → SameControl p (enqueue_all gain i us p)
  unfolding enqueue_all
  enqueue_all-SameControl gain i [] p = (refl, refl)
  enqueue_all-SameControl gain i (u ∷ us) p =
      let (a, b) = enqueue_all-SameControl gain (i + 1) us (enqueue gain i u p) in
      let (c, d) = enqueue-SameControl gain i u p in (a ∙ c, b ∙ d)

  play_urls-stop :
      (clamp : G → G) (gain : G) (us : List (Option (List ℕ))) (p : Player G)
      → (play_urls clamp gain us p).stop ≡ p.stop
  unfolding play_urls clear
  play_urls-stop clamp gain [] p = refl
  play_urls-stop clamp gain (u ∷ us) p =
      (enqueue_all-SameControl (clamp gain) 0 (u ∷ us)
        (clear (record p { token = u64 (p.token + 1); stream_running = false }))).0

  wake-quits : (p : Player G) → p.stop ≡ true → (wake p).1 ≡ quit
  unfolding wake
  wake-quits p h = rw h

  -- After a stop a player that ran stays stopped: a new start makes no thread and changes nothing,
  -- the thread quits at its next look whatever is asked for, and every play that is under way is
  -- to break off.
  pub stop_player-final :
      (clamp : G → G) (gain : G) (us : List (Option (List ℕ))) (p : Player G) (token : ℕ)
      → p.running ≡ true
      → (start (stop_player p) ≡ (stop_player p, false))
        × ((wake (play_urls clamp gain us (start (stop_player p)).0)).1 ≡ quit)
        × (should_abort (stop_player p) token ≡ true)
  unfolding start stop_player clear should_abort
  stop_player-final clamp gain us p token h = (
    rw h,
    wake-quits (play_urls clamp gain us ((start (stop_player p)).0))
        (play_urls-stop clamp gain us ((start (stop_player p)).0) ∙ rw h),
    refl,
  )

  should_abort-fresh :
      (p q : Player G)
      → p.token < 2 ^ 64
      → q.token ≡ u64 (p.token + 1)
      → should_abort q p.token ≡ true
  unfolding should_abort
  should_abort-fresh p q h e =
      let fresh : (q.token == p.token) ≡ false = rw (e, token-fresh p.token h) in
      ground (arith, fresh)

  -- An interrupt or a request with an array that is not empty tells the item that is playing to
  -- break off, under a token of 64 bits, and after an interrupt the player is not active.
  pub interrupt-aborts :
      (clamp : G → G) (gain : G) (u : Option (List ℕ)) (us : List (Option (List ℕ))) (p : Player G)
      → p.token < 2 ^ 64
      → (should_abort (interrupt p) p.token ≡ true)
        × (should_abort (play_urls clamp gain (u ∷ us) p) p.token ≡ true)
        × (is_active (interrupt p) ≡ false)
  unfolding interrupt clear is_active play_urls
  interrupt-aborts clamp gain u us p h = (
    should_abort-fresh p (interrupt p) h refl,
    should_abort-fresh p (play_urls clamp gain (u ∷ us) p) h (
        (enqueue_all-SameControl (clamp gain) 0 (u ∷ us)
          (clear (record p { token = u64 (p.token + 1); stream_running = false }))).1),
    refl,
  )
