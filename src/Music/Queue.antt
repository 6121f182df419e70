-- ===== src/Music/Queue.antt =====
-- The queue of the music player, src/music_player.c: what its entry points and its thread do to
-- `g_music` while they hold the mutex. The strings of the items are byte lists; the gain is a float
-- of which the queue only needs a comparison, so it is any type with its clamp.
pub mod Laws
use rockchip_1106_voice_agen.Text.{is_prefix, codes}
use rockchip_1106_voice_agen.Prelude.{
  ℕ, zero, suc, ◌+◌, ◌-◌, ◌*◌, ◌/◌, ◌%◌, ◌^◌, ◌≤◌, ◌<◌, min, ◌≡◌, refl, sym, ap, ◌∙◌, ◌≢◌, ◌↔◌, ◌⊎◌,
  inl, inr, Bool, true, false, not, ◌&&◌, ◌||◌, Option, none, some, List, [], ◌∷◌, ◌++◌, map, arith,
  ltb, leb, ◌==◌, if◌then◌else◌, ltb→lt, lt→ltb, leb→le, ==_iff, Bool-cases, Option-cases, length,
  get_elem?, set, get_or, take, drop, replicate, length-append, length-set, length-take,
  length-drop, length-replicate, take-append-drop, take-length_append, drop-length_append,
  get_or-append_left, get_or-append_right, take-all, get_elem?-set_self, get_elem?-set_ne,
}

-- zh_music_item_t
pub record Item (G : Type 0) : Type 0 where
  pub url : List ℕ
  pub gain : G

-- `g_music` and `g_music_stream_running`. The two linked lists are lists: `queue` from `head` on,
-- `pending` from `pending_head` on; `tail` and `pending_tail` are their last cells.
pub record Player (G : Type 0) : Type 0 where
  pub queue : List (Item G)
  pub pending : List (Item G)
  pub running : Bool
  pub stop : Bool
  pub playing : Bool
  pub token : ℕ  -- uint64_t
  pub stream_running : Bool

-- What the thread finds when it has the mutex at the head of its loop.
pub data Wake (G : Type 0) : Type 0 where
  quit : Wake G  -- `stop` is set
  sleep : Wake G  -- nothing to play: wait for the condition
  take_item : Item G → ℕ → Wake G  -- the item and the token under which it is played

-- zh_music_is_url
unfoldable pub is_url : List ℕ → Bool
unfolding is_prefix
is_url s = is_prefix (codes "http://") s || is_prefix (codes "https://") s

abbrev pub u64 : ℕ → ℕ
u64 n = n % 2 ^ 64

abbrev pub is_empty {ℓ} : {A : Type ℓ} → List A → Bool
is_empty [] = true
is_empty (_ ∷ _) = false

module _ {G : Type 0} where
  -- zh_music_clear_locked
  unfoldable pub clear : Player G → Player G
  clear p = record p { queue = []; pending = [] }

  -- zh_music_should_abort
  unfoldable pub should_abort : Player G → ℕ → Bool
  should_abort p token = p.stop || not (p.token == token)

  -- zh_music_player_start up to the thread: whether one is to be made.
  unfoldable pub start : Player G → Player G × Bool
  start p = if p.running then (p, false) else (record p { stop = false; running = true }, true)

  -- Its end, if pthread_create fails.
  unfoldable pub start_failed : Player G → Player G
  start_failed p = record p { running = false }

  -- zh_music_player_stop
  unfoldable pub stop_player : Player G → Player G
  unfolding clear
  stop_player p = clear (record p { stop = true; stream_running = false })

  -- zh_music_player_interrupt
  unfoldable pub interrupt : Player G → Player G
  unfolding clear
  interrupt p = record (clear (record p { token = u64 (p.token + 1); stream_running = false })) {
    playing = false;
  }

  -- zh_music_player_is_active
  unfoldable pub is_active : Player G → Bool
  is_active p = p.playing || not (is_empty p.queue) || not (is_empty p.pending)

  -- One round of the loop of zh_music_player_play_urls_with_gain, at index `i`. `none` is a NULL
  -- pointer in the array.
  unfoldable pub enqueue : G → ℕ → Option (List ℕ) → Player G → Player G
  enqueue gain i none p = p
  enqueue gain i (some []) p = p
  enqueue gain i (some (c ∷ cs)) p =
      let item : Item G = record { url = c ∷ cs; gain = gain } in
      if i == 0 && is_empty p.queue
      then record p { queue = item ∷ [] }
      else record p { pending = p.pending ++ (item ∷ []) }

  unfoldable pub enqueue_all : G → ℕ → List (Option (List ℕ)) → Player G → Player G
  unfolding enqueue
  enqueue_all gain i [] p = p
  enqueue_all gain i (u ∷ us) p = enqueue_all gain (i + 1) us (enqueue gain i u p)

  -- zh_music_player_play_urls_with_gain, with memory for every item. `clamp` is the test
  -- `if (gain < 0.0f) gain = 0.0f`.
  unfoldable pub play_urls : (G → G) → G → List (Option (List ℕ)) → Player G → Player G
  unfolding clear enqueue_all
  play_urls clamp gain [] p = p
  play_urls clamp gain (u ∷ us) p =
      enqueue_all (clamp gain) 0 (u ∷ us)
        (clear (record p { token = u64 (p.token + 1); stream_running = false }))

  -- The first pending item is moved to the queue, which is empty.
  unfoldable pub promote : Player G → Player G
  promote p = elim p.pending [
    | [] ↦ p
    | item ∷ rest ↦ record p { queue = item ∷ []; pending = rest }
  ]

  -- The head of the queue is taken.
  unfoldable pub dequeue : Player G → Player G × Wake G
  unfolding is_url
  dequeue p = elim p.queue [
    | [] ↦ (p, sleep)
    | item ∷ rest ↦ (
      record p { queue = rest; playing = true; stream_running = is_url item.url },
      take_item item p.token,
    )
  ]

  -- One look of zh_music_thread_main: from the lock to the unlock, or to the wait.
  unfoldable pub wake : Player G → Player G × Wake G
  unfolding promote dequeue
  wake p = if p.stop then (p, quit) else dequeue (if is_empty p.queue then promote p else p)

  -- The locked part at the end of a round.
  unfoldable pub finish_item : Player G → Player G
  unfolding promote
  finish_item p =
      let q = record p { stream_running = false } in
      if is_empty q.queue then record (promote q) { playing = false } else q
