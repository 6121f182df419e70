-- ===== src/Audio/Capture.antt =====
-- The capture of src/audio_capture_rockit.c: the stash that turns the driver's frames into reads of
-- the wanted size. The driver is a list of the answers that RK_MPI_AI_GetFrame gives, and realloc a
-- test on the size; size_t has the 32 bits of the target.
pub mod Laws
pub mod Driver
use rockchip_1106_voice_agen.Prelude.Int.{ℤ}
use rockchip_1106_voice_agen.Prelude.{
  ℕ, zero, suc, ◌+◌, ◌-◌, ◌*◌, ◌/◌, ◌%◌, ◌^◌, ◌≤◌, ◌<◌, min, ◌≡◌, refl, sym, ap, ◌∙◌, ◌≢◌, ◌↔◌, ◌⊎◌,
  inl, inr, Bool, true, false, not, ◌&&◌, ◌||◌, Option, none, some, List, [], ◌∷◌, ◌++◌, map, arith,
  ltb, leb, ◌==◌, if◌then◌else◌, ltb→lt, lt→ltb, leb→le, ==_iff, Bool-cases, Option-cases, length,
  get_elem?, set, get_or, take, drop, replicate, length-append, length-set, length-take,
  length-drop, length-replicate, take-append-drop, take-length_append, drop-length_append,
  get_or-append_left, get_or-append_right, take-all, get_elem?-set_self, get_elem?-set_ne,
}

-- struct zh_audio_capture, as far as the reads use it: `stash` is the part in use, of `stash_len`
-- samples.
pub record Capture : Type 0 where
  pub stash : List ℤ
  pub stash_cap : ℕ

-- One answer of the driver.
pub data Fetch : Type 0 where
  not_ready : Fetch  -- one of the four codes after which the loop goes on
  failed : Fetch  -- another code
  unaddressed : List ℤ → Fetch  -- a frame with these samples, but no address for its block
  frame : List ℤ → Fetch  -- the samples of the one channel

-- How a read ends.
pub data Read : Type 0 where
  waiting : Read  -- the driver has given no further answer
  error : Read  -- -1
  got : List ℤ → Read

abbrev pub size_t : ℕ → ℕ
size_t n = n % 2 ^ 32

-- The doubling of zh_rk_stash_reserve. `fuel` bounds its rounds.
unfoldable pub grow : ℕ → ℕ → ℕ → ℕ
grow zero need cap = cap
grow (suc fuel) need cap =
    let more = grow fuel need (size_t (cap * 2)) in if ltb cap need then more else cap

-- zh_rk_stash_reserve: the state and whether there is room. `first_cap` is four frames.
unfoldable pub stash_reserve : ℕ → (ℕ → Bool) → ℕ → Capture → Capture × Bool
unfolding grow
stash_reserve first_cap alloc more c =
    let need = size_t (length c.stash + more) in
    if leb need c.stash_cap
    then (c, true)
    else (let cap = grow need need (if c.stash_cap == 0 then first_cap else c.stash_cap) in
        if alloc cap then (record c { stash_cap = cap }, true) else (c, false))

-- The copy of a frame: every sample twice.
unfoldable pub upmix : List ℤ → List ℤ
upmix [] = []
upmix (v ∷ src) = v ∷ v ∷ upmix src

-- The loop of zh_audio_capture_read: the state, whether it went on to the copy, and the answers that
-- are left. `none` is for an answer that does not come.
unfoldable pub fill_stash :
    ℕ → (ℕ → Bool) → ℕ → ℕ → List Fetch → Capture → Capture × Option Bool × List Fetch
unfolding upmix stash_reserve
fill_stash first_cap alloc need loops [] c =
    if ltb (length c.stash) need then (c, none, []) else (c, some true, [])
fill_stash first_cap alloc need loops (not_ready ∷ fs) c =
    let rest = fill_stash first_cap alloc need loops fs c in
    if ltb (length c.stash) need then rest else (c, some true, not_ready ∷ fs)
fill_stash first_cap alloc need loops (failed ∷ fs) c =
    if ltb (length c.stash) need then (c, some false, fs) else (c, some true, failed ∷ fs)
fill_stash first_cap alloc need loops (unaddressed src ∷ fs) c =
    if ltb (length c.stash) need then (c, some false, fs) else (c, some true, unaddressed src ∷ fs)
fill_stash first_cap alloc need loops (frame [] ∷ fs) c =
    if ltb (length c.stash) need then (c, some false, fs) else (c, some true, frame [] ∷ fs)
fill_stash first_cap alloc need loops (frame (v ∷ src) ∷ fs) c =
    let room = stash_reserve first_cap alloc (length (v ∷ src) * 2) c in
    let more : Capture = record (room.0) { stash = c.stash ++ upmix (v ∷ src) } in
    let rest = fill_stash first_cap alloc need (loops + 1) fs more in
    if ltb (length c.stash) need
    then if room.1
      then if ltb 8 (loops + 1) then (more, some true, fs) else rest
      else (c, some false, fs)
    else (c, some true, frame (v ∷ src) ∷ fs)

-- The copy to the caller, behind the loop.
unfoldable pub hand_out : ℕ → Capture × Option Bool × List Fetch → Capture × Read × List Fetch
hand_out samples (c, none, left) = (c, waiting, left)
hand_out samples (c, some false, left) = (c, error, left)
hand_out samples (c, some true, left) =
    if ltb (length c.stash) samples
    then (c, error, left)
    else (record c { stash = drop samples c.stash }, got (take samples c.stash), left)

-- zh_audio_capture_read
unfoldable pub capture_read :
    ℕ → (ℕ → Bool) → ℕ → List Fetch → Capture → Capture × Read × List Fetch
capture_read first_cap alloc samples fs c =
    if samples == 0
    then (c, error, fs)
    else hand_out samples (fill_stash first_cap alloc samples 0 fs c)
