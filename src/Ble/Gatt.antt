-- ===== src/Ble/Gatt.antt =====
-- The GAP and heart-rate callbacks of ble_sdk/btgatt-server.c.
pub mod Laws
pub mod Reads
use rockchip_1106_voice_agen.Prelude.{
  ℕ, zero, suc, ◌+◌, ◌-◌, ◌*◌, ◌/◌, ◌%◌, ◌^◌, ◌≤◌, ◌<◌, min, ◌≡◌, refl, sym, ap, ◌∙◌, ◌≢◌, ◌↔◌, ◌⊎◌,
  inl, inr, Bool, true, false, not, ◌&&◌, ◌||◌, Option, none, some, List, [], ◌∷◌, ◌++◌, map, arith,
  ltb, leb, ◌==◌, if◌then◌else◌, ltb→lt, lt→ltb, leb→le, ==_iff, Bool-cases, Option-cases, length,
  get_elem?, set, get_or, take, drop, replicate, length-append, length-set, length-take,
  length-drop, length-replicate, take-append-drop, take-length_append, drop-length_append,
  get_or-append_left, get_or-append_right, take-all, get_elem?-set_self, get_elem?-set_ne,
}
use rockchip_1106_voice_agen.Ble.Server.{
  AttError, no_error, invalid_length, invalid_offset, insufficient_resources, application_80,
}

-- `n` bytes of memory that nothing has written.
abbrev pub fresh_bytes : (ℕ → ℕ) → ℕ → List ℕ
fresh_bytes fresh zero = []
fresh_bytes fresh (suc n) = fresh n ∷ fresh_bytes fresh n

-- `realloc` to `n` bytes: those that it keeps, and for the new ones whatever they hold.
abbrev pub resize : (ℕ → ℕ) → ℕ → List ℕ → List ℕ
resize fresh n xs = take n xs ++ fresh_bytes fresh (n - length xs)

-- memcpy(xs + offset, value, len)
abbrev pub overwrite : ℕ → List ℕ → List ℕ → List ℕ
overwrite offset value xs = take offset xs ++ (value ++ drop (offset + length value) xs)

-- gap_device_name_read_cb: `device_name[0..name_len)` from `offset` on.
unfoldable pub name_read : List ℕ → ℕ → List ℕ × AttError
name_read name offset =
    if ltb (length name) offset then ([], invalid_offset) else (drop offset name, no_error)

-- gap_device_name_write_cb: the name after it. `grows` says whether realloc succeeds, `fresh` what
-- the memory that it adds holds.
unfoldable pub name_write : Bool → (ℕ → ℕ) → List ℕ → ℕ → List ℕ → List ℕ × AttError
name_write grows fresh name offset value =
    let n = offset + length value in
    if n == 0
    then ([], no_error)
    else if ltb (length name) offset
    then (name, invalid_offset)
    else if n == length name
    then (overwrite offset value name, no_error)
    else if not grows
    then (name, insufficient_resources)
    else (overwrite offset value (resize fresh n name), no_error)

-- The heart-rate part of `struct server`. `timers` counts the callbacks that run: timeout_add adds
-- one under the identifier that is kept, timeout_remove takes that one away if it still runs.
pub record Heart : Type 0 where
  pub visible : Bool
  pub enabled : Bool
  pub energy : ℕ  -- uint16_t
  pub ee_count : ℕ  -- int, never reset
  pub timers : ℕ
  pub timer_live : Bool

-- update_hr_msrmt_simulation
unfoldable pub update_simulation : Heart → Heart
update_simulation h =
    if not h.enabled || not h.visible
    then (if h.timer_live then record h { timers = h.timers - 1; timer_live = false } else h)
    else record h { timers = h.timers + 1; timer_live = true }

-- hr_msrmt_ccc_write_cb
unfoldable pub heart_ccc_write : Heart → ℕ → List ℕ → Heart × AttError
unfolding update_simulation
heart_ccc_write h offset value =
    let low = get_or value 0 0 in
    if not (length value == 2)
    then (h, invalid_length)
    else if not (offset == 0)
    then (h, invalid_offset)
    else if low == 0
    then (update_simulation (record h { enabled = false }), no_error)
    else if not (low == 1)
    then (update_simulation h, application_80)
    else if h.enabled
    then (h, no_error)
    else (update_simulation (record h { enabled = true }), no_error)

-- hr_msrmt_cb, at the random number `val`: the measurement that is sent, and the state after it.
unfoldable pub heart_tick : ℕ → Heart → List ℕ × Heart
heart_tick val h =
    let expended = h.ee_count % 10 == 0 in
    let flags = if expended then 0x0E else 0x06 in
    let energy = if expended then (h.energy % 256) ∷ (h.energy / 256 % 256) ∷ [] else [] in
    (
      flags ∷ ((90 + val % 40) ∷ energy),
      record h { energy = min 65535 (h.energy + 10); ee_count = h.ee_count + 1 },
    )

-- hr_control_point_write_cb
unfoldable pub heart_control : Heart → ℕ → List ℕ → Heart × AttError
heart_control h offset value =
    if not (length value == 1)
    then (h, invalid_length)
    else if not (offset == 0)
    then (h, invalid_offset)
    else if get_or value 0 0 == 1
    then (record h { energy = 0 }, no_error)
    else (h, no_error)
