-- ===== src/Ble/Gatt/Laws.antt =====
-- What the GAP and heart-rate callbacks of ble_sdk/btgatt-server.c keep.
use rockchip_1106_voice_agen.Prelude.{
  ℕ, zero, suc, ◌+◌, ◌-◌, ◌*◌, ◌≤◌, ◌<◌, min, ◌≡◌, refl, ap, true, List, [], ◌∷◌, ◌++◌, arith,
  length, take, drop, length-append, length-take,
}
use rockchip_1106_voice_agen.Ble.Server.{no_error}
use mathlib.Core.List.{append-nil}
use rockchip_1106_voice_agen.Ble.Gatt.{
  name_read, name_write, fresh_bytes, resize, overwrite, Heart, heart_tick,
}

drop-long : (n : ℕ) (xs : List ℕ) → length xs ≤ n → drop n xs ≡ []
drop-long zero [] h = refl
drop-long zero (x ∷ xs) h = absurd (omega arith)
drop-long (suc n) [] h = refl
drop-long (suc n) (x ∷ xs) h = drop-long n xs (omega arith)

take-take :
    (m n : ℕ) (xs ys : List ℕ) → m ≤ n → m ≤ length xs → take m (take n xs ++ ys) ≡ take m xs
take-take zero n xs ys h k = refl
take-take (suc m) zero xs ys h k = absurd (omega arith)
take-take (suc m) (suc n) [] ys h k = absurd (omega arith)
take-take (suc m) (suc n) (x ∷ xs) ys h k =
    ap (λ t. x ∷ t) (take-take m n xs ys (omega arith) (omega arith))

drop-take_append : (n : ℕ) (xs ys : List ℕ) → n ≤ length xs → drop n (take n xs ++ ys) ≡ ys
drop-take_append zero xs ys h = refl
drop-take_append (suc n) [] ys h = absurd (omega arith)
drop-take_append (suc n) (x ∷ xs) ys h = drop-take_append n xs ys (omega arith)

length-fresh_bytes : (fresh : ℕ → ℕ) (n : ℕ) → length (fresh_bytes fresh n) ≡ n
length-fresh_bytes fresh zero = refl
length-fresh_bytes fresh (suc n) = ap suc (length-fresh_bytes fresh n)

-- The name after a write that is accepted: what stood before the offset, and the value. In
-- particular no byte that realloc adds is left over, whatever it holds.
module _ (fresh : ℕ → ℕ) (name : List ℕ) (offset : ℕ) (value : List ℕ)
    (inside : offset ≤ length name) (some_byte : 0 < offset + length value) where
  length-written : length (take offset name ++ value) ≡ offset + length value
  length-written = omega (arith, length-append (take offset name) value, length-take offset name)

  overwrite-exact :
      offset + length value ≡ length name → overwrite offset value name ≡ take offset name ++ value
  overwrite-exact e = rw (drop-long (offset + length value) name (omega arith), append-nil)

  length-resize : length (resize fresh (offset + length value) name) ≤ offset + length value
  length-resize =
      let n = offset + length value in
      omega (
        arith,
        length-append (take n name) (fresh_bytes fresh (n - length name)),
        length-take n name,
        length-fresh_bytes fresh (n - length name),
      )

  overwrite-resized :
      overwrite offset value (resize fresh (offset + length value) name) ≡ take offset name ++ value
  overwrite-resized =
      rw
        (
          drop-long (offset + length value) (resize fresh (offset + length value) name)
              length-resize,
          append-nil,
          take-take offset (offset + length value) name
              (fresh_bytes fresh (offset + length value - length name)) (omega arith) inside,
        )
        refl

  pub name_write-accepted :
      name_write true fresh name offset value ≡ (take offset name ++ value, no_error)
  unfolding name_write
  name_write-accepted = ground (arith, overwrite-exact, overwrite-resized)

  -- If memory can be had, a value that is written to the device name at an offset inside it, and
  -- leaves it not empty, is read back from there.
  pub name_read-name_write :
      name_read (name_write true fresh name offset value).0 offset ≡ (value, no_error)
  unfolding name_read
  name_read-name_write =
      rw name_write-accepted
        (ground (arith, length-written, drop-take_append offset name value inside))

-- Any number of measurements from a reset: the energy grows by ten each and stops at the limit of
-- its 16 bits, and the counter of measurements by one each.
unfoldable pub heart_ticks : (ℕ → ℕ) → ℕ → Heart → Heart
heart_ticks val zero h = h
heart_ticks val (suc n) h = (heart_tick (val n) (heart_ticks val n h)).1

pub heart_ticks-energy :
    (val : ℕ → ℕ) (n : ℕ) (h : Heart)
    → h.energy ≡ 0
    → ((heart_ticks val n h).energy ≡ min 65535 (10 * n))
      × ((heart_ticks val n h).ee_count ≡ h.ee_count + n)
unfolding heart_ticks heart_tick
heart_ticks-energy val zero h e = omega arith
heart_ticks-energy val (suc n) h e = omega (arith, heart_ticks-energy val n h e)
