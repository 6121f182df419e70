-- ===== src/Ble/Frame/RoundTrip.antt =====
-- A frame that send_wifi_notify_packet builds is taken out of the buffer whole, with its command and
-- payload, by wifi_process_frames; one with a corrupted byte is not handled.
use mathlib.Core.List.{append_assoc}
use rockchip_1106_voice_agen.Prelude.{
  ℕ, suc, ◌+◌, ◌-◌, ◌%◌, ◌≤◌, ◌<◌, ◌≡◌, refl, sym, ap, ◌∙◌, ◌≢◌, inl, inr, false, List, [], ◌∷◌,
  ◌++◌, arith, ltb, ◌==◌, if◌then◌else◌, ==_iff, Bool-cases, length, set, get_or, take, drop,
  length-append, take-length_append, drop-length_append, get_or-append_right, take-all,
}
use rockchip_1106_voice_agen.Prelude.Bits.{bit_or_bytes}
use rockchip_1106_voice_agen.Ble.Crc.{crc16_xmodem}
use rockchip_1106_voice_agen.Ble.Crc.Laws.{IsBytes, crc16_xmodem-lt, crc16_xmodem_detects_byte}
use rockchip_1106_voice_agen.Ble.Frame.{
  high_byte, low_byte, be16, packet, skip, deliver, check_frame, rx_step, process_frames,
  rx_buf_max,
}
use rockchip_1106_voice_agen.Ble.Frame.Bounds.{process-skip, process-deliver}

-- The bytes `4A 4C h l tail k1 k0 FF rest`, where `h l` is the length of `tail`.
module _ (h l : ℕ) (tail : List ℕ) (k1 k0 : ℕ) (rest : List ℕ) where
  abbrev pub framed : List ℕ
  framed = 0x4A ∷ 0x4C ∷ h ∷ l ∷ (tail ++ (k1 ∷ k0 ∷ 0xFF ∷ rest))

  length-framed : length framed ≡ length tail + 7 + length rest
  length-framed = omega (arith, length-append tail (k1 ∷ k0 ∷ 0xFF ∷ rest))

  get_or-framed :
      (j i : ℕ) → j ≡ length tail + 4 + i → get_or framed j 0 ≡ get_or (k1 ∷ k0 ∷ 0xFF ∷ rest) i 0
  get_or-framed j i p =
      let e : j ≡ suc (suc (suc (suc (length tail + i)))) = omega arith in
      rw e (get_or-append_right tail (k1 ∷ k0 ∷ 0xFF ∷ rest) i 0)

  covered-framed : take (length tail + 2) (drop 2 framed) ≡ h ∷ l ∷ tail
  covered-framed =
      let e : length tail + 2 ≡ suc (suc (length tail)) = omega arith in
      rw e (ap (λ t. h ∷ l ∷ t) (take-length_append tail (k1 ∷ k0 ∷ 0xFF ∷ rest)))

  drop-framed : drop (length tail + 7) framed ≡ rest
  drop-framed =
      let sealed = tail ++ (k1 ∷ k0 ∷ 0xFF ∷ []) in
      let e : length tail + 7 ≡ suc (suc (suc (suc (length sealed)))) =
        omega (arith, length-append tail (k1 ∷ k0 ∷ 0xFF ∷ [])) in
      ap (λ n. drop n framed) e
      ∙ ap (λ t. drop (length sealed) t) (sym (append_assoc tail (k1 ∷ k0 ∷ 0xFF ∷ []) rest))
      ∙ drop-length_append sealed rest

  module _ (e : be16 h l ≡ length tail) (fits : length tail + 7 ≤ rx_buf_max) where
    rx_step-framed_check : rx_step framed ≡ check_frame framed (length tail)
    unfolding rx_step
    rx_step-framed_check = rw e (ground (arith, length-framed))

    check_frame-framed : check_frame framed (length tail) ≡ (
        if be16 k1 k0 == crc16_xmodem (h ∷ l ∷ tail)
        then deliver
            (be16 (get_or framed 4 0) (get_or framed 5 0))
            (if ltb 2 (length tail) then take (length tail - 2) (drop 6 framed) else [])
            (length tail + 7)
        else skip (length tail + 7))
    unfolding check_frame
    check_frame-framed =
        rw
          (
            get_or-framed (length tail + 7 - 3) 0 (omega arith),
            get_or-framed (length tail + 7 - 2) 1 (omega arith),
            get_or-framed (length tail + 7 - 1) 2 (omega arith),
            covered-framed,
          )
          (ground arith)

be16-bytes : (x : ℕ) → x < 65536 → be16 (high_byte x) (low_byte x) ≡ x
be16-bytes x h = omega (arith, bit_or_bytes (high_byte x) (low_byte x) (omega arith))

-- The part of a packet that its checksum covers.
abbrev covered : ℕ → List ℕ → List ℕ
covered cmd bytes =
    high_byte (2 + length bytes)
    ∷ low_byte (2 + length bytes)
    ∷ high_byte cmd
    ∷ low_byte cmd
    ∷ bytes

abbrev checksum : ℕ → List ℕ → ℕ
checksum cmd bytes = crc16_xmodem (covered cmd bytes)

-- A packet that fits the receive buffer, as `framed`.
packet-framed :
    (cmd : ℕ) (bytes : List ℕ)
    → length bytes + 9 ≤ rx_buf_max
    → packet cmd bytes
      ≡ framed
          (high_byte (2 + length bytes))
          (low_byte (2 + length bytes))
          (high_byte cmd ∷ low_byte cmd ∷ bytes)
          (high_byte (checksum cmd bytes))
          (low_byte (checksum cmd bytes))
          []
unfolding packet
packet-framed cmd bytes fits =
    let small : (2 + length bytes) % 65536 ≡ 2 + length bytes = omega arith in
    rw (small, take-all (2 + length bytes + 2) (covered cmd bytes) (omega arith))

pub length-packet :
    (cmd : ℕ) (bytes : List ℕ)
    → length bytes + 9 ≤ rx_buf_max
    → length (packet cmd bytes) ≡ length bytes + 9
length-packet cmd bytes fits = rw (packet-framed cmd bytes fits) (
    omega (
      arith,
      length-append bytes
          (high_byte (checksum cmd bytes) ∷ low_byte (checksum cmd bytes) ∷ 0xFF ∷ []),
    ))

module _ (cmd : ℕ) (bytes rest : List ℕ) (cmd16 : cmd < 65536)
    (fits : length bytes + 9 ≤ rx_buf_max) where
  packet-append :
      packet cmd bytes ++ rest
      ≡ framed
          (high_byte (2 + length bytes))
          (low_byte (2 + length bytes))
          (high_byte cmd ∷ low_byte cmd ∷ bytes)
          (high_byte (checksum cmd bytes))
          (low_byte (checksum cmd bytes))
          rest
  packet-append = rw (packet-framed cmd bytes fits, append_assoc bytes)

  -- The payload that the receiver cuts out.
  payload-packet :
      (k1 k0 : ℕ)
      → (if ltb 2 (2 + length bytes)
          then take (2 + length bytes - 2) (bytes ++ (k1 ∷ k0 ∷ 0xFF ∷ rest))
          else [])
        ≡ bytes
  payload-packet k1 k0 = elim (Bool-cases (ltb 2 (2 + length bytes))) [
    | inl t ↦
        let e : 2 + length bytes - 2 ≡ length bytes = omega arith in
        rw (t, e) (take-length_append bytes (k1 ∷ k0 ∷ 0xFF ∷ rest))
    | inr t ↦ rw t (sym (empty bytes (ground arith)))
  ]
    where
      empty : (zs : List ℕ) → length zs ≡ 0 → zs ≡ []
      empty [] h = refl
      empty (z ∷ zs) h = absurd (omega arith)

  rx_step-packet : rx_step (packet cmd bytes ++ rest) ≡ deliver cmd bytes (length bytes + 9)
  rx_step-packet =
      let h = high_byte (2 + length bytes) in
      let l = low_byte (2 + length bytes) in
      let tail = high_byte cmd ∷ low_byte cmd ∷ bytes in
      let crc = checksum cmd bytes in
      let k1 = high_byte crc in
      let k0 = low_byte crc in
      let e : be16 h l ≡ length tail = be16-bytes (2 + length bytes) (omega arith) ∙ omega arith in
      let s : length tail + 7 ≡ length bytes + 9 = omega arith in
      let two : suc (suc (length bytes)) ≡ 2 + length bytes = omega arith in
      rw packet-append (
        rx_step-framed_check h l tail k1 k0 rest e (omega arith)
        ∙ check_frame-framed h l tail k1 k0 rest e (omega arith)
        ∙ rw
            (
              be16-bytes crc (crc16_xmodem-lt (covered cmd bytes)),
              (==_iff crc crc).1 refl,
              be16-bytes cmd cmd16,
              two,
              payload-packet k1 k0,
            )
            (ap (λ n. deliver cmd bytes n) (omega arith)))

  drop-packet : drop (length bytes + 9) (packet cmd bytes ++ rest) ≡ rest
  drop-packet =
      let tail = high_byte cmd ∷ low_byte cmd ∷ bytes in
      let s : length bytes + 9 ≡ length tail + 7 = omega arith in
      rw (packet-append, s)
        (drop-framed (high_byte (2 + length bytes)) (low_byte (2 + length bytes)) tail
          (high_byte (checksum cmd bytes)) (low_byte (checksum cmd bytes)) rest)

  -- What send_wifi_notify_packet builds, at the head of the receive buffer and whatever follows, is
  -- handed to the command handler with its command and its payload, and taken off the buffer.
  pub process_frames-packet :
      {S : Type 0} (handle : S → ℕ → List ℕ → S) (fuel : ℕ) (s : S)
      → process_frames handle (suc fuel) (packet cmd bytes ++ rest) s
        ≡ process_frames handle fuel rest (handle s cmd bytes)
  process_frames-packet handle fuel s =
      process-deliver handle fuel (packet cmd bytes ++ rest) s rx_step-packet
      ∙ ap (λ t. process_frames handle fuel t (handle s cmd bytes)) drop-packet

set-append : (xs ys : List ℕ) (a b : ℕ) → set (xs ++ (a ∷ ys)) (length xs) b ≡ xs ++ (b ∷ ys)
set-append [] ys a b = refl
set-append (x ∷ xs) ys a b = ap (λ t. x ∷ t) (set-append xs ys a b)

module _ (cmd a b : ℕ) (xs ys rest : List ℕ) (fits : length (xs ++ (a ∷ ys)) + 9 ≤ rx_buf_max)
    (a8 : a < 256) (b8 : b < 256) (bytes : IsBytes ys) (changed : a ≢ b) where
  abbrev sent : List ℕ
  sent = xs ++ (a ∷ ys)

  abbrev got : List ℕ
  got = xs ++ (b ∷ ys)

  abbrev pub corrupted : List ℕ
  corrupted = set (packet cmd (xs ++ (a ∷ ys))) (6 + length xs) b ++ rest

  length-got : length got ≡ length sent
  length-got = omega (arith, length-append xs (a ∷ ys), length-append xs (b ∷ ys))

  abbrev crc_sent : ℕ
  crc_sent = checksum cmd sent

  corrupted-framed :
      corrupted
      ≡ framed
          (high_byte (2 + length sent))
          (low_byte (2 + length sent))
          (high_byte cmd ∷ low_byte cmd ∷ got)
          (high_byte crc_sent)
          (low_byte crc_sent)
          rest
  corrupted-framed =
      let tail = high_byte crc_sent ∷ low_byte crc_sent ∷ 0xFF ∷ [] in
      let e : 6 + length xs ≡ suc (suc (suc (suc (suc (suc (length xs)))))) = omega arith in
      rw
        (
          packet-framed cmd sent fits,
          e,
          append_assoc xs (a ∷ ys) tail,
          set-append xs (ys ++ tail) a b,
          append_assoc xs (b ∷ (ys ++ tail)) rest,
          append_assoc ys tail rest,
          append_assoc xs (b ∷ ys),
        )
        refl

  checksum-differs :
      (be16 (high_byte crc_sent) (low_byte crc_sent)
        == crc16_xmodem (
            high_byte (2 + length sent)
            ∷ low_byte (2 + length sent)
            ∷ high_byte cmd
            ∷ low_byte cmd
            ∷ got))
      ≡ false
  checksum-differs =
      let pre =
        high_byte (2 + length sent)
        ∷ low_byte (2 + length sent)
        ∷ high_byte cmd
        ∷ low_byte cmd
        ∷ xs in
      let read : be16 (high_byte crc_sent) (low_byte crc_sent) ≡ crc_sent =
        be16-bytes crc_sent (crc16_xmodem-lt (covered cmd sent)) in
      rw read (elim (Bool-cases (crc_sent == crc16_xmodem (pre ++ (b ∷ ys)))) [
        | inl same ↦ absurd (
            changed (crc16_xmodem_detects_byte pre ys a b a8 b8 bytes ((==_iff crc_sent _).0 same)))
        | inr other ↦ other
      ])

  rx_step-corrupted : rx_step corrupted ≡ skip (length sent + 9)
  rx_step-corrupted =
      let h = high_byte (2 + length sent) in
      let l = low_byte (2 + length sent) in
      let tail = high_byte cmd ∷ low_byte cmd ∷ got in
      let k1 = high_byte crc_sent in
      let k0 = low_byte crc_sent in
      let e : be16 h l ≡ length tail =
        be16-bytes (2 + length sent) (omega arith) ∙ omega (arith, length-got) in
      rw corrupted-framed (
        rx_step-framed_check h l tail k1 k0 rest e (omega (arith, length-got))
        ∙ check_frame-framed h l tail k1 k0 rest e (omega (arith, length-got))
        ∙ rw checksum-differs (ap skip (omega (arith, length-got))))

  drop-corrupted : drop (length sent + 9) corrupted ≡ rest
  drop-corrupted =
      let tail = high_byte cmd ∷ low_byte cmd ∷ got in
      let e : length sent + 9 ≡ length tail + 7 = omega (arith, length-got) in
      rw (corrupted-framed, e)
        (drop-framed (high_byte (2 + length sent)) (low_byte (2 + length sent)) tail
          (high_byte crc_sent) (low_byte crc_sent) rest)

  -- A packet of bytes that fits the receive buffer, one of whose payload bytes has changed on the
  -- way, is dropped whole by wifi_process_frames: the handler is not called for it, and the bytes
  -- behind it are looked at next.
  pub process_frames-corrupted :
      {S : Type 0} (handle : S → ℕ → List ℕ → S) (fuel : ℕ) (s : S)
      → process_frames handle (suc fuel) corrupted s ≡ process_frames handle fuel rest s
  process_frames-corrupted handle fuel s =
      process-skip handle fuel corrupted s rx_step-corrupted
      ∙ ap (λ t. process_frames handle fuel t s) drop-corrupted
