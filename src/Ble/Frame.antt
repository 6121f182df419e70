-- ===== src/Ble/Frame.antt =====
-- The frames of the provisioning characteristic of ble_sdk/btgatt-server.c: send_wifi_notify_packet
-- builds one, wifi_write_cb and wifi_process_frames take them out of the receive buffer.
-- A frame is 4A 4C, a 16-bit length of command and payload, the command, the payload, a CRC over
-- what stands between 4A 4C and itself, and FF.
pub mod Bounds
pub mod RoundTrip
pub mod Stream
pub mod Chunks
use Prim.Native.Nat.{bit_or}
use rockchip_1106_voice_agen.Prelude.{
  ℕ, zero, suc, ◌+◌, ◌-◌, ◌*◌, ◌/◌, ◌%◌, List, [], ◌∷◌, ◌++◌, Option, none, some, Bool, not, ◌&&◌,
  ◌==◌, ltb, leb, if◌then◌else◌, length, get_or, take, drop,
}
use rockchip_1106_voice_agen.Ble.Crc.{crc16_xmodem}

-- WIFI_RX_BUF_MAX
abbrev pub rx_buf_max : ℕ
rx_buf_max = 1024

-- `sizeof(pkt)`
abbrev pub pkt_size : ℕ
pkt_size = 768

-- `(x >> 8) & 0xFF` and `x & 0xFF`
abbrev pub high_byte : ℕ → ℕ
high_byte x = x / 256 % 256

abbrev pub low_byte : ℕ → ℕ
low_byte x = x % 256

-- `((uint16_t)a << 8) | b` of two bytes
abbrev pub be16 : ℕ → ℕ → ℕ
be16 a b = bit_or (a * 256) b

-- The bytes before the checksum; `payload_len` is a uint16_t.
unfoldable pub packet_head : ℕ → List ℕ → List ℕ
packet_head cmd bytes =
    let payload_len = (2 + length bytes) % 65536 in
    0x4A
    ∷ 0x4C
    ∷ high_byte payload_len
    ∷ low_byte payload_len
    ∷ high_byte cmd
    ∷ low_byte cmd
    ∷ bytes

unfoldable pub packet : ℕ → List ℕ → List ℕ
unfolding packet_head
packet cmd bytes =
    let payload_len = (2 + length bytes) % 65536 in
    let crc = crc16_xmodem (take (payload_len + 2) (drop 2 (packet_head cmd bytes))) in
    packet_head cmd bytes ++ (high_byte crc ∷ low_byte crc ∷ 0xFF ∷ [])

-- What send_wifi_notify_packet hands to bt_gatt_server_send_notification; `none` where it returns
-- -1 before. `enabled` is `wifi_chngd_enabled`, `mtu` what bt_gatt_server_get_mtu returns.
unfoldable pub notify_packet : Bool → ℕ → ℕ → List ℕ → Option (List ℕ)
notify_packet enabled mtu cmd bytes =
    let frame_len = (2 + length bytes) % 65536 + 7 in
    let mtu' = if ltb mtu 23 then 23 else mtu in
    if not enabled
    then none
    else if ltb pkt_size frame_len
    then none
    else if ltb (mtu' - 3) frame_len
    then none
    else some (packet cmd bytes)

-- What one round of the loop of wifi_process_frames decides from `wifi_rx_buf[0..wifi_rx_len)`.
pub data RxStep : Type 0 where
  wait : RxStep  -- return, the buffer as it is
  reset : RxStep  -- empty the buffer and return
  skip : ℕ → RxStep  -- drop that many bytes and go on
  deliver : ℕ → List ℕ → ℕ → RxStep  -- handle the command and its payload, drop bytes, go on

-- A frame that is complete: the tests of its last byte and of its checksum. `p` is
-- `payload_plus_cmd_len`.
unfoldable pub check_frame : List ℕ → ℕ → RxStep
check_frame buf p =
    let frame_len = p + 7 in
    let crc_expect = be16 (get_or buf (frame_len - 3) 0) (get_or buf (frame_len - 2) 0) in
    let crc_actual = crc16_xmodem (take (p + 2) (drop 2 buf)) in
    if not (get_or buf (frame_len - 1) 0 == 0xFF)
    then skip frame_len
    else if not (crc_expect == crc_actual)
    then skip frame_len
    else deliver (be16 (get_or buf 4 0) (get_or buf 5 0))
        (if ltb 2 p then take (p - 2) (drop 6 buf) else []) frame_len

unfoldable pub rx_step : List ℕ → RxStep
unfolding check_frame
rx_step buf =
    let p = be16 (get_or buf 2 0) (get_or buf 3 0) in
    if ltb (length buf) 2
    then wait
    else if not (get_or buf 0 0 == 0x4A && get_or buf 1 0 == 0x4C)
    then skip 1
    else if ltb (length buf) 4
    then wait
    else if ltb rx_buf_max (p + 7)
    then reset
    else if ltb (length buf) (p + 7)
    then wait
    else check_frame buf p

-- The loop, over the state `S` that the command handler changes: the bytes left and that state.
-- `none` means that the fuel ran out.
module _ {S : Type 0} (handle : S → ℕ → List ℕ → S) where
  unfoldable pub process_frames : ℕ → List ℕ → S → Option (List ℕ × S)
  process_frames zero buf s = none
  process_frames (suc fuel) buf s = elim (rx_step buf) [
    | wait ↦ some (buf, s)
    | reset ↦ some ([], s)
    | skip n ↦ process_frames fuel (drop n buf) s
    | deliver cmd payload n ↦ process_frames fuel (drop n buf) (handle s cmd payload)
  ]

  -- wifi_write_cb; an empty `value` stands for no value too.
  unfoldable pub write_cb : List ℕ × S → ℕ → List ℕ → Option (List ℕ × S)
  unfolding process_frames
  write_cb (buf, s) offset [] = some (buf, s)
  write_cb (buf, s) offset (x ∷ xs) =
      if offset == 0 && leb (length buf + length (x ∷ xs)) rx_buf_max
      then process_frames (suc (length buf + length (x ∷ xs))) (buf ++ (x ∷ xs)) s
      else some ([], s)
