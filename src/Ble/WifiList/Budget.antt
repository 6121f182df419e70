-- ===== src/Ble/WifiList/Budget.antt =====
-- The list of send_demo_wifi_list (ble_sdk/btgatt-server.c) keeps to the size of a notification.
use rockchip_1106_voice_agen.Prelude.{
  ℕ, ◌+◌, ◌-◌, ◌≤◌, ◌≡◌, ap, true, Option, none, some, List, [], ◌∷◌, arith, ltb, if◌then◌else◌,
  length, length-append,
}
use rockchip_1106_voice_agen.Ble.Frame.{packet, notify_packet}
use rockchip_1106_voice_agen.Ble.WifiList.{
  Ap, Scan, entry, fill, collect, sort_aps, wifi_list_json, max_aps,
}

fill-fits :
    (max_json json_len count : ℕ) (aps : List Ap)
    → json_len + 1 ≤ max_json
    → json_len + length (fill max_json json_len count aps).0 + 1 ≤ max_json
unfolding fill
fill-fits max_json json_len count [] h = omega arith
fill-fits max_json json_len count (ap ∷ aps) h = ground (
  arith,
  fill-fits max_json (json_len + length (entry count ap)) (count + 1) aps,
  length-append (entry count ap)
      (fill max_json (json_len + length (entry count ap)) (count + 1) aps).0,
)

abbrev pub clamped : ℕ → ℕ
clamped mtu = if ltb mtu 23 then 23 else mtu

json_length : (mtu : ℕ) (scan : Scan) → length (wifi_list_json mtu scan) + 12 ≤ clamped mtu
unfolding wifi_list_json
json_length mtu scan =
    let filled = fill (clamped mtu - 3 - 9) 1 0 (sort_aps (collect 0 scan.lines)) in
    ground (
      arith,
      fill-fits (clamped mtu - 3 - 9) 1 0 (sort_aps (collect 0 scan.lines)),
      length-append filled.0 (b']' ∷ []),
    )

-- At any MTU up to 771, whatever the scan finds, the text of the access points fits one
-- notification of the negotiated size: to a subscriber send_wifi_notify_packet sends it and does
-- not refuse it as too large.
pub wifi_list_json-notified :
    (mtu : ℕ) (scan : Scan)
    → mtu ≤ 771
    → notify_packet true mtu 0x1001 (wifi_list_json mtu scan)
      ≡ some (packet 0x1001 (wifi_list_json mtu scan))
unfolding notify_packet
wifi_list_json-notified mtu scan h = ground (arith, json_length mtu scan)

collect-capped :
    (total : ℕ) (lines : List (Option Ap))
    → total ≤ max_aps
    → total + length (collect total lines) ≤ max_aps
unfolding collect
collect-capped total [] h = omega arith
collect-capped total (none ∷ lines) h = ground (arith, collect-capped total lines)
collect-capped total (some ap ∷ lines) h =
    ground (arith, collect-capped total lines, collect-capped (total + 1) lines)

-- The array `aps[64]` is never written past its end, however many lines the scan has.
pub collect-within : (lines : List (Option Ap)) → length (collect 0 lines) ≤ max_aps
collect-within lines = omega (arith, collect-capped 0 lines (omega arith))
