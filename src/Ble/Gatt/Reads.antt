-- ===== src/Ble/Gatt/Reads.antt =====
-- The callbacks of ble_sdk/btgatt-server.c that only read, and the subscription to changes of the
-- services. A read gives the bytes that it answers with.
use rockchip_1106_voice_agen.Text.{codes}
use rockchip_1106_voice_agen.Ble.Server.{
  AttError, no_error, invalid_length, invalid_offset, application_80,
}
use rockchip_1106_voice_agen.Ble.Gatt.{Heart, heart_ccc_write, update_simulation}
use rockchip_1106_voice_agen.Prelude.{
  ℕ, ◌≡◌, Bool, true, false, not, List, [], ◌∷◌, arith, ◌==◌, if◌then◌else◌, length, get_or,
}

-- wifi_read_cb
unfoldable pub wifi_read : List ℕ
wifi_read = codes "hello"

-- gap_device_name_ext_prop_read_cb, with BT_GATT_CHRC_EXT_PROP_RELIABLE_WRITE
unfoldable pub ext_prop_read : ℕ → List ℕ
ext_prop_read reliable_write = reliable_write ∷ 0 ∷ []

-- gatt_service_changed_cb
unfoldable pub service_changed_read : List ℕ
service_changed_read = []

-- gatt_svc_chngd_ccc_read_cb, for svc_chngd_enabled
unfoldable pub svc_chngd_ccc_read : Bool → List ℕ
svc_chngd_ccc_read enabled = (if enabled then 2 else 0) ∷ 0 ∷ []

-- gatt_svc_chngd_ccc_write_cb; `value` is `value[0..len)`, empty for no value.
unfoldable pub svc_chngd_ccc_write : Bool → ℕ → List ℕ → Bool × AttError
svc_chngd_ccc_write enabled offset value =
    let low = get_or value 0 0 in
    if not (length value == 2)
    then (enabled, invalid_length)
    else if not (offset == 0)
    then (enabled, invalid_offset)
    else if low == 0
    then (false, no_error)
    else if low == 2
    then (true, no_error)
    else (enabled, application_80)

-- hr_msrmt_ccc_read_cb
unfoldable pub heart_ccc_read : Heart → List ℕ
heart_ccc_read h = (if h.enabled then 1 else 0) ∷ 0 ∷ []

-- What a client reads from these two subscriptions it may write back, which changes neither.
pub subscriptions-read_back :
    (enabled : Bool) (h : Heart)
    → (svc_chngd_ccc_write enabled 0 (svc_chngd_ccc_read enabled) ≡ (enabled, no_error))
      × ((heart_ccc_write h 0 (heart_ccc_read h)).1 ≡ no_error)
      × ((heart_ccc_write h 0 (heart_ccc_read h)).0.enabled ≡ h.enabled)
unfolding svc_chngd_ccc_read svc_chngd_ccc_write heart_ccc_read heart_ccc_write update_simulation
subscriptions-read_back enabled h = ground arith
