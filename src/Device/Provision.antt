-- ===== src/Device/Provision.antt =====
-- The start of the Bluetooth provisioning, src/ble_provision.c. The environment, the file system and
-- the processes are answers.
use rockchip_1106_voice_agen.Text.{codes, copy_str}
use rockchip_1106_voice_agen.Device.Identity.{get_config, AreBytes, get_config-device_id}
use rockchip_1106_voice_agen.Prelude.{
  ℕ, ◌≡◌, Bool, false, not, ◌&&◌, Option, none, some, List, [], ◌∷◌, ◌++◌, arith, ◌==◌,
  if◌then◌else◌, length, take-all,
}

-- zh_ble_script_path: ZH_BLE_PROVISION_SCRIPT, and whether the installed script can be executed.
unfoldable pub script_path : Option (List ℕ) → Bool → List ℕ
script_path env installed =
    let other =
      if installed
      then codes "/data/zh_work/start_ble_provision.sh"
      else codes "scripts/self_start/start_ble_provision.sh" in
    elim env [ none ↦ other | some e ↦ if length e == 0 then other else e ]

-- The name that the device announces, in 32 bytes.
unfoldable pub provision_name : List ℕ → List ℕ
provision_name device_id =
    if length device_id == 0 then codes "zh_unknown" else copy_str 32 (codes "zh_" ++ device_id)

-- The answers of access, fork, waitpid and the status of the script.
pub record Provisioning : Type 0 where
  pub executable : Bool
  pub forked : Bool
  pub waited : Bool
  pub exit_zero : Bool  -- WIFEXITED with the status 0

-- zh_ble_provision_enter: whether it returns 0, and the command that the new process runs, if any.
unfoldable pub provision_enter :
    Option (List ℕ) → Bool → Provisioning → List ℕ → Bool × Option (List (List ℕ))
unfolding script_path provision_name
provision_enter env installed p device_id =
    let command = codes "sh" ∷ script_path env installed ∷ provision_name device_id ∷ [] in
    if not p.executable
    then (false, none)
    else if not p.forked
    then (false, none)
    else (p.waited && p.exit_zero, some command)

-- The name of a device whose address can be read holds its whole id.
provision_name-device_id :
    (mac : List ℕ) (key_file : Option (List ℕ)) (key_len : ℕ)
    → length mac ≡ 6
    → AreBytes mac
    → let id = (get_config (some mac) key_file key_len).device_id in
      provision_name id ≡ codes "zh_" ++ id
unfolding provision_name
provision_name-device_id mac key_file key_len six bytes =
    let id = (get_config (some mac) key_file key_len).device_id in
    let twelve : length id ≡ 12 = (get_config-device_id mac key_file key_len six bytes).0 in
    let some_id : (length id == 0) ≡ false = ground arith in
    rw some_id (take-all 31 (codes "zh_" ++ id) (omega (arith, twelve)))
