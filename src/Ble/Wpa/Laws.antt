-- ===== src/Ble/Wpa/Laws.antt =====
-- When the link counts as up: wifi_link_ready, run_wifi_connect_flow (ble_sdk/btgatt-server.c) and
-- zh_wifi_ensure_connected (src/wifi_bootstrap.c).
use rockchip_1106_voice_agen.Prelude.{
  ℕ, zero, suc, ◌+◌, ◌≤◌, ◌<◌, ◌≡◌, ap, ◌≢◌, ◌↔◌, ◌⊎◌, inl, inr, Bool, true, arith, ◌==◌, ==_iff,
  Bool-cases,
}
use rockchip_1106_voice_agen.Ble.Wpa.{
  Probe, wifi_link_ready, first_index, Attempt, cmd_count, poll_count, start_supplicant, wait_link,
  run_wifi_connect_flow, ensure_connected,
}

-- The loop stops at the first index that passes, or at its end.
first_index-bounds :
    (n i : ℕ) (ok : ℕ → Bool) → (i ≤ first_index n i ok) × (first_index n i ok ≤ i + n)
unfolding first_index
first_index-bounds zero i ok = omega arith
first_index-bounds (suc n) i ok = ground (arith, first_index-bounds n (i + 1) ok)

first_index-passes :
    (n i : ℕ) (ok : ℕ → Bool) → first_index n i ok ≢ i + n → ok (first_index n i ok) ≡ true
unfolding first_index
first_index-passes zero i ok h = absurd (h (omega arith))
first_index-passes (suc n) i ok h = elim (Bool-cases (ok i)) [
  | inl t ↦ rw (t, first_index) t
  | inr t ↦
      rw (t, first_index)
        (first_index-passes n (i + 1) ok (λ e. h (rw (t, first_index) (omega arith))))
]

first_index-finds :
    (n i : ℕ) (ok : ℕ → Bool) (k : ℕ) → i ≤ k → k < i + n → ok k ≡ true → first_index n i ok ≤ k
unfolding first_index
first_index-finds zero i ok k p q t = absurd (omega arith)
first_index-finds (suc n) i ok k p q t = elim (Bool-cases (ok i)) [
  | inl s ↦ rw (s, first_index) p
  | inr s ↦
      let ne : i ≢ k = λ e. cc (ap ok e) in
      rw (s, first_index) (first_index-finds n (i + 1) ok k (omega arith) (omega arith) t)
]

-- Some way to start the supplicant works, and some poll sees the link up.
abbrev pub Started : Attempt → Type 0
Started a = (i : ℕ) × (i < cmd_count) × (a.start_status i ≡ 0)

abbrev pub Linked : Attempt → Type 0
Linked a = (i : ℕ) × (i < poll_count) × (wifi_link_ready (a.poll i) ≡ true)

start_supplicant_iff : (a : Attempt) → (start_supplicant a ≢ cmd_count) ↔ Started a
unfolding start_supplicant
start_supplicant_iff a = (to, from)
  where
    ok : ℕ → Bool
    ok i = a.start_status i == 0

    to : first_index cmd_count 0 ok ≢ cmd_count → Started a
    to h = (
      first_index cmd_count 0 ok,
      omega (arith, first_index-bounds cmd_count 0 ok),
      (==_iff _ 0).0 (first_index-passes cmd_count 0 ok h),
    )

    from : Started a → first_index cmd_count 0 ok ≢ cmd_count
    from (i, lt, e) =
        let b : first_index cmd_count 0 ok ≤ i =
          first_index-finds cmd_count 0 ok i (omega arith) (omega arith) ((==_iff _ 0).1 e) in
        omega arith

wait_link_iff : (a : Attempt) → (wait_link a ≢ poll_count) ↔ Linked a
unfolding wait_link
wait_link_iff a = (to, from)
  where
    ok : ℕ → Bool
    ok i = wifi_link_ready (a.poll i)

    to : first_index poll_count 0 ok ≢ poll_count → Linked a
    to h = (
      first_index poll_count 0 ok,
      omega (arith, first_index-bounds poll_count 0 ok),
      first_index-passes poll_count 0 ok h,
    )

    from : Linked a → first_index poll_count 0 ok ≢ poll_count
    from (i, lt, e) =
        let b : first_index poll_count 0 ok ≤ i =
          first_index-finds poll_count 0 ok i (omega arith) (omega arith) e in
        omega arith

-- run_wifi_connect_flow reports 0 exactly when the configuration could be written, one of the three
-- ways to start the supplicant worked, and one of the twenty polls saw the link up.
pub run_wifi_connect_flow-ok_iff :
    (a : Attempt) → (run_wifi_connect_flow a ≡ 0) ↔ ((a.conf_ok ≡ true) × Started a × Linked a)
unfolding run_wifi_connect_flow
run_wifi_connect_flow-ok_iff a = (to, from)
  where
    to : run_wifi_connect_flow a ≡ 0 → (a.conf_ok ≡ true) × Started a × Linked a
    to h = (
      ground arith,
      (start_supplicant_iff a).0 (λ e. ground arith),
      (wait_link_iff a).0 (λ e. ground arith),
    )

    from : (a.conf_ok ≡ true) × Started a × Linked a → run_wifi_connect_flow a ≡ 0
    from (c, s, l) =
        let s' : start_supplicant a ≢ cmd_count = (start_supplicant_iff a).1 s in
        let l' : wait_link a ≢ poll_count = (wait_link_iff a).1 l in ground arith

-- It reports 4 exactly when the supplicant was started and no poll saw the link up.
pub run_wifi_connect_flow-no_link_iff :
    (a : Attempt) → (run_wifi_connect_flow a ≡ 4) ↔ ((a.conf_ok ≡ true) × Started a × (¬ Linked a))
unfolding run_wifi_connect_flow
run_wifi_connect_flow-no_link_iff a = (to, from)
  where
    to : run_wifi_connect_flow a ≡ 4 → (a.conf_ok ≡ true) × Started a × (¬ Linked a)
    to h = (
      ground arith,
      (start_supplicant_iff a).0 (λ e. ground arith),
      λ l. let l' : wait_link a ≢ poll_count = (wait_link_iff a).1 l in ground arith,
    )

    from : (a.conf_ok ≡ true) × Started a × (¬ Linked a) → run_wifi_connect_flow a ≡ 4
    from (c, s, l) =
        let s' : start_supplicant a ≢ cmd_count = (start_supplicant_iff a).1 s in
        elim (Bool-cases (wait_link a == poll_count)) [
          | inl e ↦ ground arith
          | inr e ↦ absurd (l ((wait_link_iff a).0 (λ k. ground arith)))
        ]

-- zh_wifi_ensure_connected succeeds exactly when the link is up already, or the configuration can be
-- read and the same start and poll succeed.
pub ensure_connected_iff :
    (before : Probe) (a : Attempt)
    → (ensure_connected before a ≡ true)
      ↔ ((wifi_link_ready before ≡ true) ⊎ ((a.conf_ok ≡ true) × Started a × Linked a))
unfolding ensure_connected
ensure_connected_iff before a = (to, from)
  where
    to :
        ensure_connected before a ≡ true
        → (wifi_link_ready before ≡ true) ⊎ ((a.conf_ok ≡ true) × Started a × Linked a)
    to h = elim (Bool-cases (wifi_link_ready before)) [
      | inl up ↦ inl up
      | inr down ↦ inr (
        ground arith,
        (start_supplicant_iff a).0 (λ e. ground arith),
        (wait_link_iff a).0 (λ e. ground arith),
      )
    ]

    from :
        (wifi_link_ready before ≡ true) ⊎ ((a.conf_ok ≡ true) × Started a × Linked a)
        → ensure_connected before a ≡ true
    from (inl up) = ground arith
    from (inr (c, s, l)) =
        let s' : start_supplicant a ≢ cmd_count = (start_supplicant_iff a).1 s in
        let l' : wait_link a ≢ poll_count = (wait_link_iff a).1 l in ground arith
