-- ===== src/Ble/WifiList/Sort.antt =====
-- The sort of send_demo_wifi_list (ble_sdk/btgatt-server.c).
use rockchip_1106_voice_agen.Prelude.{
  ℕ, zero, suc, ◌≤◌, ◌≡◌, inl, inr, List, [], ◌∷◌, arith, Bool-cases, length,
}
use mathlib.Core.List.{Perm}
use mathlib.Core.List.Perm
use rockchip_1106_voice_agen.Prelude.Int.{ltb_ℤ, ◌≤ℤ◌}
use rockchip_1106_voice_agen.Ble.WifiList.{Ap, sweep, sort_from, sort_aps}

abbrev pub AllBelow : Ap → List Ap → Type 0
AllBelow a [] = Unit
AllBelow a (b ∷ bs) = (b.rssi ≤ℤ a.rssi) × AllBelow a bs

-- No entry is stronger than one before it.
abbrev pub IsDescending : List Ap → Type 0
IsDescending [] = Unit
IsDescending (a ∷ as') = AllBelow a as' × IsDescending as'

record Swept (a : Ap) (bs : List Ap) (out : Ap × List Ap) : Type 0 where
  above : a.rssi ≤ℤ out.0.rssi
  below : AllBelow out.0 out.1
  as_many : length out.1 ≡ length bs

sweep-Swept : (a : Ap) (bs : List Ap) → Swept a bs (sweep a bs)
unfolding sweep
sweep-Swept a [] = omega arith
sweep-Swept a (b ∷ bs) = ground (arith, sweep-Swept a bs, sweep-Swept b bs)

sweep-perm : (a : Ap) (bs : List Ap) → Perm ((sweep a bs).0 ∷ (sweep a bs).1) (a ∷ bs)
unfolding sweep
sweep-perm a [] = Perm.refl (a ∷ [])
sweep-perm a (b ∷ bs) = elim (Bool-cases (ltb_ℤ a.rssi b.rssi)) [
  | inl t ↦ rw t (Perm.trans (Perm.swap _ _ _) (Perm.cons a (sweep-perm b bs)))
  | inr t ↦
      rw t (
        Perm.trans (Perm.swap _ _ _) (Perm.trans (Perm.cons b (sweep-perm a bs)) (Perm.swap _ _ _)))
]

sweep-AllBelow :
    (x a : Ap) (bs : List Ap) → AllBelow x (a ∷ bs) → AllBelow x ((sweep a bs).0 ∷ (sweep a bs).1)
unfolding sweep
sweep-AllBelow x a [] h = h
sweep-AllBelow x a (b ∷ bs) h = ground (arith, sweep-AllBelow x a bs, sweep-AllBelow x b bs)

sort_from-AllBelow :
    (fuel : ℕ) (x : Ap) (as' : List Ap) → AllBelow x as' → AllBelow x (sort_from fuel as')
unfolding sort_from
sort_from-AllBelow zero x as' h = h
sort_from-AllBelow (suc fuel) x [] h = h
sort_from-AllBelow (suc fuel) x (a ∷ as') h =
    let s = sweep-AllBelow x a as' h in (s.0, sort_from-AllBelow fuel x (sweep a as').1 s.1)

sort_from-IsDescending :
    (fuel : ℕ) (as' : List Ap) → length as' ≤ fuel → IsDescending (sort_from fuel as')
unfolding sort_from
sort_from-IsDescending zero [] h = tt
sort_from-IsDescending zero (a ∷ as') h = absurd (omega arith)
sort_from-IsDescending (suc fuel) [] h = tt
sort_from-IsDescending (suc fuel) (a ∷ as') h =
    let s = sweep-Swept a as' in
    (
      sort_from-AllBelow fuel (sweep a as').0 (sweep a as').1 s.below,
      sort_from-IsDescending fuel (sweep a as').1 (omega (arith, s.as_many)),
    )

sort_from-perm : (fuel : ℕ) (as' : List Ap) → Perm (sort_from fuel as') as'
unfolding sort_from
sort_from-perm zero as' = Perm.refl as'
sort_from-perm (suc fuel) [] = Perm.refl []
sort_from-perm (suc fuel) (a ∷ as') =
    Perm.trans (Perm.cons (sweep a as').0 (sort_from-perm fuel (sweep a as').1)) (sweep-perm a as')

-- The exchange sort of send_demo_wifi_list puts the access points in order of falling signal, and
-- neither loses nor invents one.
pub sort_aps-sorts : (as' : List Ap) → IsDescending (sort_aps as') × Perm (sort_aps as') as'
unfolding sort_aps
sort_aps-sorts as' =
    (sort_from-IsDescending (length as') as' (omega arith), sort_from-perm (length as') as')
