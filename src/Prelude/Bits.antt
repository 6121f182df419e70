-- ===== src/Prelude/Bits.antt =====
-- The laws of `^` and `|` on native numbers that the frame code needs, from their binary digits.
use Prim.Native.Nat.{max, digits, bit_or, bit_xor, bit_or-bitwise, bit_xor-bitwise, differ, bitwise}
use mathlib.Core.WellFounded
use rockchip_1106_voice_agen.Prelude.Order.{lt_wf}
use Prim.Native.Nat.{ℕ, zero, suc, ◌+◌, ◌-◌, ◌*◌, ◌/◌, ◌%◌, ◌^◌, ◌≤◌, ◌<◌}
use mathlib.Core.Path.{◌≡◌, refl, ap, ◌∙◌}
use mathlib.Core.Bool.{Bool, true, ◌&&◌}
use native.Mathlib.Nat.{le_refl, pow-suc}
use native.Mathlib.Omega.{arith}

-- The binary digits of `left` and `right`, joined by `join` while `left` has any: more fuel than
-- `left` changes nothing.
module _ (rest : ℕ → ℕ) (join : ℕ → ℕ → ℕ) where
  digits-zero : (fuel right : ℕ) → digits rest join fuel 0 right ≡ rest right
  digits-zero zero right = refl
  digits-zero (suc fuel) right = refl

  spare_fuel :
      (spare fuel left right : ℕ)
      → left ≤ fuel
      → digits rest join fuel left right ≡ digits rest join (spare + fuel) left right
  spare_fuel spare fuel zero right enough =
      omega (arith, digits-zero fuel right, digits-zero (spare + fuel) right)
  spare_fuel spare zero (suc left) right enough = absurd (omega arith)
  spare_fuel spare (suc fuel) (suc left) right enough =
      let e : spare + suc fuel ≡ suc (spare + fuel) = omega arith in
      rw e (omega (arith, spare_fuel spare fuel (suc left / 2) (right / 2) (omega arith)))

  lowest_digit :
      (left right : ℕ)
      → join (suc left % 2) (right % 2) + 2 * bitwise rest join (suc left / 2) (right / 2)
        ≡ bitwise rest join (suc left) right
  lowest_digit left right =
      let half = suc left / 2 in
      let e : left - half + half ≡ left = omega arith in
      omega (arith, rw e at (spare_fuel (left - half) half half (right / 2) (le_refl _)))

pub bit_or_halves : (x y : ℕ) → max (x % 2) (y % 2) + 2 * bit_or (x / 2) (y / 2) ≡ bit_or x y
bit_or_halves zero y = omega (arith, bit_or-bitwise 0 (y / 2), bit_or-bitwise 0 y)
bit_or_halves (suc x) y =
    let low = lowest_digit (λ rest. rest) max x y in
    omega (arith, low, bit_or-bitwise (suc x / 2) (y / 2), bit_or-bitwise (suc x) y)

-- The exclusive or of two binary digits is the parity of their sum.
differ_digit : (a b : ℕ) → a < 2 → b < 2 → differ a b ≡ (a + b) % 2
differ_digit zero b p q = omega arith
differ_digit (suc zero) zero p q = refl
differ_digit (suc zero) (suc zero) p q = refl
differ_digit (suc zero) (suc (suc b)) p q = absurd (omega arith)
differ_digit (suc (suc a)) b p q = absurd (omega arith)

pub bit_xor_halves : (x y : ℕ) → (x + y) % 2 + 2 * bit_xor (x / 2) (y / 2) ≡ bit_xor x y
bit_xor_halves zero y = omega (arith, bit_xor-bitwise 0 (y / 2), bit_xor-bitwise 0 y)
bit_xor_halves (suc x) y =
    let low = lowest_digit (λ rest. rest) differ x y in
    let parity = differ_digit (suc x % 2) (y % 2) (omega arith) (omega arith) in
    omega (arith, low, parity, bit_xor-bitwise (suc x / 2) (y / 2), bit_xor-bitwise (suc x) y)

pub bit_or-zero : (a : ℕ) → bit_or a 0 ≡ a
bit_or-zero a = WellFounded.induction lt_wf {C = λ n. bit_or n 0 ≡ n} a (elim [
  | zero ↦ λ ih. refl
  | suc n ↦ λ ih. omega (arith, bit_or_halves (suc n) 0, ih (suc n / 2) (omega arith))
])

-- The low digit of `a * 2 | b` is that of `b`.
bit_or_double : (a b : ℕ) → bit_or (a * 2) b ≡ bit_or a (b / 2) * 2 + b % 2
bit_or_double a b =
    let e : a * 2 / 2 ≡ a = omega arith in omega (arith, rw e at (bit_or_halves (a * 2) b))

-- `(a << 8) | b` of a byte `b` is a sum.
pub bit_or_bytes : (a b : ℕ) → b < 256 → bit_or (a * 256) b ≡ a * 256 + b
bit_or_bytes a b h =
    let e : a * 256 ≡ a * 2 * 2 * 2 * 2 * 2 * 2 * 2 * 2 = omega arith in
    let d : b / 2 / 2 / 2 / 2 / 2 / 2 / 2 / 2 ≡ 0 = omega arith in
    let last : bit_or a (b / 2 / 2 / 2 / 2 / 2 / 2 / 2 / 2) ≡ a = rw d (bit_or-zero a) in
    let shifted : bit_or (a * 2 * 2 * 2 * 2 * 2 * 2 * 2 * 2) b ≡ a * 256 + b = omega (
      arith,
      bit_or_double (a * 2 * 2 * 2 * 2 * 2 * 2 * 2) b,
      bit_or_double (a * 2 * 2 * 2 * 2 * 2 * 2) (b / 2),
      bit_or_double (a * 2 * 2 * 2 * 2 * 2) (b / 2 / 2),
      bit_or_double (a * 2 * 2 * 2 * 2) (b / 2 / 2 / 2),
      bit_or_double (a * 2 * 2 * 2) (b / 2 / 2 / 2 / 2),
      bit_or_double (a * 2 * 2) (b / 2 / 2 / 2 / 2 / 2),
      bit_or_double (a * 2) (b / 2 / 2 / 2 / 2 / 2 / 2),
      bit_or_double a (b / 2 / 2 / 2 / 2 / 2 / 2 / 2),
      last,
    ) in
    ap (λ t. bit_or t b) e ∙ shifted

-- `^` with the same number twice gives back the first: over a bound of both.
bit_xor_cancel_below : (n a b : ℕ) → a ≤ n → b ≤ n → bit_xor (bit_xor a b) b ≡ a
bit_xor_cancel_below n zero zero p q = refl
bit_xor_cancel_below zero zero (suc b) p q = absurd (omega arith)
bit_xor_cancel_below zero (suc a) b p q = absurd (omega arith)
bit_xor_cancel_below (suc n) a b p q =
    let half : bit_xor a b / 2 ≡ bit_xor (a / 2) (b / 2) = omega (arith, bit_xor_halves a b) in
    omega (
      arith,
      bit_xor_halves a b,
      rw half at (bit_xor_halves (bit_xor a b) b),
      bit_xor_cancel_below n (a / 2) (b / 2) (omega arith) (omega arith),
    )

pub bit_xor_cancel : (a b : ℕ) → bit_xor (bit_xor a b) b ≡ a
bit_xor_cancel a b = bit_xor_cancel_below (a + b) a b (omega arith) (omega arith)

bit_xor_comm_below : (n a b : ℕ) → a ≤ n → b ≤ n → bit_xor a b ≡ bit_xor b a
bit_xor_comm_below n zero zero p q = refl
bit_xor_comm_below zero zero (suc b) p q = absurd (omega arith)
bit_xor_comm_below zero (suc a) b p q = absurd (omega arith)
bit_xor_comm_below (suc n) a b p q = omega (
  arith,
  bit_xor_halves a b,
  bit_xor_halves b a,
  bit_xor_comm_below n (a / 2) (b / 2) (omega arith) (omega arith),
)

pub bit_xor_comm : (a b : ℕ) → bit_xor a b ≡ bit_xor b a
bit_xor_comm a b = bit_xor_comm_below (a + b) a b (omega arith) (omega arith)

-- `^` of two numbers of `k` bits has `k` bits.
pub bit_xor-lt : (k a b : ℕ) → a < 2 ^ k → b < 2 ^ k → bit_xor a b < 2 ^ k
bit_xor-lt zero zero zero p q = omega arith
bit_xor-lt zero zero (suc b) p q = absurd (omega arith)
bit_xor-lt zero (suc a) b p q = absurd (omega arith)
bit_xor-lt (suc k) a b p q =
    let two : 2 ^ suc k ≡ 2 * 2 ^ k = omega (arith, pow-suc 2 k) in
    omega (arith, two, bit_xor_halves a b, bit_xor-lt k (a / 2) (b / 2) (omega arith) (omega arith))

-- `holds` at every number under a limit, by evaluation.
unfoldable pub all_below : ℕ → (ℕ → Bool) → Bool
all_below zero holds = true
all_below (suc limit) holds = holds limit && all_below limit holds

pub all_below_sound :
    (limit : ℕ) (holds : ℕ → Bool) (k : ℕ)
    → all_below limit holds ≡ true
    → k < limit
    → holds k ≡ true
unfolding all_below
all_below_sound zero holds k checked under = absurd (omega arith)
all_below_sound (suc limit) holds k checked under = ground (arith, all_below_sound limit holds k)
