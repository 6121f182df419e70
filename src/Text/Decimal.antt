-- ===== src/Text/Decimal.antt =====
-- What `%d` and `%llu` print.
use rockchip_1106_voice_agen.Prelude.{
  ℕ, zero, suc, ◌+◌, ◌-◌, ◌*◌, ◌/◌, ◌%◌, ◌<◌, ◌≡◌, refl, inl, inr, List, [], ◌∷◌, ◌++◌, arith, ltb,
  if◌then◌else◌, Bool-cases,
}
use rockchip_1106_voice_agen.Prelude.Int.{ℤ, pos, negsuc}

-- The digits of `n`, on fuel: one round for each digit but the last.
unfoldable pub digits_of : ℕ → ℕ → List ℕ
digits_of zero n = []
digits_of (suc fuel) n =
    let rest = digits_of fuel (n / 10) in
    if ltb n 10 then (b'0' + n) ∷ [] else rest ++ ((b'0' + n % 10) ∷ [])

-- `%u`: a number has no more digits than its value and one.
unfoldable pub dec : ℕ → List ℕ
unfolding digits_of
dec n = digits_of (suc n) n

-- `%d`
unfoldable pub dec_int : ℤ → List ℕ
unfolding dec
dec_int (pos n) = dec n
dec_int (negsuc n) = b'-' ∷ dec (n + 1)

-- The value of a text of digits.
unfoldable pub value_from : ℕ → List ℕ → ℕ
value_from acc [] = acc
value_from acc (c ∷ cs) = value_from (acc * 10 + (c - b'0')) cs

value_from-append :
    (acc : ℕ) (xs ys : List ℕ) → value_from acc (xs ++ ys) ≡ value_from (value_from acc xs) ys
unfolding value_from
value_from-append acc [] ys = refl
value_from-append acc (x ∷ xs) ys = value_from-append (acc * 10 + (x - b'0')) xs ys

value-digits_of : (fuel n : ℕ) → n < fuel → value_from 0 (digits_of fuel n) ≡ n
unfolding digits_of
value-digits_of zero n h = absurd (omega arith)
value-digits_of (suc fuel) n h = elim (Bool-cases (ltb n 10)) [
  | inl t ↦ rw t (unfold value_from in omega arith)
  | inr t ↦
      rw
        (
          t,
          value_from-append 0 (digits_of fuel (n / 10)) ((b'0' + n % 10) ∷ []),
          value-digits_of fuel (n / 10) (ground arith),
        )
        (unfold value_from in omega arith)
]

-- What is printed reads back as the number.
pub value-dec : (n : ℕ) → value_from 0 (dec n) ≡ n
unfolding dec
value-dec n = value-digits_of (suc n) n (omega arith)
