-- ===== src/Prelude/Decimal.antt =====
-- Decimal numbers as text: what `%d` and `%ld` print of a number that is not negative.
use Prim.Native.Nat.{ℕ, zero, suc, ◌+◌, ◌-◌, ◌*◌, ◌/◌, ◌%◌, ◌<◌, ◌≤◌}
use mathlib.Core.Bool.{Bool, true, false, ◌&&◌}
use mathlib.Core.Logic.{inl, inr}
use mathlib.Core.List.{[], ◌∷◌}
use mathlib.Core.Path.{◌≡◌, refl, ◌∙◌}
use native.Mathlib.Omega.{arith}
use everyfile.Prelude.Tests.{ltb, leb, Bool-cases}
use everyfile.Prelude.Lists.{All, length}
use everyfile.Prelude.CText.{Bytes, IsText}

-- The digits of `n` in front of `acc`, with fuel above `n`.
digits_onto : ℕ → ℕ → Bytes → Bytes
digits_onto zero n acc = acc
digits_onto (suc fuel) n acc = elim (ltb n 10) [
  | true ↦ (n + b'0') ∷ acc
  | false ↦ digits_onto fuel (n / 10) ((n % 10 + b'0') ∷ acc)
]

unfoldable pub decimal : ℕ → Bytes
unfolding digits_onto
decimal n = digits_onto (suc n) n []

abbrev pub is_digit : ℕ → Bool
is_digit c = leb b'0' c && leb c b'9'

abbrev pub IsDigits : Bytes → Type 0
IsDigits = All (λ c. is_digit c ≡ true)

-- The number that a text of digits stands for, after digits that stand for `n`.
unfoldable pub value_from : ℕ → Bytes → ℕ
value_from n [] = n
value_from n (c ∷ s) = value_from (n * 10 + (c - b'0')) s

value_from-digits_onto :
    (fuel n : ℕ) (acc : Bytes) → n < fuel → value_from 0 (digits_onto fuel n acc) ≡ value_from n acc
unfolding digits_onto value_from
value_from-digits_onto zero n acc h = absurd (omega arith)
value_from-digits_onto (suc fuel) n acc h = elim (Bool-cases (ltb n 10)) [
  | inl small ↦ ground arith
  | inr large ↦
      let ih = value_from-digits_onto fuel (n / 10) ((n % 10 + b'0') ∷ acc) (ground arith) in
      let same : n / 10 * 10 + (n % 10 + b'0' - b'0') ≡ n = omega arith in ground (arith, ih, same)
]

digits_onto-IsDigits :
    (fuel n : ℕ) (acc : Bytes) → n < fuel → IsDigits acc → IsDigits (digits_onto fuel n acc)
unfolding digits_onto
digits_onto-IsDigits zero n acc h d = absurd (omega arith)
digits_onto-IsDigits (suc fuel) n acc h d = elim (Bool-cases (ltb n 10)) [
  | inl small ↦ ground arith
  | inr large ↦
      let ih =
        digits_onto-IsDigits fuel (n / 10) ((n % 10 + b'0') ∷ acc) (ground arith)
          (ground arith, d) in
      ground (arith, ih)
]

-- Reading back what was printed gives the number.
pub value_from-decimal : (n : ℕ) → value_from 0 (decimal n) ≡ n
unfolding decimal
value_from-decimal n = value_from-digits_onto (suc n) n [] (omega arith) ∙ unfold value_from in refl

pub decimal-IsDigits : (n : ℕ) → IsDigits (decimal n)
unfolding decimal
decimal-IsDigits n = digits_onto-IsDigits (suc n) n [] (omega arith) tt

digits_onto-cons :
    (fuel n : ℕ) (acc : Bytes) → n < fuel → (c : ℕ) × (s : Bytes) × (digits_onto fuel n acc ≡ c ∷ s)
unfolding digits_onto
digits_onto-cons zero n acc h = absurd (omega arith)
digits_onto-cons (suc fuel) n acc h = elim (Bool-cases (ltb n 10)) [
  | inl small ↦ (n + b'0', acc, ground (arith, small))
  | inr large ↦
      let (c, s, e) = digits_onto-cons fuel (n / 10) ((n % 10 + b'0') ∷ acc) (ground arith) in
      (c, s, ground (arith, large, e))
]

-- A printed number has a first digit.
pub decimal-cons : (n : ℕ) → (c : ℕ) × (s : Bytes) × (decimal n ≡ c ∷ s)
unfolding decimal
decimal-cons n = digits_onto-cons (suc n) n [] (omega arith)

-- A power of ten.
unfoldable pub ten_to : ℕ → ℕ
ten_to zero = 1
ten_to (suc k) = 10 * ten_to k

length-digits_onto :
    (fuel n k : ℕ) (acc : Bytes)
    → n < ten_to (suc k)
    → length (digits_onto fuel n acc) ≤ suc k + length acc
unfolding digits_onto ten_to
length-digits_onto zero n k acc h = omega arith
length-digits_onto (suc fuel) n zero acc h =
    let small : ltb n 10 ≡ true = ground (arith, h) in ground (arith, small)
length-digits_onto (suc fuel) n (suc k) acc h = elim (Bool-cases (ltb n 10)) [
  | inl small ↦ ground (arith, small)
  | inr large ↦
      let ih = length-digits_onto fuel (n / 10) k ((n % 10 + b'0') ∷ acc) (omega (arith, h)) in
      ground (arith, large, ih)
]

-- A number below 10 ^ (k + 1) has at most k + 1 digits.
pub length-decimal : (n k : ℕ) → n < ten_to (suc k) → length (decimal n) ≤ suc k
unfolding decimal
length-decimal n k h = omega (arith, length-digits_onto (suc n) n k [] h)

pub IsDigits-IsText : (s : Bytes) → IsDigits s → IsText s
IsDigits-IsText [] d = tt
IsDigits-IsText (c ∷ s) d = (ground (arith, d.0), IsDigits-IsText s d.1)
