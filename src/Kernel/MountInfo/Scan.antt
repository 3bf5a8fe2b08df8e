-- ===== src/Kernel/MountInfo/Scan.antt =====
-- What the conversions read of printed numbers and words.
use everyfile.Prelude.{
  ℕ, zero, suc, ◌%◌, ◌^◌, ◌≤◌, ◌≡◌, ◌≢◌, refl, ◌∙◌, ap, true, false, some, [], ◌∷◌, ◌++◌, Bytes,
  arith, All, length, ◌==◌, is_digit, IsDigits, decimal, value_from, value_from-decimal,
  decimal-IsDigits, decimal-cons,
}
use everyfile.Kernel.MountInfo.Conversions.{
  is_space, skip_space, take_digits, drop_digits, scan_int, drop_word, take_word, pass_word,
  keep_word,
}

-- What may follow a number.
abbrev pub IsStop : ℕ → Type 0
IsStop c = is_digit c ≡ false

take_digits-append :
    (ds : Bytes) (c : ℕ) (s : Bytes) → IsDigits ds → IsStop c → take_digits (ds ++ c ∷ s) ≡ ds
unfolding take_digits
take_digits-append [] c s d stop = rw stop
take_digits-append (x ∷ ds) c s d stop = rw (d.0, take_digits-append ds c s d.1 stop)

drop_digits-append :
    (ds : Bytes) (c : ℕ) (s : Bytes) → IsDigits ds → IsStop c → drop_digits (ds ++ c ∷ s) ≡ c ∷ s
unfolding drop_digits
drop_digits-append [] c s d stop = rw stop
drop_digits-append (x ∷ ds) c s d stop = rw (d.0, drop_digits-append ds c s d.1 stop)

-- A digit is neither white space nor a sign.
digit_plain :
    (c : ℕ)
    → is_digit c ≡ true
    → (is_space c ≡ false) × ((c == b'-') ≡ false) × ((c == b'+') ≡ false)
digit_plain c h = (ground arith, ground arith, ground arith)

scan_int-digits :
    (c : ℕ) (ds : Bytes) (stop : ℕ) (s : Bytes)
    → IsDigits (c ∷ ds)
    → IsStop stop
    → scan_int (c ∷ (ds ++ stop ∷ s)) ≡ some (value_from 0 (c ∷ ds) % 2 ^ 32, stop ∷ s)
unfolding scan_int
scan_int-digits c ds stop s d h =
    let (space, minus, plus) = digit_plain c d.0 in
    rw (
      space,
      minus,
      plus,
      d.0,
      take_digits-append ds stop s d.1 h,
      drop_digits-append ds stop s d.1 h,
    )

-- White space in front changes nothing.
pub scan_int-space : (c : ℕ) (s : Bytes) → is_space c ≡ true → scan_int (c ∷ s) ≡ scan_int s
unfolding scan_int
scan_int-space c s h = rw h

-- A printed number is read back, modulo 2 ^ 32.
pub scan_int-decimal :
    (n stop : ℕ) (s : Bytes)
    → IsStop stop
    → scan_int (decimal n ++ stop ∷ s) ≡ some (n % 2 ^ 32, stop ∷ s)
scan_int-decimal n stop s h =
    let (c, ds, e) = decimal-cons n in
    rw e (
      scan_int-digits c ds stop s (rw e at (decimal-IsDigits n)) h
      ∙ ap (λ m. some (m % 2 ^ 32, stop ∷ s)) (rw e at (value_from-decimal n)))

-- Behind a blank.
pub scan_int-spaced :
    (n stop : ℕ) (s : Bytes)
    → IsStop stop
    → scan_int (32 ∷ (decimal n ++ stop ∷ s)) ≡ some (n % 2 ^ 32, stop ∷ s)
scan_int-spaced n stop s h =
    scan_int-space 32 (decimal n ++ stop ∷ s) refl ∙ scan_int-decimal n stop s h

abbrev pub IsSolid : Bytes → Type 0
IsSolid = All (λ c. is_space c ≡ false)

drop_word-append : (w s : Bytes) → IsSolid w → drop_word (w ++ 32 ∷ s) ≡ 32 ∷ s
unfolding drop_word
drop_word-append [] s d = refl
drop_word-append (c ∷ w) s d = rw (d.0, drop_word-append w s d.1)

take_word-append : (n : ℕ) (w s : Bytes) → IsSolid w → length w ≤ n → take_word n (w ++ 32 ∷ s) ≡ w
unfolding take_word
take_word-append zero [] s d h = refl
take_word-append (suc n) [] s d h = refl
take_word-append zero (c ∷ w) s d h = absurd (omega (arith, h))
take_word-append (suc n) (c ∷ w) s d h = rw (d.0, take_word-append n w s d.1 (omega (arith, h)))

-- A word behind a blank.
pub pass_word-word :
    (w s : Bytes) → w ≢ [] → IsSolid w → pass_word (skip_space (32 ∷ (w ++ 32 ∷ s))) ≡ some (32 ∷ s)
unfolding skip_space
pass_word-word [] s ne d = absurd (ne refl)
pass_word-word (c ∷ w) s ne d = rw (d.0, drop_word-append (c ∷ w) s d)

pub keep_word-word :
    (w s : Bytes)
    → w ≢ []
    → IsSolid w
    → length w ≤ 250
    → keep_word (skip_space (32 ∷ (w ++ 32 ∷ s))) ≡ some w
unfolding skip_space
keep_word-word [] s ne d h = absurd (ne refl)
keep_word-word (c ∷ w) s ne d h = rw (d.0, take_word-append 250 (c ∷ w) s d h)
