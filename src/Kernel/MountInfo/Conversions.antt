-- ===== src/Kernel/MountInfo/Conversions.antt =====
-- The conversions of `sscanf` that kernelmod/vfs_kprobe.c uses, as the C standard describes them: an
-- instance of the argument of `parse_mounts_info`. A conversion whose result is dropped reads what
-- one whose result is kept reads.
use everyfile.Prelude.{
  ℕ, zero, suc, ◌-◌, ◌%◌, ◌^◌, Bool, ◌&&◌, ◌||◌, Option, none, some, [], ◌∷◌, Bytes, leb, ◌==◌,
  if◌then◌else◌, is_digit, value_from,
}
use mathlib.Core.Option

-- `isspace`
abbrev pub is_space : ℕ → Bool
is_space c = c == 32 || (leb 9 c && leb c 13)

unfoldable pub skip_space : Bytes → Bytes
skip_space [] = []
skip_space (c ∷ s) = if is_space c then skip_space s else c ∷ s

unfoldable pub take_digits : Bytes → Bytes
take_digits [] = []
take_digits (c ∷ s) = if is_digit c then c ∷ take_digits s else []

unfoldable pub drop_digits : Bytes → Bytes
drop_digits [] = []
drop_digits (c ∷ s) = if is_digit c then drop_digits s else c ∷ s

-- At least one digit.
abbrev pub number : Bytes → Bytes → Option (ℕ × Bytes)
number [] rest = none
number (c ∷ digits) rest = some (value_from 0 (c ∷ digits), rest)

abbrev pub unsigned : Bytes → Option (ℕ × Bytes)
unsigned s = number (take_digits s) (drop_digits s)

-- A number with its sign, as the bit pattern of an `int`.
abbrev pub signed : Bytes → Option (ℕ × Bytes)
signed [] = none
signed (c ∷ s) =
    if c == b'-'
    then Option.map (λ (n, rest). ((2 ^ 32 - n % 2 ^ 32) % 2 ^ 32, rest)) (unsigned s)
    else if c == b'+'
    then Option.map (λ (n, rest). (n % 2 ^ 32, rest)) (unsigned s)
    else Option.map (λ (n, rest). (n % 2 ^ 32, rest)) (unsigned (c ∷ s))

-- `%d`
unfoldable pub scan_int : Bytes → Option (ℕ × Bytes)
unfolding skip_space take_digits drop_digits value_from
scan_int s = signed (skip_space s)

-- `:`
abbrev pub scan_colon : Bytes → Option Bytes
scan_colon [] = none
scan_colon (c ∷ s) = if c == b':' then some s else none

unfoldable pub drop_word : Bytes → Bytes
drop_word [] = []
drop_word (c ∷ s) = if is_space c then c ∷ s else drop_word s

unfoldable pub take_word : ℕ → Bytes → Bytes
take_word zero s = []
take_word (suc n) [] = []
take_word (suc n) (c ∷ s) = if is_space c then [] else c ∷ take_word n s

-- `%*s`, and `%250s`, after white space.
abbrev pub pass_word : Bytes → Option Bytes
pass_word [] = none
pass_word (c ∷ s) = some (drop_word (c ∷ s))

abbrev pub keep_word : Bytes → Option Bytes
keep_word [] = none
keep_word (c ∷ s) = some (take_word 250 (c ∷ s))

infixl 5 ◌>>=◌
abbrev pub ◌>>=◌ : {A B : Type 0} → Option A → (A → Option B) → Option B
none >>= f = none
some a >>= f = f a

-- One line: the result is there if the three conversions that are kept succeed.
unfoldable pub scan_line : Bytes → Option (ℕ × ℕ × Bytes)
unfolding scan_int drop_word take_word
scan_line line = do
  (id, r1) ← scan_int line
  (parent, r2) ← scan_int r1
  (major, r3) ← scan_int r2
  r4 ← scan_colon r3
  (minor, r5) ← scan_int r4
  r6 ← pass_word (skip_space r5)
  mp ← keep_word (skip_space r6)
  some (major, minor, mp)
