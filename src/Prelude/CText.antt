-- ===== src/Prelude/CText.antt =====
-- C strings as lists of bytes without their terminator, and the functions of <string.h> that the
-- program calls.
use Prim.Native.Char.{code}
use Prim.Native.Nat.{ℕ, zero, suc}
use Prim.Native.String.{String}
use mathlib.Core.Bool.{Bool, true, false, ◌&&◌, not}
use mathlib.Core.Logic.{◌≢◌, ◌↔◌}
use mathlib.Core.List.{List, [], ◌∷◌, ◌++◌}
use mathlib.Core.Option.{Option, none, some}
use mathlib.Core.Option
use mathlib.Core.Path.{◌≡◌, refl}
use native.Mathlib.Omega.{arith}
use everyfile.Prelude.Tests.{◌==◌, if◌then◌else◌}
use everyfile.Prelude.Lists.{take, replicate, All, All-append}

abbrev pub Bytes : Type 0
Bytes = List ℕ

-- The bytes of an ASCII text.
abbrev pub codes : String → Bytes
codes String.[] = []
codes (String.◌∷◌ c s) = code c ∷ codes s

-- No byte of a C string is its terminator.
abbrev pub IsText : Bytes → Type 0
IsText = All (λ c. c ≢ 0)

-- `strcmp(a, b) == 0`
abbrev pub same_text : Bytes → Bytes → Bool
same_text [] [] = true
same_text [] (d ∷ b) = false
same_text (c ∷ a) [] = false
same_text (c ∷ a) (d ∷ b) = (c == d) && same_text a b

abbrev pub starts_with : Bytes → Bytes → Bool
starts_with a [] = true
starts_with [] (d ∷ b) = false
starts_with (c ∷ a) (d ∷ b) = (c == d) && starts_with a b

-- `strstr(a, b) - a`: where `b` first stands in `a`.
abbrev pub strstr : Bytes → Bytes → Option ℕ
strstr [] b = if starts_with [] b then some 0 else none
strstr (c ∷ a) b =
    let later = Option.map suc (strstr a b) in if starts_with (c ∷ a) b then some 0 else later

-- The bytes before the first terminator of a buffer, or all of them: what `%s` prints of it.
abbrev pub until_nul : Bytes → Bytes
until_nul [] = []
until_nul (c ∷ s) = if c == 0 then [] else c ∷ until_nul s

pub same_text_iff : (a b : Bytes) → (same_text a b ≡ true) ↔ (a ≡ b)
same_text_iff [] [] = (λ _. refl, λ _. refl)
same_text_iff [] (d ∷ b) = (λ h. cc, λ h. cc)
same_text_iff (c ∷ a) [] = (λ h. cc, λ h. cc)
same_text_iff (c ∷ a) (d ∷ b) =
    (λ h. ground (arith, (same_text_iff a b).0), λ h. ground (arith, (same_text_iff a b).1))

pub same_text_refl : (a : Bytes) → same_text a a ≡ true
same_text_refl a = (same_text_iff a a).1 refl

pub starts_with_rest : (a b : Bytes) → starts_with a b ≡ true → (rest : Bytes) × (a ≡ b ++ rest)
starts_with_rest a [] h = (a, refl)
starts_with_rest [] (d ∷ b) h = cc
starts_with_rest (c ∷ a) (d ∷ b) h =
    let (rest, e) = starts_with_rest a b (ground arith) in (rest, ground arith)

pub starts_with-append : (a b : Bytes) → starts_with (a ++ b) a ≡ true
starts_with-append [] [] = refl
starts_with-append [] (d ∷ b) = refl
starts_with-append (c ∷ a) b = ground (arith, starts_with-append a b)

-- `strstr(a, b) == a` exactly when `b` is a prefix.
pub strstr_start : (a b : Bytes) → (strstr a b ≡ some 0) ↔ (starts_with a b ≡ true)
strstr_start [] b = (λ h. ground arith, λ h. ground arith)
strstr_start (c ∷ a) b = (λ h. ground arith, λ h. ground arith)

pub until_nul_text : (s : Bytes) (rest : Bytes) → IsText s → until_nul (s ++ 0 ∷ rest) ≡ s
until_nul_text [] rest h = refl
until_nul_text (c ∷ s) rest h = ground (arith, until_nul_text s rest h.1)

pub until_nul_all : (s : Bytes) → IsText s → until_nul s ≡ s
until_nul_all [] h = refl
until_nul_all (c ∷ s) h = ground (arith, until_nul_all s h.1)

pub IsText-until_nul : (s : Bytes) → IsText (until_nul s)
IsText-until_nul [] = tt
IsText-until_nul (c ∷ s) = ground (arith, IsText-until_nul s)

pub IsText-append : (a b : Bytes) → IsText a → IsText b → IsText (a ++ b)
IsText-append a b h g = All-append (λ c. c ≢ 0) a b h g

-- A test for texts that are known.
abbrev pub is_text : Bytes → Bool
is_text [] = true
is_text (c ∷ s) = not (c == 0) && is_text s

pub is_text_lem : (s : Bytes) → is_text s ≡ true → IsText s
is_text_lem [] h = tt
is_text_lem (c ∷ s) h = (ground arith, is_text_lem s (ground arith))

pub until_nul-replicate : (s : Bytes) (n : ℕ) → IsText s → until_nul (s ++ replicate n 0) ≡ s
until_nul-replicate [] zero h = refl
until_nul-replicate [] (suc n) h = refl
until_nul-replicate (c ∷ s) n h = ground (arith, until_nul-replicate s n h.1)

pub IsText-take : (n : ℕ) (s : Bytes) → IsText s → IsText (take n s)
IsText-take zero s h = tt
IsText-take (suc n) [] h = tt
IsText-take (suc n) (c ∷ s) h = (h.0, IsText-take n s h.1)
