-- ===== src/Prelude/Printf.antt =====
-- The conversions of `sprintf` that the program writes: %s, %d, %ld and %%.
use Prim.Native.Nat.{ℕ}
use mathlib.Core.List.{List, [], ◌∷◌, ◌++◌}
use mathlib.Core.Option
use mathlib.Core.Option.{Option, none, some}
use everyfile.Prelude.Tests.{◌==◌, if◌then◌else◌}
use everyfile.Prelude.CText.{Bytes}
use everyfile.Prelude.Decimal.{decimal}

pub data Arg : Type 0 where
  text : Bytes → Arg
  num : ℕ → Arg

-- Where the reader of the format stands.
pub data Mode : Type 0 where
  plain percent long : Mode

abbrev put : Bytes → List Arg → Option (Bytes × Mode × List Arg)
put s args = some (s, plain, args)

-- A conversion meets its argument; one of another type, or none left, is undefined.
abbrev put_text : List Arg → Option (Bytes × Mode × List Arg)
put_text [] = none
put_text (text s ∷ args) = put s args
put_text (num n ∷ args) = none

abbrev put_num : List Arg → Option (Bytes × Mode × List Arg)
put_num [] = none
put_num (text s ∷ args) = none
put_num (num n ∷ args) = put (decimal n) args

-- One byte of the format.
abbrev step : Mode → ℕ → List Arg → Option (Bytes × Mode × List Arg)
step plain c args = if c == b'%' then some ([], percent, args) else put (c ∷ []) args
step percent c args =
    if c == b'%'
    then put (c ∷ []) args
    else if c == b's'
    then put_text args
    else if c == b'd'
    then put_num args
    else if c == b'l'
    then some ([], long, args)
    else none
step long c args = if c == b'd' then put_num args else none

print : Mode → Bytes → List Arg → Option Bytes
print plain [] args = some []
print percent [] args = none
print long [] args = none
print mode (c ∷ format) args = elim (step mode c args) [
  | none ↦ none
  | some (s, mode', args') ↦ Option.map (λ t. s ++ t) (print mode' format args')
]

-- What is printed, or `none` where the format is not defined.
unfoldable pub sprintf : Bytes → List Arg → Option Bytes
unfolding print
sprintf format args = print plain format args
