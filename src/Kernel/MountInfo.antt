-- ===== src/Kernel/MountInfo.antt =====
-- kernelmod/vfs_kprobe.c: `parse_mounts_info`. What `sscanf` reads of a line is an argument.
pub mod Conversions
pub mod Scan
pub mod Line
pub mod Table
use everyfile.Prelude.{
  ℕ, zero, suc, ◌+◌, ◌%◌, ◌^◌, Bool, true, false, Option, none, some, List, [], ◌∷◌, ◌++◌, Bytes,
  ◌==◌, if◌then◌else◌,
}
use everyfile.Kernel.State.{Partition}
use everyfile.Kernel.Mounts.{is_special_mp}

-- `strchr(line, '\n') + 1`
unfoldable pub after_newline : Bytes → Option Bytes
after_newline [] = none
after_newline (c ∷ s) = let later = after_newline s in if c == 10 then some s else later

-- The list of partitions; or the read behind a line without an end.
pub data Parsed : Type 0 where
  parsed : List Partition → Parsed
  undefined : Parsed
  out_of_fuel : Parsed

-- What one line adds; `mem` is the answer of `kmalloc`.
abbrev pub add_partition : (mem : Bool) → ℕ → ℕ → Bytes → List Partition → List Partition
add_partition mem major minor mp parts =
    if is_special_mp (some mp)
    then parts
    else if mem
    then parts ++ record { major = major % 2 ^ 8; minor = minor % 2 ^ 8; root = mp } ∷ []
    else parts

-- The body of the loop, with `again` for the next round: `next` is the line behind this one.
abbrev parse_next : (List Partition) → (Bytes → List Partition → Parsed) → Option Bytes → Parsed
parse_next parts again none = undefined
parse_next parts again (some rest) = again rest parts

abbrev parse_step :
    (mem : Bool)
    → Option Bytes
    → List Partition
    → (Bytes → List Partition → Parsed)
    → Option (ℕ × ℕ × Bytes)
    → Parsed
parse_step mem next parts again none = parsed parts
parse_step mem next parts again (some (major, minor, mp)) =
    parse_next (add_partition mem major minor mp parts) again next

-- `sscanf` gives the two numbers and the name if it returns 3; `mem` are the answers of `kmalloc`.
unfoldable pub parse_loop :
    (sscanf : Bytes → Option (ℕ × ℕ × Bytes)) (mem : ℕ → Bool) (fuel i : ℕ)
    → Bytes
    → List Partition
    → Parsed
unfolding after_newline
parse_loop sscanf mem zero i line parts = out_of_fuel
parse_loop sscanf mem (suc fuel) i line parts =
    parse_step (mem i) (after_newline line) parts (parse_loop sscanf mem fuel (suc i)) (sscanf line)

-- `none` is NULL.
unfoldable pub parse_mounts_info :
    (sscanf : Bytes → Option (ℕ × ℕ × Bytes)) (mem : ℕ → Bool) (fuel : ℕ)
    → Option Bytes
    → List Partition
    → Parsed
unfolding parse_loop
parse_mounts_info sscanf mem fuel none parts = parsed parts
parse_mounts_info sscanf mem fuel (some buf) parts = parse_loop sscanf mem fuel 0 buf parts
