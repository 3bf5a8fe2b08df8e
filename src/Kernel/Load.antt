-- ===== src/Kernel/Load.antt =====
-- kernelmod/vfs_kprobe.c: `read_file_content` and `init_mounts_info`, which read the mount table when
-- the module is loaded.
pub mod Whole
use everyfile.Prelude.{
  ℕ, zero, suc, ◌+◌, Bool, true, false, ◌&&◌, Option, none, some, List, Bytes, length, ltb, ◌==◌,
  not, if◌then◌else◌,
}
use everyfile.Kernel.State.{Partition}
use everyfile.Kernel.MountInfo.{Parsed, undefined, out_of_fuel, parse_mounts_info}

-- `ALLOC_UNIT`
abbrev pub alloc_unit : ℕ
alloc_unit = 4096

-- The buffer that is returned, `none` for NULL; or an access through `real_size` when it has been
-- moved off its variable.
pub data Content : Type 0 where
  content : Option Bytes → Content
  astray : Content
  unfinished : Content

-- `*real_size` is there as long as the pointer has not been moved.
abbrev at_size : (moved : ℕ) → Content → Content
at_size moved next = if moved == 0 then next else astray

-- What follows a `read`, with `again` for the next round; `none` is an error, a negative size.
abbrev after_read : (again : Content) → Option Bytes → Content
after_read again none = again
after_read again (some text) =
    if ltb 0 (length text) && ltb (length text) alloc_unit then content (some text) else again

-- The loop; `mem` are the answers of `kmalloc`, and `read` is what the file gives for a buffer of
-- `alloc_unit` bytes, from its start each time.
unfoldable pub read_loop : (mem : ℕ → Bool) (read : Option Bytes) (fuel i moved : ℕ) → Content
read_loop mem read zero i moved = unfinished
read_loop mem read (suc fuel) i moved =
    let again = read_loop mem read fuel (suc i) (moved + alloc_unit) in
    if not (mem i) then at_size moved (content none) else at_size moved (after_read again read)

unfoldable pub read_file_content :
    (opened : Bool) (mem : ℕ → Bool) (read : Option Bytes) (fuel : ℕ) → Content
unfolding read_loop
read_file_content opened mem read fuel =
    if opened then read_loop mem read fuel 0 0 else content none

abbrev parse_content :
    (sscanf : Bytes → Option (ℕ × ℕ × Bytes)) (mem : ℕ → Bool) (fuel : ℕ)
    → List Partition
    → Content
    → Parsed
parse_content sscanf mem fuel parts (content buf) = parse_mounts_info sscanf mem fuel buf parts
parse_content sscanf mem fuel parts astray = undefined
parse_content sscanf mem fuel parts unfinished = out_of_fuel

-- `mem` is for the buffers, `part_mem` for the partitions.
unfoldable pub init_mounts_info :
    (sscanf : Bytes → Option (ℕ × ℕ × Bytes)) (opened : Bool) (mem part_mem : ℕ → Bool)
    (read : Option Bytes) (rounds fuel : ℕ)
    → List Partition
    → Parsed
unfolding read_file_content parse_mounts_info
init_mounts_info sscanf opened mem part_mem read rounds fuel parts =
    parse_content sscanf part_mem fuel parts (read_file_content opened mem read rounds)
