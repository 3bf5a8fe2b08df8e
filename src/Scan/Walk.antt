-- ===== src/Scan/Walk.antt =====
-- src/os/linux/_file.cpp: `_traverse_file_system`, with `add_file_info` of src/ef_file.cpp, which
-- puts each record into the queue.
pub mod Entries
pub mod Found
pub mod Depth
use everyfile.Prelude.{
  ℕ, zero, suc, Bool, ◌||◌, Option, none, some, List, [], ◌∷◌, ◌++◌, Bytes, if◌then◌else◌,
  same_text, codes,
}
use mathlib.Core.Option
use everyfile.Scan.Info.{
  FileType, elnk, ereg, edir, echr, eblk, efifo, esock, err, FileInfo, init, get_file_type,
}

-- The calls of the system: `lstat` gives the mode and the time of the last change, `opendir` with
-- `readdir` the names in a directory.
pub record FileSystem : Type 0 where
  pub lstat : Bytes → Option (ℕ × ℕ)
  pub list_dir : Bytes → Option (List Bytes)

-- What the function returns; it ends without a value at links, devices, pipes and sockets.
pub data Code : Type 0 where
  returned : ℕ → Code
  no_value : Code

-- The records put into the queue, in order, and the result; `none` where the fuel runs out.
abbrev pub Walk : Type 0
Walk = Option (List FileInfo × Code)

-- `.` and `..`
abbrev pub is_dot : Bytes → Bool
is_dot name = same_text name (codes ".") || same_text name (codes "..")

abbrev pub below : Bytes → Bytes → Bytes
below root name = root ++ (codes "/" ++ name)

abbrev pub both : Walk → Option (List FileInfo) → Option (List FileInfo)
both none later = none
both (some (out, code)) later = Option.map (λ more. out ++ more) later

-- The loop over the names of a directory, with `visit` for the recursive call.
unfoldable pub walk_entries : (Bytes → Walk) → Bytes → List Bytes → Option (List FileInfo)
walk_entries visit root [] = some []
walk_entries visit root (name ∷ names) =
    let later = walk_entries visit root names in
    if is_dot name then later else both (visit (below root name)) later

module _ (fs : FileSystem) where
  abbrev pub walk_dir : (Bytes → Walk) → Bytes → Option (List Bytes) → Walk
  walk_dir visit root none = some ([], returned 1)
  walk_dir visit root (some names) =
      Option.map (λ out. (out, returned 0)) (walk_entries visit root names)

  -- The switch over the kind of the file.
  abbrev pub walk_type : (Bytes → Walk) → Bytes → ℕ → FileType → Walk
  walk_type visit root time elnk = some ([], no_value)
  walk_type visit root time ereg = some (init root ereg time ∷ [], returned 0)
  walk_type visit root time edir = walk_dir visit root (fs.list_dir root)
  walk_type visit root time echr = some ([], no_value)
  walk_type visit root time eblk = some ([], no_value)
  walk_type visit root time efifo = some ([], no_value)
  walk_type visit root time esock = some ([], no_value)
  walk_type visit root time err = some ([], returned 1)

  abbrev pub walk_file : (Bytes → Walk) → Bytes → Option (ℕ × ℕ) → Walk
  walk_file visit root none = some ([], returned 1)
  walk_file visit root (some (mode, time)) = walk_type visit root time (get_file_type mode)

  -- `_traverse_file_system`, with fuel for the depth of the recursion.
  unfoldable pub traverse : ℕ → Bytes → Walk
  unfolding walk_entries
  traverse zero root = none
  traverse (suc fuel) root = walk_file (traverse fuel) root (fs.lstat root)
