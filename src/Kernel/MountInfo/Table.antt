-- ===== src/Kernel/MountInfo/Table.antt =====
-- A whole mount table is parsed into its partitions.
use everyfile.Prelude.{
  ℕ, suc, ◌%◌, ◌^◌, ◌≡◌, sym, ◌∙◌, ap, inl, inr, Bool, Option, none, some, List, [], ◌∷◌, ◌++◌,
  append-nil, append_assoc, Bytes, arith, All, length, if◌then◌else◌, Bool-cases,
}
use everyfile.Kernel.State.{Partition}
use everyfile.Kernel.Mounts.{is_special_mp}
use everyfile.Kernel.MountInfo.{parsed, add_partition, parse_loop, parse_mounts_info}
use everyfile.Kernel.MountInfo.Line.{Mount, IsMount, line_text, ReadsLines, after_newline-line}

unfoldable pub table : List Mount → Bytes
table [] = []
table (m ∷ ms) = line_text m (table ms)

-- The numbers of a device are kept in a byte each.
abbrev pub to_partition : Mount → Partition
to_partition m = record { major = m.major % 2 ^ 8; minor = m.minor % 2 ^ 8; root = m.mp }

-- The partitions of the lines from the `i`-th on that are not special and get memory.
unfoldable pub kept : (mem : ℕ → Bool) → ℕ → List Mount → List Partition
kept mem i [] = []
kept mem i (m ∷ ms) =
    let later = kept mem (suc i) ms in
    if is_special_mp (some m.mp) then later else if mem i then to_partition m ∷ later else later

one_byte : (n : ℕ) → n % 2 ^ 32 % 2 ^ 8 ≡ n % 2 ^ 8
one_byte n = omega arith

add_partition-kept :
    (mem : ℕ → Bool) (i : ℕ) (m : Mount) (ms : List Mount) (ps : List Partition)
    → add_partition (mem i) (m.major % 2 ^ 32) (m.minor % 2 ^ 32) m.mp ps ++ kept mem (suc i) ms
      ≡ ps ++ kept mem i (m ∷ ms)
unfolding kept
add_partition-kept mem i m ms ps = elim (Bool-cases (is_special_mp (some m.mp))) [
  | inl special ↦ rw special
  | inr plain ↦ elim (Bool-cases (mem i)) [
    | inl given ↦
        rw (plain, given, one_byte m.major, one_byte m.minor)
          (append_assoc ps (to_partition m ∷ []) (kept mem (suc i) ms))
    | inr refused ↦ rw (plain, refused)
  ]
]

parse_loop-end :
    (sscanf : Bytes → Option (ℕ × ℕ × Bytes)) (mem : ℕ → Bool) (fuel i : ℕ) (line : Bytes)
    (ps : List Partition)
    → sscanf line ≡ none
    → parse_loop sscanf mem (suc fuel) i line ps ≡ parsed ps
unfolding parse_loop
parse_loop-end sscanf mem fuel i line ps e = rw e

parse_loop-table :
    (sscanf : Bytes → Option (ℕ × ℕ × Bytes)) (mem : ℕ → Bool) (ms : List Mount) (i : ℕ)
    (ps : List Partition)
    → ReadsLines sscanf
    → All IsMount ms
    → parse_loop sscanf mem (suc (length ms)) i (table ms) ps ≡ parsed (ps ++ kept mem i ms)
unfolding parse_loop table kept
parse_loop-table sscanf mem [] i ps reads all =
    parse_loop-end sscanf mem 0 i [] ps reads.end ∙ ap parsed (sym (append-nil ps))
parse_loop-table sscanf mem (m ∷ ms) i ps reads all =
    rw (reads.line m (table ms) all.0, after_newline-line m (table ms) all.0)
      (parse_loop-table sscanf mem ms (suc i)
          (add_partition (mem i) (m.major % 2 ^ 32) (m.minor % 2 ^ 32) m.mp ps) reads all.1
        ∙ ap parsed (add_partition-kept mem i m ms ps))

-- If sscanf reads lines, the text of a mount table is parsed in one round for each line and one at
-- the end; the partitions of the lines that are not special and get memory are added in order,
-- with their numbers modulo 2 ^ 8.
pub parse_mounts_info-table :
    (sscanf : Bytes → Option (ℕ × ℕ × Bytes)) (mem : ℕ → Bool) (ms : List Mount)
    (ps : List Partition)
    → ReadsLines sscanf
    → All IsMount ms
    → parse_mounts_info sscanf mem (suc (length ms)) (some (table ms)) ps
      ≡ parsed (ps ++ kept mem 0 ms)
unfolding parse_mounts_info
parse_mounts_info-table sscanf mem ms ps reads all = parse_loop-table sscanf mem ms 0 ps reads all
