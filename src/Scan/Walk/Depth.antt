-- ===== src/Scan/Walk/Depth.antt =====
-- How much fuel a walk needs: the depth of the tree below its start.
use everyfile.Prelude.{
  ℕ, zero, suc, ◌≡◌, refl, ◌⊎◌, inl, inr, true, Option, none, some, List, [], ◌∷◌, ◌++◌, ◌↔◌, Bytes,
  All, All-map, Bool-cases,
}
use everyfile.Scan.Info.{
  FileType, elnk, ereg, edir, echr, eblk, efifo, esock, err, FileInfo, get_file_type,
}
use everyfile.Scan.Walk.Entries.{In}
use everyfile.Scan.Walk.Found.{Found, traverse-Found}
use everyfile.Scan.Walk.{
  FileSystem, Code, returned, Walk, is_dot, below, walk_entries, walk_dir, walk_type, walk_file,
  traverse,
}

-- Fewer than `n` directories lie on any way down from `root`.
abbrev pub IsShallow : FileSystem → ℕ → Bytes → Type 0
IsShallow fs zero root = ⊥
IsShallow fs (suc n) root =
    (names : List Bytes)
    → fs.list_dir root ≡ some names
    → All (λ name. (is_dot name ≡ true) ⊎ IsShallow fs n (below root name)) names

abbrev IsDone : Walk → Type 0
IsDone r = (out : List FileInfo) × (code : Code) × (r ≡ some (out, code))

abbrev CanPass : (Bytes → Walk) → Bytes → Bytes → Type 0
CanPass visit root name = (is_dot name ≡ true) ⊎ IsDone (visit (below root name))

entries_done :
    (visit : Bytes → Walk) (root : Bytes) (names : List Bytes)
    → All (CanPass visit root) names
    → (out : List FileInfo) × (walk_entries visit root names ≡ some out)
unfolding walk_entries
entries_done visit root [] all = ([], refl)
entries_done visit root (name ∷ names) (now, all) =
    let (more, later) = entries_done visit root names all in
    elim now [
      | inl dot ↦ (more, rw (dot, later))
      | inr (front, code, e) ↦ elim (Bool-cases (is_dot name)) [
        | inl dot ↦ (more, rw (dot, later))
        | inr plain ↦ (front ++ more, rw (plain, e, later))
      ]
    ]

module _ (fs : FileSystem) (n : ℕ) (visit : Bytes → Walk)
    (known : (p : Bytes) → IsShallow fs n p → IsDone (visit p)) where
  CanPass-below :
      (root name : Bytes)
      → (is_dot name ≡ true) ⊎ IsShallow fs n (below root name)
      → CanPass visit root name
  CanPass-below root name (inl dot) = inl dot
  CanPass-below root name (inr s) = inr (known (below root name) s)

  dir-IsDone :
      (root : Bytes) (o : Option (List Bytes))
      → fs.list_dir root ≡ o
      → IsShallow fs (suc n) root
      → IsDone (walk_dir fs visit root o)
  dir-IsDone root none e s = ([], returned 1, refl)
  dir-IsDone root (some names) e s =
      let (out, w) = entries_done visit root names (
        All-map (λ name. (is_dot name ≡ true) ⊎ IsShallow fs n (below root name))
          (CanPass visit root) (CanPass-below root) names (s names e)) in
      (out, returned 0, rw w)

  type-IsDone :
      (root : Bytes) (time : ℕ) (type : FileType)
      → IsShallow fs (suc n) root
      → IsDone (walk_type fs visit root time type)
  type-IsDone root time edir s = dir-IsDone root (fs.list_dir root) refl s
  type-IsDone root time elnk s = (_, _, refl)
  type-IsDone root time ereg s = (_, _, refl)
  type-IsDone root time echr s = (_, _, refl)
  type-IsDone root time eblk s = (_, _, refl)
  type-IsDone root time efifo s = (_, _, refl)
  type-IsDone root time esock s = (_, _, refl)
  type-IsDone root time err s = (_, _, refl)

  file-IsDone :
      (root : Bytes) (o : Option (ℕ × ℕ))
      → IsShallow fs (suc n) root
      → IsDone (walk_file fs visit root o)
  file-IsDone root none s = (_, _, refl)
  file-IsDone root (some (mode, time)) s = type-IsDone root time (get_file_type mode) s

traverse-IsDone :
    (fs : FileSystem) (n : ℕ) (root : Bytes) → IsShallow fs n root → IsDone (traverse fs n root)
unfolding traverse
traverse-IsDone fs zero root s = absurd s
traverse-IsDone fs (suc n) root s =
    file-IsDone fs n (traverse fs n) (traverse-IsDone fs n) root (fs.lstat root) s

-- On a tree that is not deeper than the fuel the walk ends, and it has recorded exactly the
-- regular files that directories lead to from its start, with path and time.
pub traverse_lem :
    (fs : FileSystem) (n : ℕ) (root : Bytes)
    → IsShallow fs n root
    → (out : List FileInfo) × (code : Code) × (traverse fs n root ≡ some (out, code))
      × ((info : FileInfo) → In info out ↔ Found fs root info)
traverse_lem fs n root s =
    let (out, code, e) = traverse-IsDone fs n root s in
    (out, code, e, traverse-Found fs n root out code e)
