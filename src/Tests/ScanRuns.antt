-- ===== src/Tests/ScanRuns.antt =====
-- src/os/linux/_file.cpp at a small file system.
use everyfile.Prelude.{
  ◌≡◌, ◌↔◌, ◌⊎◌, true, All, refl, inl, inr, none, some, List, [], ◌∷◌, codes, same_text,
  if◌then◌else◌,
}
use mathlib.Core.Path.{subst}
use mathlib.Core.Option.{some-injective}
use everyfile.Scan.Info.{FileInfo}
use everyfile.Scan.Walk.{is_dot, below, FileSystem, Code, traverse}
use everyfile.Scan.Walk.Entries.{In}
use everyfile.Scan.Walk.Found.{Found}
use everyfile.Scan.Walk.Depth.{IsShallow, traverse_lem}

-- A directory with one file.
abbrev small : FileSystem
small = record {
  lstat = λ p.
      if same_text p (codes "/d")
      then some (0o40755, 7)
      else if same_text p (codes "/d/f")
      then some (0o100644, 9)
      else none;
  list_dir = λ p.
      if same_text p (codes "/d") then some (codes "." ∷ codes ".." ∷ codes "f" ∷ []) else none;
}

small-IsShallow : IsShallow small 2 (codes "/d")
small-IsShallow names e =
    subst
      (λ ns. All (λ name. (is_dot name ≡ true) ⊎ IsShallow small 1 (below (codes "/d") name)) ns)
      (some-injective _ _ e) (inl refl, (inl refl, (inr (λ ns f. cc), tt)))

traverse_lem_example :
    (out : List FileInfo) × (code : Code) × (traverse small 2 (codes "/d") ≡ some (out, code))
    × ((info : FileInfo) → In info out ↔ Found small (codes "/d") info)
traverse_lem_example = traverse_lem small 2 (codes "/d") small-IsShallow
