-- ===== src/Tests/MountRuns.antt =====
-- `parse_mounts_info` of kernelmod/vfs_kprobe.c at a concrete mount table.
use everyfile.Prelude.{All, ◌<◌, decimal, ℕ, ◌≢◌, ◌≤◌, refl, List, [], ◌∷◌, arith, codes, length}
use everyfile.Kernel.MountInfo.Scan.{IsSolid}
use everyfile.Kernel.MountInfo.Line.{Mount, IsMount}
use everyfile.Kernel.MountInfo.Table.{table}

abbrev mount : ℕ → List ℕ → Mount
mount n mp = record {
  id = n;
  parent = 1;
  major = 8;
  minor = n;
  source = codes "/";
  mp = mp;
  options = codes "rw";
}

abbrev pub mounts : List Mount
mounts = mount 1 (codes "/home") ∷ mount 2 (codes "/sys/fs") ∷ mount 258 (codes "/srv") ∷ []

some_byte : (c : ℕ) (s : List ℕ) → (c ∷ s) ≢ []
some_byte c s h = cc

mount-IsMount :
    (n : ℕ) (mp : List ℕ) → mp ≢ [] → IsSolid mp → length mp ≤ 250 → IsMount (mount n mp)
mount-IsMount n mp ne solid fits = record {
  source_some = some_byte _ _;
  source_solid = (refl, tt);
  mp_some = ne;
  mp_solid = solid;
  mp_fits = fits;
  options_line = (refl, (refl, tt));
}

pub mounts-IsMount : All IsMount mounts
mounts-IsMount = (
  mount-IsMount 1 (codes "/home") (some_byte _ _) (refl, (refl, (refl, (refl, (refl, tt)))))
      (omega arith),
  (
    mount-IsMount 2 (codes "/sys/fs") (some_byte _ _)
        (refl, (refl, (refl, (refl, (refl, (refl, (refl, tt))))))) (omega arith),
    (
      mount-IsMount 258 (codes "/srv") (some_byte _ _) (refl, (refl, (refl, (refl, tt))))
          (omega arith),
      tt,
    ),
  ),
)

pub some_text : 0 < length (table mounts)
unfolding table decimal
some_text = omega arith
