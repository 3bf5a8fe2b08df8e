-- ===== src/Kernel/Mounts/Lookup.antt =====
-- The partition that `get_root` finds.
use everyfile.Prelude.{ℕ, ◌≡◌, ◌≢◌, refl, ◌⊎◌, List, [], ◌∷◌, ◌++◌, arith, All}
use everyfile.Kernel.State.{Partition, Kernel, ok, Unlocked}
use everyfile.Kernel.Mounts.{find_root, get_root}

-- Another device.
abbrev pub Differs : ℕ → ℕ → Partition → Type 0
Differs major minor p = (p.major ≢ major) ⊎ (p.minor ≢ minor)

module _ (major minor : ℕ) where
  find_root-first :
      (before : List Partition) (p : Partition) (after : List Partition)
      → All (Differs major minor) before
      → p.major ≡ major
      → p.minor ≡ minor
      → find_root major minor (before ++ p ∷ after) ≡ p.root
  unfolding find_root
  find_root-first [] p after others e f = ground arith
  find_root-first (q ∷ before) p after others e f =
      ground (arith, others.0, find_root-first before p after others.1)

  find_root-none :
      (ps : List Partition) → All (Differs major minor) ps → find_root major minor ps ≡ []
  unfolding find_root
  find_root-none [] others = refl
  find_root-none (q ∷ ps) others = ground (arith, others.0, find_root-none ps others.1)

  -- get_root gives the mount point of the first partition with the device numbers, and leaves the
  -- state as it was.
  pub get_root-first :
      (k : Kernel) (before : List Partition) (p : Partition) (after : List Partition)
      → Unlocked k
      → k.partitions ≡ before ++ p ∷ after
      → All (Differs major minor) before
      → p.major ≡ major
      → p.minor ≡ minor
      → get_root major minor k ≡ ok p.root k
  unfolding get_root
  get_root-first k before p after u split others e f =
      ground (arith, find_root-first before p after others e f)

  -- Where no partition has these device numbers, the text is empty.
  pub get_root-none :
      (k : Kernel)
      → Unlocked k
      → All (Differs major minor) k.partitions
      → get_root major minor k ≡ ok [] k
  unfolding get_root
  get_root-none k u others = ground (arith, find_root-none k.partitions others)
