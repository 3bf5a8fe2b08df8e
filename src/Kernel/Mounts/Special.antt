-- ===== src/Kernel/Mounts/Special.antt =====
-- The test of mount points against its meaning: a directory or a path below it.
use everyfile.Prelude.{
  ℕ, zero, suc, ◌≡◌, refl, ap, ◌∙◌, ◌↔◌, ◌⊎◌, inl, inr, Bool, true, false, ◌&&◌, ◌||◌, not, Option,
  none, some, List, [], ◌∷◌, ◌++◌, Bytes, arith, length, length-append, All, get_or, get_or-append,
  ◌==◌, ==_iff, Bool-cases, same_text, same_text_iff, strstr, strstr_start, starts_with_rest,
  starts_with-append, codes,
}
use everyfile.Kernel.Mounts.{at_start, mounted_at, is_special_mp}

-- `mp` is the directory `root` or lies below it.
abbrev pub IsUnder : Bytes → Bytes → Type 0
IsUnder mp root = (mp ≡ root) ⊎ ((rest : Bytes) × (mp ≡ root ++ b'/' ∷ rest))

at_start_iff : (o : Option ℕ) → (at_start o ≡ true) ↔ (o ≡ some 0)
at_start_iff none = (λ h. cc, λ h. cc)
at_start_iff (some zero) = (λ h. refl, λ h. refl)
at_start_iff (some (suc i)) = (λ h. cc, λ h. ground arith)

-- The last test of `mounted_at` and what it says of the text behind the prefix.
below_root :
    (root rest : Bytes)
    → (get_or (root ++ rest) (length root) 0 == b'/') ≡ true
    → (tail : Bytes) × (rest ≡ b'/' ∷ tail)
below_root root [] h = ground (arith, get_or-append root [] 0)
below_root root (c ∷ rest) h = (rest, ground (arith, get_or-append root (c ∷ rest) 0))

strict_prefix :
    (mp root : Bytes)
    → at_start (strstr mp root) ≡ true
    → (get_or mp (length root) 0 == b'/') ≡ true
    → (rest : Bytes) × (mp ≡ root ++ b'/' ∷ rest)
strict_prefix mp root front slash =
    let (rest, e) =
      starts_with_rest mp root ((strstr_start mp root).0 ((at_start_iff _).0 front)) in
    let (tail, f) = below_root root rest (rw e at slash) in (tail, e ∙ ap (λ t. root ++ t) f)

mounted_at-below : (root rest : Bytes) → mounted_at (root ++ b'/' ∷ rest) root ≡ true
unfolding mounted_at
mounted_at-below root rest =
    let front : at_start (strstr (root ++ b'/' ∷ rest) root) ≡ true =
      (at_start_iff _).1
        ((strstr_start (root ++ b'/' ∷ rest) root).1 (starts_with-append root (b'/' ∷ rest))) in
    ground (arith, front, length-append root (b'/' ∷ rest), get_or-append root (b'/' ∷ rest) 0)

-- mounted_at holds exactly for the directory itself and for the paths below it.
pub mounted_at_iff : (mp root : Bytes) → (mounted_at mp root ≡ true) ↔ IsUnder mp root
unfolding mounted_at
mounted_at_iff mp root = (to, from)
  where
    to : mounted_at mp root ≡ true → IsUnder mp root
    to h = elim (Bool-cases (same_text mp root)) [
      | inl same ↦ inl ((same_text_iff mp root).0 same)
      | inr other ↦ inr (strict_prefix mp root (ground arith) (ground arith))
    ]

    from : IsUnder mp root → mounted_at mp root ≡ true
    from (inl e) = ground (arith, (same_text_iff mp root).1 e)
    from (inr (rest, e)) = rw e (mounted_at-below root rest)

-- The directories whose file systems are not reported.
abbrev pub special_dirs : List Bytes
special_dirs =
    codes "/sys" ∷ codes "/proc" ∷ codes "/run" ∷ codes "/dev" ∷ codes "/var" ∷ codes "/tmp" ∷ []

-- An absolute path outside all of them.
pub record IsReported (mp : Bytes) : Type 0 where
  pub absolute : get_or mp 0 0 ≡ b'/'
  pub outside : All (λ dir. ¬ IsUnder mp dir) special_dirs

not-IsUnder : (mp dir : Bytes) → (mounted_at mp dir ≡ false) ↔ (¬ IsUnder mp dir)
not-IsUnder mp dir = (
  λ h u. ground (arith, (mounted_at_iff mp dir).1 u),
  λ h. elim (Bool-cases (mounted_at mp dir)) [
    | inl at ↦ absurd (h ((mounted_at_iff mp dir).0 at))
    | inr off ↦ off
  ],
)

-- Of each directory the test and its meaning.
abbrev misses : Bytes → List Bytes → Bool
misses mp [] = true
misses mp (dir ∷ dirs) = not (mounted_at mp dir) && misses mp dirs

misses_iff :
    (mp : Bytes) (dirs : List Bytes) → (misses mp dirs ≡ true) ↔ All (λ dir. ¬ IsUnder mp dir) dirs
misses_iff mp [] = (λ _. tt, λ _. refl)
misses_iff mp (dir ∷ dirs) = (
  λ h. ((not-IsUnder mp dir).0 (ground arith), (misses_iff mp dirs).0 (ground arith)),
  λ h. ground (arith, (not-IsUnder mp dir).1 h.0, (misses_iff mp dirs).1 h.1),
)

all_false :
    (a b c d e f g : Bool)
    → ((not a || b || c || d || e || f || g) ≡ false) ↔ (
        (a ≡ true)
        × ((not b && (not c && (not d && (not e && (not f && (not g && true)))))) ≡ true))
all_false a b c d e f g = (λ h. ground arith, λ h. ground arith)

-- is_special_mp passes exactly the absolute paths that lie neither at nor below /sys, /proc, /run,
-- /dev, /var and /tmp.
pub is_special_mp_iff : (mp : Bytes) → (is_special_mp (some mp) ≡ false) ↔ IsReported mp
unfolding is_special_mp
is_special_mp_iff mp = (
  λ h.
      let (absolute, missed) = (all_false (get_or mp 0 0 == b'/') _ _ _ _ _ _).0 h in
      record {
        absolute = (==_iff _ _).0 absolute;
        outside = (misses_iff mp special_dirs).0 missed;
      },
  λ r.
      (all_false (get_or mp 0 0 == b'/') _ _ _ _ _ _).1
        ((==_iff _ _).1 r.absolute, (misses_iff mp special_dirs).1 r.outside),
)
