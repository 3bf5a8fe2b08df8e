-- ===== src/Scan/Walk/Found.antt =====
-- Which files a walk records: the regular files below the start that directories lead to.
use everyfile.Prelude.{
  ℕ, zero, suc, ◌≡◌, ◌≢◌, refl, sym, ◌∙◌, ◌⊎◌, ◌↔◌, inl, inr, false, Option, none, some, List, [],
  ◌∷◌, Bytes, arith, true, Bool-cases, codes, same_text, same_text_iff,
}
use mathlib.Core.Path.{subst}
use everyfile.Scan.Walk.Entries.{In, entries_sound, entries_complete}
use everyfile.Scan.Info.{
  FileType, elnk, ereg, edir, echr, eblk, efifo, esock, err, FileInfo, init, get_file_type,
}
use everyfile.Scan.Walk.{
  FileSystem, Code, Walk, is_dot, below, walk_entries, walk_dir, walk_type, walk_file, traverse,
}

-- An entry of a directory other than itself and its parent.
pub record IsEntry (name : Bytes) : Type 0 where
  pub not_self : name ≢ codes "."
  pub not_parent : name ≢ codes ".."

is_dot_cases : (name : Bytes) → IsEntry name → ¬ (is_dot name ≡ true)
is_dot_cases name h dot = elim (Bool-cases (same_text name (codes "."))) [
  | inl self ↦ h.not_self ((same_text_iff name (codes ".")).0 self)
  | inr other ↦ h.not_parent ((same_text_iff name (codes "..")).0 (ground arith))
]

IsEntry-iff : (name : Bytes) → (is_dot name ≡ false) ↔ IsEntry name
IsEntry-iff name = (
  λ h. record {
    not_self = λ e. ground (arith, (same_text_iff name (codes ".")).1 e);
    not_parent = λ e. ground (arith, (same_text_iff name (codes "..")).1 e);
  },
  λ h. elim (Bool-cases (is_dot name)) [
    | inl dot ↦ absurd (is_dot_cases name h dot)
    | inr plain ↦ plain
  ],
)

-- A regular file is found at its own path, and whatever a directory's entries lead to.
pub data Found (fs : FileSystem) : Bytes → FileInfo → Type 0 where
  here :
      {root : Bytes} {info : FileInfo} {mode time : ℕ}
      → fs.lstat root ≡ some (mode, time)
      → get_file_type mode ≡ ereg
      → info ≡ init root ereg time
      → Found fs root info
  deeper :
      {root : Bytes} {info : FileInfo} {mode time : ℕ} {names : List Bytes} (name : Bytes)
      → fs.lstat root ≡ some (mode, time)
      → get_file_type mode ≡ edir
      → fs.list_dir root ≡ some names
      → In name names
      → IsEntry name
      → Found fs (below root name) info
      → Found fs root info

module _ (fs : FileSystem) where
  -- What a walk that ended has to do with the files below its start.
  abbrev Records : (Bytes → Walk) → Type 0
  Records visit =
      (p : Bytes) (out : List FileInfo) (code : Code)
      → visit p ≡ some (out, code)
      → (info : FileInfo) → In info out ↔ Found fs p info

  Found-cases :
      (root : Bytes) (info : FileInfo) (mode time : ℕ)
      → fs.lstat root ≡ some (mode, time)
      → Found fs root info
      → ((get_file_type mode ≡ ereg) × (info ≡ init root ereg time))
        ⊎ ((names : List Bytes) × (name : Bytes) × (get_file_type mode ≡ edir)
            × (fs.list_dir root ≡ some names)
            × In name names
            × (is_dot name ≡ false)
            × Found fs (below root name) info)
  Found-cases root info mode time e (here l t i) = inl (ground arith, ground arith)
  Found-cases root info mode time e (deeper {names} name l t d i p f) =
      inr (names, name, ground arith, d, i, (IsEntry-iff name).1 p, f)

  abbrev Same : FileInfo → List FileInfo → Bytes → Type 0
  Same info out root = In info out ↔ Found fs root info

  Same-nil :
      (info : FileInfo) (out : List FileInfo) (root : Bytes)
      → out ≡ []
      → ¬ Found fs root info
      → Same info out root
  Same-nil info out root e unfound =
      (λ i. absurd (subst (λ t. In info t) e i), λ f. absurd (unfound f))

  -- Nothing is found at what is neither a regular file nor a directory.
  unfound_type :
      (root : Bytes) (info : FileInfo) (mode time : ℕ) (type : FileType)
      → fs.lstat root ≡ some (mode, time)
      → get_file_type mode ≡ type
      → type ≢ ereg
      → type ≢ edir
      → ¬ Found fs root info
  unfound_type root info mode time type l t file dir f =
      elim (Found-cases root info mode time l f) [
        | inl (e, _) ↦ file (sym t ∙ e)
        | inr g ↦ dir (sym t ∙ g.2)
      ]

  Same-file :
      (root : Bytes) (info : FileInfo) (mode time : ℕ) (out : List FileInfo)
      → fs.lstat root ≡ some (mode, time)
      → get_file_type mode ≡ ereg
      → out ≡ init root ereg time ∷ []
      → Same info out root
  Same-file root info mode time out l t e = (
    λ i. elim (subst (λ t. In info t) e i) [ inl same ↦ here l t same | inr f ↦ absurd f ],
    λ f.
        subst (λ t. In info t) (sym e)
          (elim (Found-cases root info mode time l f) [
            | inl (_, same) ↦ inl same
            | inr g ↦ absurd (ground (arith, g.2))
          ]),
  )

  Same-dir :
      (visit : Bytes → Walk) (root : Bytes) (info : FileInfo) (mode time : ℕ) (names : List Bytes)
      (out : List FileInfo)
      → Records visit
      → fs.lstat root ≡ some (mode, time)
      → get_file_type mode ≡ edir
      → fs.list_dir root ≡ some names
      → walk_entries visit root names ≡ some out
      → Same info out root
  Same-dir visit root info mode time names out r l t d w = (to, from)
    where
      to : In info out → Found fs root info
      to i =
          let (name, at, plain, f) =
            entries_sound visit root info (λ p. Found fs p info) (λ p o c e h. (r p o c e info).0 h)
              names out w i in
          deeper name l t d at ((IsEntry-iff name).0 plain) f

      from : Found fs root info → In info out
      from f = elim (Found-cases root info mode time l f) [
        | inl (e, _) ↦ absurd (ground arith)
        | inr (names', name, _, d', at, plain, g) ↦
            let same : names' ≡ names = ground arith in
            entries_complete visit root info names out name w (subst (λ t. In name t) same at) plain
              λ o c e. (r (below root name) o c e info).1 g
      ]

  Same-listed :
      (visit : Bytes → Walk) (root : Bytes) (info : FileInfo) (mode time : ℕ)
      (o : Option (List Bytes)) (out : List FileInfo) (code : Code)
      → Records visit
      → fs.lstat root ≡ some (mode, time)
      → get_file_type mode ≡ edir
      → fs.list_dir root ≡ o
      → walk_dir fs visit root o ≡ some (out, code)
      → Same info out root
  Same-listed visit root info mode time none out code r l t d w =
      Same-nil info out root (ground arith) λ f. elim (Found-cases root info mode time l f) [
        | inl (e, _) ↦ ground arith
        | inr g ↦ ground (arith, g.3)
      ]
  Same-listed visit root info mode time (some names) out code r l t d w =
      Same-dir visit root info mode time names out r l t d (ground arith)

  Same-type :
      (visit : Bytes → Walk) (root : Bytes) (info : FileInfo) (mode time : ℕ) (type : FileType)
      (out : List FileInfo) (code : Code)
      → Records visit
      → fs.lstat root ≡ some (mode, time)
      → get_file_type mode ≡ type
      → walk_type fs visit root time type ≡ some (out, code)
      → Same info out root
  Same-type visit root info mode time ereg out code r l t w =
      Same-file root info mode time out l t (ground arith)
  Same-type visit root info mode time edir out code r l t w =
      Same-listed visit root info mode time (fs.list_dir root) out code r l t refl w
  Same-type visit root info mode time elnk out code r l t w =
      Same-nil info out root (ground arith)
        (unfound_type root info mode time elnk l t (λ e. cc) (λ e. cc))
  Same-type visit root info mode time echr out code r l t w =
      Same-nil info out root (ground arith)
        (unfound_type root info mode time echr l t (λ e. cc) (λ e. cc))
  Same-type visit root info mode time eblk out code r l t w =
      Same-nil info out root (ground arith)
        (unfound_type root info mode time eblk l t (λ e. cc) (λ e. cc))
  Same-type visit root info mode time efifo out code r l t w =
      Same-nil info out root (ground arith)
        (unfound_type root info mode time efifo l t (λ e. cc) (λ e. cc))
  Same-type visit root info mode time esock out code r l t w =
      Same-nil info out root (ground arith)
        (unfound_type root info mode time esock l t (λ e. cc) (λ e. cc))
  Same-type visit root info mode time err out code r l t w =
      Same-nil info out root (ground arith)
        (unfound_type root info mode time err l t (λ e. cc) (λ e. cc))

  not_there : (root : Bytes) (info : FileInfo) → fs.lstat root ≡ none → ¬ Found fs root info
  not_there root info e (here l t i) = ground arith
  not_there root info e (deeper name l t d i p f) = ground arith

  Same-lstat :
      (visit : Bytes → Walk) (root : Bytes) (info : FileInfo) (o : Option (ℕ × ℕ))
      (out : List FileInfo) (code : Code)
      → Records visit
      → fs.lstat root ≡ o
      → walk_file fs visit root o ≡ some (out, code)
      → Same info out root
  Same-lstat visit root info none out code r l w =
      Same-nil info out root (ground arith) (not_there root info l)
  Same-lstat visit root info (some (mode, time)) out code r l w =
      Same-type visit root info mode time (get_file_type mode) out code r l refl w

  -- A walk that ends has recorded exactly the regular files that directories lead to from its
  -- start, whatever it could not read.
  pub traverse-Found :
      (fuel : ℕ) (root : Bytes) (out : List FileInfo) (code : Code)
      → traverse fs fuel root ≡ some (out, code)
      → (info : FileInfo) → In info out ↔ Found fs root info
  unfolding traverse
  traverse-Found zero root out code w info = cc
  traverse-Found (suc fuel) root out code w info =
      Same-lstat (traverse fs fuel) root info (fs.lstat root) out code (traverse-Found fuel) refl w
