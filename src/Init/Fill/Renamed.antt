-- ===== src/Init/Fill/Renamed.antt =====
-- Under which names the files below / are stored.
use everyfile.Prelude.{
  ℕ, ◌≡◌, sym, ◌∙◌, ap, some, [], ◌∷◌, ◌++◌, append_assoc, append-nil, arith, Bytes, codes,
}
use everyfile.Scan.Info.{FileInfo, edir, init, get_file_type}
use everyfile.Scan.Walk.{FileSystem, below}
use everyfile.Scan.Walk.Found.{Found, here, deeper}
use everyfile.Db.{strip}
use everyfile.Db.Name.{last, strip-slashes}

-- The names of what is found begin with the path of the start.
Found-name :
    (fs : FileSystem) (root : Bytes) (info : FileInfo)
    → Found fs root info
    → (s : Bytes) × (info.file_name ≡ root ++ s)
unfolding init
Found-name fs root info (here l t e) = ([], rw e (sym (append-nil root)))
Found-name fs root info (deeper name l t d i p f) =
    let (s, e) = Found-name fs (below root name) info f in
    (codes "/" ++ (name ++ s), e ∙ append_assoc root (codes "/" ++ name) s)

-- Where / is a directory, the path of every file that the walk finds from / begins with two
-- slashes, and add stores it with one slash less and its last byte doubled.
pub Found-strip :
    (fs : FileSystem) (info : FileInfo) (mode time : ℕ)
    → fs.lstat (codes "/") ≡ some (mode, time)
    → get_file_type mode ≡ edir
    → Found fs (codes "/") info
    → (s : Bytes) × (info.file_name ≡ b'/' ∷ b'/' ∷ s)
      × (strip info.file_name ≡ b'/' ∷ (s ++ last b'/' s ∷ []))
Found-strip fs info mode time l t (here l' t' e) = absurd (ground arith)
Found-strip fs info mode time l t (deeper name l' t' d i p f) =
    let (s, e) = Found-name fs (below (codes "/") name) info f in
    (name ++ s, e, ap strip e ∙ strip-slashes (name ++ s))
