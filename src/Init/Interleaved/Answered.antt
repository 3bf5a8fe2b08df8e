-- ===== src/Init/Interleaved/Answered.antt =====
-- What a search finds behind --init, whatever the order of the accesses.
use everyfile.Prelude.{◌≡◌, Option, none, some, List, [], ◌∷◌, ◌++◌, Bytes, codes}
use everyfile.Scan.Info.{FileInfo}
use everyfile.Scan.Walk.{FileSystem}
use everyfile.Scan.Walk.Entries.{In}
use everyfile.Scan.Walk.Found.{Found}
use everyfile.Db.{Action, add}
use everyfile.Db.Name.{last}
use everyfile.Db.Sqlite.{Sqlite}

abbrev and_then : Option (List Action) → Option (List Action) → Option (List Action)
and_then none acts = none
and_then (some acts) none = none
and_then (some acts) (some later) = some (acts ++ later)

-- The statements of the calls of `add`.
pub adds : List FileInfo → Option (List Action)
unfolding add
adds [] = some []
adds (info ∷ infos) = and_then (add info) (adds infos)

-- The name is the path of one of the records, which a walk from / finds, less one slash, and with its
-- last byte twice.
abbrev pub IsDoubledIn : FileSystem → List FileInfo → Bytes → Type 0
IsDoubledIn fs infos n =
    (info : FileInfo) × (path : Bytes) × In info infos
    × Found fs (codes "/") info
    × (info.file_name ≡ b'/' ∷ b'/' ∷ path)
    × (n ≡ b'/' ∷ (path ++ last b'/' path ∷ []))
