-- ===== src/Db.antt =====
-- src/ef_db.cpp: the statements that the program hands to SQLite.
pub mod Text
pub mod Name
pub mod Fuzzy
pub mod Quote
pub mod Sqlite
pub mod Table
pub mod Instance
use everyfile.Prelude.{
  ℕ, zero, suc, ◌+◌, ◌-◌, Bool, true, false, ◌&&◌, Option, none, some, List, [], ◌∷◌, ◌++◌, Bytes,
  length, get_or, set, take, replicate, leb, ◌==◌, if◌then◌else◌, codes, sprintf, Arg, text, num,
}
use mathlib.Core.Option
use everyfile.Scan.Info.{FileInfo, type_number}

-- What the constructor of `ef_db` executes; a line of the source that ends in `\` goes on with the
-- blanks of the next one.
abbrev pub create_table : Bytes
create_table =
    codes
      "CREATE TABLE IF NOT EXISTS `files`(         `file_name` varchar(255) PRIMARY KEY NOT NULL,         `file_type` varchar(20) NOT NULL,        `file_time` DATATIME)"

-- The room that each query gets.
abbrev pub query_size : ℕ
query_size = 4096

-- The index of the first terminator, or the number of bytes: the `for` over `insert_size`.
abbrev pub insert_size : Bytes → ℕ
insert_size [] = 0
insert_size (c ∷ s) = let later = suc (insert_size s) in if c == 0 then 0 else later

-- The text printed into the resized string, and the string cut at its first terminator. Past the
-- room (4096 bytes and the terminator) `sprintf` writes behind the string, and that is `none`.
unfoldable pub build : Bytes → List Arg → Option Bytes
build format args = elim (sprintf format args) [
  | none ↦ none
  | some s ↦
      let buffer = s ++ replicate (query_size - length s) 0 in
      if leb (length s) query_size then some (take (insert_size buffer) buffer) else none
]

unfoldable pub qry_exact : Bytes → Option Bytes
unfolding build
qry_exact name =
    build (codes "SELECT file_name, file_type, file_time FROM files WHERE file_name = \"%s\"")
      (text name ∷ [])

-- In the source the pattern is written `\%%s\%`, and `\%` is a plain `%`.
unfoldable pub qry_no_exact : Bytes → Option Bytes
unfolding build
qry_no_exact name =
    build (codes "SELECT file_name, file_type, file_time FROM files WHERE file_name like \"%%s%\"")
      (text name ∷ [])

-- `for (i = 1; i < size; i++) name[i-1] = name[i]` with `n` rounds left.
unfoldable pub shift_loop : ℕ → ℕ → Bytes → Bytes
shift_loop zero i name = name
shift_loop (suc n) i name = shift_loop n (i + 1) (set name (i - 1) (get_or name i 0))

-- The start of `add`: the name is moved up by one byte where it begins with two slashes.
unfoldable pub strip : Bytes → Bytes
unfolding shift_loop
strip name =
    if get_or name 0 0 == b'/' && get_or name 1 0 == b'/'
    then shift_loop (length name - 1) 1 name
    else name

-- What reaches SQLite, in order.
pub data Action : Type 0 where
  begin commit : Action
  execute : Bytes → Action

unfoldable pub insert_sql : FileInfo → Option Bytes
unfolding build
insert_sql info =
    build (codes "INSERT INTO files values(\"%s\",\"%d\",datetime(%ld,\"unixepoch\"))")
      (text info.file_name ∷ num (type_number info.file_type) ∷ num info.file_time ∷ [])

unfoldable pub add : FileInfo → Option (List Action)
unfolding insert_sql strip
add info =
    Option.map (λ sql. begin ∷ execute sql ∷ commit ∷ [])
      (insert_sql (record info { file_name = strip info.file_name }))

unfoldable pub delete_sql : Bytes → Option Bytes
unfolding build
delete_sql name = build (codes "DELETE FROM files WHERE file_name = \"%s\"") (text name ∷ [])

unfoldable pub rm : Bytes → Option (List Action)
unfolding delete_sql
rm name = Option.map (λ sql. execute sql ∷ []) (delete_sql name)

-- `mv` does nothing, and says so by its result.
unfoldable pub mv : Bytes → Bytes → ℕ
mv source target = 1
