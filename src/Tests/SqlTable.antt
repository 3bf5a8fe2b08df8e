-- ===== src/Tests/SqlTable.antt =====
-- A database for the statements of src/ef_db.cpp: a function from names to the texts behind them.
use everyfile.Prelude.{
  ℕ, ◌≡◌, refl, ap, ◌∙◌, Option, none, some, List, [], ◌∷◌, ◌++◌, Bytes, arith, same_text, codes,
  decimal, if◌then◌else◌, ◌==◌,
}
use everyfile.Scan.Info.{FileInfo, FileType, type_number}
use everyfile.Command.{Row}
use everyfile.Db.{Action, begin, commit, execute}
use everyfile.Db.Text.{insert_text, delete_text, exact_text}
use everyfile.Db.Quote.{HasNoQuote}
use everyfile.Db.Sqlite.{Sqlite, kept, rows_of, IsLawful}

-- The text before the first quote, and what is behind it.
split_quote : Bytes → Bytes × Bytes
split_quote [] = ([], [])
split_quote (c ∷ s) =
    let later = split_quote s in if c == b'"' then ([], s) else (c ∷ later.0, later.1)

split_quote_lem :
    (name rest : Bytes) → HasNoQuote name → split_quote (name ++ b'"' ∷ rest) ≡ (name, rest)
unfolding split_quote
split_quote_lem [] rest h = refl
split_quote_lem (c ∷ name) rest h = ground (arith, h.0, split_quote_lem name rest h.1)

abbrev pub Table : Type 0
Table = Bytes → Option Bytes

-- The statement's front, the name between its quotes, and what is behind.
abbrev parts : Bytes → Bytes × (Bytes × Bytes)
parts text = ((split_quote text).0, split_quote (split_quote text).1)

abbrev change : Table → Bytes → Bytes × Bytes → Bytes → Option Bytes
change t front (name, rest) n =
    if same_text front (codes "INSERT INTO files values(")
    then (if same_text n name then kept (t n) rest else t n)
    else if same_text front (codes "DELETE FROM files WHERE file_name = ")
    then (if same_text n name then none else t n)
    else t n

unfoldable pub table_act : Action → Table → Table
unfolding split_quote
table_act begin t = t
table_act commit t = t
table_act (execute text) t = change t (parts text).0 (parts text).1

-- What stands behind the name in an INSERT.
abbrev pub value_text : FileType → ℕ → Bytes
value_text type now =
    codes ",\""
    ++ (decimal (type_number type)
        ++ (codes "\",datetime(" ++ (decimal now ++ codes ",\"unixepoch\"))")))

unfoldable pub table_rows : Bytes → Option Bytes → List Row
table_rows name none = []
table_rows name (some v) = record { file_name = name; file_type = v; file_time = [] } ∷ []

unfoldable pub table_select : Table → Bytes → List Row
unfolding split_quote table_rows
table_select t text = let name = (parts text).1.0 in table_rows name (t name)

abbrev pub table : Sqlite
table = record {
  State = Table;
  Value = Bytes;
  value = value_text;
  texts = λ v. (v, []);
  act = table_act;
  select = table_select;
  row = λ t n. t n;
}

insert-parts :
    (info : FileInfo)
    → HasNoQuote info.file_name
    → parts (insert_text info) ≡ (
      codes "INSERT INTO files values(",
      (info.file_name, value_text info.file_type info.file_time),
    )
unfolding split_quote
insert-parts info h =
    ap (λ p. (codes "INSERT INTO files values(", p))
      (split_quote_lem info.file_name (value_text info.file_type info.file_time) h)

named-parts :
    (name : Bytes)
    → HasNoQuote name
    → (parts (delete_text name) ≡ (codes "DELETE FROM files WHERE file_name = ", (name, [])))
      × ((parts (exact_text name)).1 ≡ (name, []))
unfolding split_quote
named-parts name h =
    let named = split_quote_lem name [] h in
    (ap (λ p. (codes "DELETE FROM files WHERE file_name = ", p)) named, named)

rows-same : (name : Bytes) (o : Option Bytes) → table_rows name o ≡ rows_of table name o
unfolding table_rows
rows-same name none = refl
rows-same name (some v) = refl

pub table-IsLawful : IsLawful table
unfolding table_act table_select table_rows
table-IsLawful = record {
  row-begin = λ t n. refl;
  row-commit = λ t n. refl;
  row-create = λ t n. refl;
  row-insert = λ t info n h. ap (λ p. change t p.0 p.1 n) (insert-parts info h.unquoted);
  row-delete = λ t name n h. ap (λ p. change t p.0 p.1 n) (named-parts name h.unquoted).0;
  select-exact =
      λ t n h. ap (λ p. table_rows p.0 (t p.0)) (named-parts n h.unquoted).1 ∙ rows-same n (t n);
}
