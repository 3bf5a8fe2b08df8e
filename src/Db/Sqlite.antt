-- ===== src/Db/Sqlite.antt =====
-- SQLite as src/ef_db.cpp uses it: the table `files`, whose key is the name.
use everyfile.Prelude.{
  ℕ, ◌≡◌, Option, none, some, List, [], ◌∷◌, Bytes, IsText, get_or, same_text, if◌then◌else◌,
}
use everyfile.Scan.Info.{FileInfo, FileType}
use everyfile.Command.{Row}
use everyfile.Db.{Action, begin, commit, execute, create_table}
use everyfile.Db.Text.{insert_text, delete_text, exact_text}
use everyfile.Db.Quote.{HasNoQuote}

-- The methods of a database over an unknown state. `row` is the row with a name, without the name.
pub record Sqlite : Type 1 where
  pub State : Type 0
  pub Value : Type 0
  pub value : FileType → ℕ → Value
  pub texts : Value → Bytes × Bytes
  pub act : Action → State → State
  pub select : State → Bytes → List Row
  pub row : State → Bytes → Option Value

-- A name that a quoted text can hold, and that is no name of a column: an absolute path without quotes.
pub record IsPlain (name : Bytes) : Type 0 where
  pub clean : IsText name
  pub unquoted : HasNoQuote name
  pub absolute : get_or name 0 0 ≡ b'/'

-- An INSERT that meets its key in the table fails, and leaves the row.
abbrev pub kept {ℓ} : {V : Type ℓ} → Option V → V → Option V
kept none v = some v
kept (some u) v = some u

module _ (S : Sqlite) where
  abbrev pub rows_of : Bytes → Option S.Value → List Row
  rows_of name none = []
  rows_of name (some v) =
      record { file_name = name; file_type = (S.texts v).0; file_time = (S.texts v).1 } ∷ []

  -- What SQLite documents of the statements.
  pub record IsLawful : Type 0 where
    pub row-begin : (s : S.State) (n : Bytes) → S.row (S.act begin s) n ≡ S.row s n
    pub row-commit : (s : S.State) (n : Bytes) → S.row (S.act commit s) n ≡ S.row s n
    pub row-create :
        (s : S.State) (n : Bytes) → S.row (S.act (execute create_table) s) n ≡ S.row s n
    pub row-insert :
        (s : S.State) (info : FileInfo) (n : Bytes)
        → IsPlain info.file_name
        → S.row (S.act (execute (insert_text info)) s) n ≡ (
            if same_text n info.file_name
            then kept (S.row s n) (S.value info.file_type info.file_time)
            else S.row s n)
    pub row-delete :
        (s : S.State) (name n : Bytes)
        → IsPlain name
        → S.row (S.act (execute (delete_text name)) s) n
          ≡ (if same_text n name then none else S.row s n)
    pub select-exact :
        (s : S.State) (n : Bytes) → IsPlain n → S.select s (exact_text n) ≡ rows_of n (S.row s n)
