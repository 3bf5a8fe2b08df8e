-- ===== src/Init/Fill/Answered.antt =====
-- The option --init, and the searches behind it: src/main.cpp as a whole.
use everyfile.Prelude.{
  ℕ, ◌≤◌, ◌≡◌, ◌↔◌, sym, ◌∙◌, ap, inl, inr, true, false, none, some, List, [], ◌∷◌, ◌++◌, Bytes,
  All, length, get_or, codes,
}
use everyfile.Scan.Info.{FileInfo, edir, get_file_type}
use everyfile.Scan.Walk.{FileSystem}
use everyfile.Scan.Walk.Found.{Found}
use everyfile.Db.{query_size, strip}
use everyfile.Db.Text.{exact_text}
use everyfile.Db.Name.{last}
use everyfile.Db.Quote.{HasNoQuote}
use everyfile.Db.Sqlite.{Sqlite, IsPlain, IsLawful}
use everyfile.Db.Table.{perform, open_db, open_db-row}
use everyfile.Command.{Opt, ran, main}
use everyfile.Command.Exact.{ReadsOptions}
use everyfile.Command.Answer.{present, answer, search-answer}
use everyfile.Init.Fill.Stored.{IsStorable, inserts}
use everyfile.Init.Fill.Renamed.{Found-strip}
use everyfile.Init.Fill.Searched.{
  IsPlainRecord, StoredAs, Has, inserts-StoredAs, StoredAs-inserts, answer-true, shown-of,
}

-- The name is the path of a file that the walk from / finds, less one slash, and with its last byte twice.
abbrev pub IsDoubled : FileSystem → Bytes → Type 0
IsDoubled fs n =
    (info : FileInfo) × (path : Bytes) × Found fs (codes "/") info
    × (info.file_name ≡ b'/' ∷ b'/' ∷ path)
    × (n ≡ b'/' ∷ (path ++ last b'/' path ∷ []))

module _ (fs : FileSystem) (mode time : ℕ) (at : fs.lstat (codes "/") ≡ some (mode, time))
    (dir : get_file_type mode ≡ edir) where
  pub Found-IsPlain :
      (info : FileInfo)
      → Found fs (codes "/") info
      → IsStorable info
      → HasNoQuote (strip info.file_name)
      → IsPlainRecord info
  Found-IsPlain info f s unquoted =
      let (path, e, doubled) = Found-strip fs info mode time at dir f in
      record { clean = s.clean; unquoted = unquoted; absolute = ap (λ t. get_or t 0 0) doubled }

-- A name that is not in the table at first is in it behind the transactions exactly if a record is
-- stored under it, and then the search shows it.
module _ (S : Sqlite) (L : IsLawful S) (getopt_long : List Bytes → Opt)
    (reads : ReadsOptions getopt_long) where
  -- The table when the statements of --init have been executed, opened again by the next command.
  abbrev pub filled : List FileInfo → S.State → S.State
  filled out s = open_db S (perform S (inserts out) (open_db S s))

  pub filled-Has :
      (out : List FileInfo) (s : S.State) (n : Bytes)
      → All IsPlainRecord out
      → S.row s n ≡ none
      → Has S L (filled out s) n ↔ StoredAs n out
  filled-Has out s n plain absent =
      let opened = open_db-row S L (perform S (inserts out) (open_db S s)) n in
      let before : present (S.row (open_db S s) n) ≡ false =
        ap present (open_db-row S L s n ∙ absent) in
      (
        λ h. elim (inserts-StoredAs S L out (open_db S s) n plain (sym (ap present opened) ∙ h)) [
          | inl e ↦ e
          | inr there ↦ cc
        ],
        λ e. ap present opened ∙ StoredAs-inserts S L out (open_db S s) n plain (inl e),
      )

  pub search-Has :
      (s : S.State) (command n : Bytes)
      → IsPlain n
      → length (exact_text n) ≤ query_size
      → (main getopt_long (S.select s) (command ∷ codes "-e" ∷ n ∷ [])
          ≡ ran (answer n true) (exact_text n ∷ []))
        ↔ Has S L s n
  search-Has s command n plain short =
      let shown = search-answer S L getopt_long reads command n s plain short in
      (
        λ h. answer-true n (present (S.row s n)) (
            shown-of (answer n (present (S.row s n))) (answer n true) (exact_text n ∷ [])
              (exact_text n ∷ []) (sym shown ∙ h)),
        λ h. shown ∙ ap (λ b. ran (answer n b) (exact_text n ∷ [])) h,
      )
