-- ===== src/Command/Answer.antt =====
-- What an exact search prints, for the rows of the table.
use everyfile.Prelude.{
  ◌≡◌, ◌≤◌, refl, ap, ◌∙◌, Bool, true, false, Option, none, some, List, [], ◌∷◌, ◌++◌, Bytes,
  length, codes, append-nil, if◌then◌else◌,
}
use everyfile.Db.{query_size}
use everyfile.Db.Text.{exact_text}
use everyfile.Db.Sqlite.{Sqlite, IsPlain, rows_of, IsLawful}
use everyfile.Command.{Opt, ran, print_res, end_line, main}
use everyfile.Command.Exact.{ReadsOptions, main-exact_apart}

abbrev pub present {ℓ} : {V : Type ℓ} → Option V → Bool
present none = false
present (some v) = true

-- What the command prints for a name: the name that it looks for, and the one that it finds.
abbrev pub answer : Bytes → Bool → Bytes
answer n found = end_line n ++ (if found then end_line n else [])

module _ (S : Sqlite) (L : IsLawful S) (getopt_long : List Bytes → Opt)
    (reads : ReadsOptions getopt_long) where
  print-rows :
      (n : Bytes) (o : Option S.Value)
      → end_line n ++ print_res (rows_of S n o) ≡ answer n (present o)
  unfolding print_res
  print-rows n none = refl
  print-rows n (some v) = ap (λ s. end_line n ++ s) (append-nil (end_line n))

  pub search-answer :
      (command n : Bytes) (s : S.State)
      → IsPlain n
      → length (exact_text n) ≤ query_size
      → main getopt_long (S.select s) (command ∷ codes "-e" ∷ n ∷ [])
        ≡ ran (answer n (present (S.row s n))) (exact_text n ∷ [])
  search-answer command n s plain short =
      main-exact_apart getopt_long (S.select s) reads command n plain.clean short
      ∙ ap (λ r. ran (end_line n ++ print_res r) (exact_text n ∷ [])) (L.select-exact s n plain)
      ∙ ap (λ t. ran t (exact_text n ∷ [])) (print-rows n (S.row s n))
