-- ===== src/Command/Exact.antt =====
-- What the option for an exact search looks for.
use everyfile.Prelude.{
  ◌≡◌, ◌≤◌, refl, List, [], ◌∷◌, ◌++◌, Bytes, IsText, IsText-append, is_text_lem, arith, length,
  codes,
}
use everyfile.Db.{query_size}
use everyfile.Db.Text.{exact_text, qry_exact_lem}
use everyfile.Db.Fuzzy.{qry_no_exact-none}
use everyfile.Command.{Opt, Row, Ran, ran, undefined, print_res, end_line, get_argv, main}

-- The options of `getopt_long`, as the manual page describes them: behind an option with its argument
-- `optind` is the index of the next word, whether the argument is a word of its own or not.
pub record ReadsOptions (getopt_long : List Bytes → Opt) : Type 0 where
  pub exact_apart :
      (command name : Bytes)
      → getopt_long (command ∷ codes "-e" ∷ name ∷ []) ≡ record { c = b'e'; optind = 3 }
  pub exact_joined :
      (command name : Bytes)
      → getopt_long (command ∷ (codes "--exact=" ++ name) ∷ []) ≡ record { c = b'e'; optind = 2 }
  pub fuzzy_apart :
      (command name : Bytes)
      → getopt_long (command ∷ codes "-f" ∷ name ∷ []) ≡ record { c = b'f'; optind = 3 }

-- The run of a search for `name`.
abbrev pub search_for : (rows : Bytes → List Row) → Bytes → Ran
search_for rows name =
    ran (end_line name ++ print_res (rows (exact_text name))) (exact_text name ∷ [])

module _ (getopt_long : List Bytes → Opt) (rows : Bytes → List Row)
    (reads : ReadsOptions getopt_long) (command name : Bytes) where
  pub main-exact_apart :
      IsText name
      → length (exact_text name) ≤ query_size
      → main getopt_long rows (command ∷ codes "-e" ∷ name ∷ []) ≡ search_for rows name
  unfolding main get_argv
  main-exact_apart clean short = rw (reads.exact_apart command name, qry_exact_lem name clean short)

  -- If getopt_long sets optind as documented, an exact search with a word of its own for the name
  -- runs the query for the name, with --exact=name it runs the query for the whole word, and a
  -- fuzzy search is undefined, for a name without terminator that leaves room in the query.
  pub main-exact :
      IsText name
      → length (exact_text (codes "--exact=" ++ name)) ≤ query_size
      → (main getopt_long rows (command ∷ codes "-e" ∷ name ∷ []) ≡ search_for rows name)
        × (main getopt_long rows (command ∷ (codes "--exact=" ++ name) ∷ [])
            ≡ search_for rows (codes "--exact=" ++ name))
        × (main getopt_long rows (command ∷ codes "-f" ∷ name ∷ []) ≡ undefined)
  unfolding main get_argv
  main-exact clean short = (
    main-exact_apart clean (omega (arith, short)),
    rw (
      reads.exact_joined command name,
      qry_exact_lem (codes "--exact=" ++ name)
          (IsText-append (codes "--exact=") name (is_text_lem (codes "--exact=") refl) clean) short,
    ),
    rw (reads.fuzzy_apart command name, qry_no_exact-none name),
  )
