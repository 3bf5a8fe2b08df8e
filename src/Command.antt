-- ===== src/Command.antt =====
-- src/main.cpp: `main`, the options of the command. `getopt_long` and SQLite are arguments.
pub mod Exact
pub mod Answer
use everyfile.Prelude.{
  ℕ, zero, suc, ◌-◌, Bool, true, false, Option, none, some, List, [], ◌∷◌, ◌++◌, Bytes, ◌==◌,
  if◌then◌else◌, codes,
}
use mathlib.Core.Option
use everyfile.Db.{qry_exact, qry_no_exact}

-- What `getopt_long` returns, and `optind` behind it.
pub record Opt : Type 0 where
  pub c : ℕ
  pub optind : ℕ

-- A row of the table, as text.
pub record Row : Type 0 where
  pub file_name : Bytes
  pub file_type : Bytes
  pub file_time : Bytes

-- What has gone to `std::cout`, and the queries; `filled` is the option --init. `undefined` is an access
-- outside `argv`, or a query that is not printed as it should be.
pub data Ran : Type 0 where
  ran : (shown : Bytes) → (queries : List Bytes) → Ran
  filled : Ran
  undefined : Ran

abbrev pub end_line : Bytes → Bytes
end_line s = s ++ 10 ∷ []

-- The first column of each row.
unfoldable pub print_res : List Row → Bytes
print_res [] = []
print_res (r ∷ rs) = end_line r.file_name ++ print_res rs

-- `argv[optind-1]`
unfoldable pub get_argv : List Bytes → ℕ → Option Bytes
get_argv [] i = none
get_argv (a ∷ argv) zero = some a
get_argv (a ∷ argv) (suc i) = get_argv argv i

module _ (getopt_long : List Bytes → Opt) (rows : Bytes → List Row) where
  abbrev with_query : Bytes → Option Bytes → Ran
  with_query front none = undefined
  with_query front (some qry) = ran (front ++ print_res (rows qry)) (qry ∷ [])

  abbrev exact : Option Bytes → Ran
  exact none = undefined
  exact (some qry) = with_query (end_line qry) (qry_exact qry)

  abbrev fuzzy : Option Bytes → Ran
  fuzzy none = undefined
  fuzzy (some qry) = with_query [] (qry_no_exact qry)

  abbrev help : Bytes
  help =
      end_line (codes "--exact[-e] filename: search filename exactly.")
      ++ (end_line (codes "--fuzzy[-f] filename: search filename fuzzy.")
          ++ end_line (codes "--init: init ef_db. This step would cost a long time."))

  abbrev switch : List Bytes → Opt → Ran
  switch argv o =
      if o.c == b'e'
      then exact (get_argv argv (o.optind - 1))
      else if o.c == b'f'
      then fuzzy (get_argv argv (o.optind - 1))
      else if o.c == b'i'
      then filled
      else if o.c == b'h'
      then ran help []
      else ran (end_line (codes "error option.")) []

  unfoldable pub main : List Bytes → Ran
  unfolding print_res get_argv
  main argv = switch argv (getopt_long argv)
