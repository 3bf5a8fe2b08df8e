-- ===== src/Db/Fuzzy.antt =====
-- The query for fuzzy names.
use everyfile.Prelude.{◌≡◌, refl, none, Bytes, sprintf}
use everyfile.Db.{qry_no_exact}

-- For every name the fuzzy query is printed with a conversion that does not exist.
pub qry_no_exact-none : (name : Bytes) → qry_no_exact name ≡ none
unfolding qry_no_exact sprintf
qry_no_exact-none name = refl
