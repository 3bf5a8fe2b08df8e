-- ===== src/Init/Fill/Whole.antt =====
-- The option --init as a whole: the files of a tree become INSERT statements.
use everyfile.Prelude.{
  ℕ, suc, ◌+◌, ◌≡◌, ◌≢◌, ◌<◌, ◌==◌, ◌↔◌, refl, sym, ◌∙◌, ap, inl, inr, Bool, false, some, List, [],
  ◌∷◌, arith, All, Bytes, length,
}
use mathlib.Core.Path.{subst}
use everyfile.Queue.{create}
use everyfile.Queue.Steady.{IsSteady}
use everyfile.Queue.Fifo.{IsFresh, values}
use everyfile.Queue.Life.{create-IsQueue}
use everyfile.Scan.Info.{FileInfo}
use everyfile.Scan.Walk.{FileSystem, Code, traverse}
use everyfile.Scan.Walk.Entries.{In}
use everyfile.Scan.Walk.Found.{Found}
use everyfile.Scan.Walk.Depth.{IsShallow, traverse_lem}
use everyfile.Init.Fill.{stored, out_sys_files, fill}
use everyfile.Init.Fill.Stored.{IsStorable, inserts, Put, put_found_lem, in_db_lem}

pub All-of-In : {A : Type 0} (P : A → Type 0) (xs : List A) → ((x : A) → In x xs → P x) → All P xs
All-of-In P [] h = tt
All-of-In P (x ∷ xs) h = (h x (inl refl), All-of-In P xs (λ y i. h y (inr i)))

length-values : {A : Type 0} (cells : List (ℕ × A)) → length (values cells) ≡ length cells
unfolding values
length-values [] = refl
length-values ((b, v) ∷ cells) = ap suc (length-values cells)

module _ (weak : ℕ → ℕ → Bool) (k : ℕ) (final : ℕ → Bool) (new : ℕ → ℕ) (node : ℕ)
    (first : FileInfo) (steady : (n : ℕ) → IsSteady (weak n) k) (fresh : IsFresh new)
    (ne : node ≢ 0) (other : (n : ℕ) → (new n == node) ≡ false) where
  Put-first :
      (infos : List FileInfo) → Put weak k final new steady fresh 0 infos (create node first) []
  unfolding create
  Put-first infos =
      put_found_lem weak k final new steady fresh 0 infos (create node first) []
        (create-IsQueue node first ne) (λ m le. rw (other m))

  fill-out :
      (fs : FileSystem) (depth fuel : ℕ) (root : Bytes) (out : List FileInfo) (code : Code)
      → traverse fs depth root ≡ some (out, code)
      → All IsStorable out
      → length out < fuel
      → fill weak final new (k + 2) node first fs depth fuel root ≡ stored (inserts out)
  unfolding fill out_sys_files values
  fill-out fs depth fuel root out code e all enough =
      let (q, cells, put, is, held) = Put-first out in
      rw (e, put)
        (in_db_lem weak k final new steady fresh fuel 0 q cells [] is
            (subst (All IsStorable) (sym held) all)
            (omega (arith, enough, ap length held, length-values cells))
          ∙ ap (λ t. stored (inserts t)) held)

  -- If the walk ends before the reader starts, new addresses do not repeat and the compare-and-
  -- swap of a call fails without a reason at most in its first k rounds, on a tree that is not
  -- deeper than the fuel and whose files have names that fit a statement, the option --init ends
  -- without a fault; SQLite has got one transaction for each record in the order of the walk,
  -- which inserts the name that add makes of the path, and the records are exactly the regular
  -- files that directories lead to from the start.
  pub fill_lem :
      (fs : FileSystem) (depth : ℕ) (root : Bytes)
      → IsShallow fs depth root
      → ((info : FileInfo) → Found fs root info → IsStorable info)
      → (out : List FileInfo) × ((fuel : ℕ)
          → length out < fuel
          → fill weak final new (k + 2) node first fs depth fuel root ≡ stored (inserts out))
        × ((info : FileInfo) → In info out ↔ Found fs root info)
  fill_lem fs depth root shallow storable =
      let (out, code, e, exact) = traverse_lem fs depth root shallow in
      (
        out,
        λ fuel enough.
            fill-out fs depth fuel root out code e
              (All-of-In IsStorable out (λ info i. storable info ((exact info).0 i))) enough,
        exact,
      )
