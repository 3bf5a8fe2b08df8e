-- ===== src/Init/Fill.antt =====
-- The option --init when the walk ends before the reader starts: `out_sys_files` and `in_db` of
-- src/main.cpp one after the other, over `add_file_info` of src/ef_file.cpp and the queue on its heap.
pub mod Stored
pub mod Whole
pub mod Renamed
pub mod Searched
pub mod Answered
use everyfile.Prelude.{
  ℕ, zero, suc, Bool, Option, none, some, List, [], ◌∷◌, ◌++◌, Bytes, ◌==◌, if◌then◌else◌,
}
use everyfile.Queue.{Queue, Run, ok, fault, out_of_fuel, create, enqueue, dequeue}
use everyfile.Scan.Info.{FileInfo}
use everyfile.Scan.Walk.{FileSystem, Walk, traverse}
use everyfile.Db.{Action, add}

-- What has been handed to SQLite when the reader has left its loop; or an access through a bad
-- pointer, a query that is printed behind its string, or fuel that ran out.
pub data Filled : Type 0 where
  stored : List Action → Filled
  faulted : Filled
  overran : Filled
  unfinished : Filled

-- For the call number `n` of the queue, `new n` is the address of fresh memory, `weak n` and `final n`
-- are the failures of the compare-and-swap; `rounds` is the fuel of a call.
module _ (weak : ℕ → ℕ → Bool) (final : ℕ → Bool) (new : ℕ → ℕ) (rounds : ℕ) where
  abbrev pub add_file_info : ℕ → FileInfo → Queue FileInfo → Run (Queue FileInfo)
  add_file_info n info q = enqueue (weak n) (final n) rounds (new n) info q

  abbrev and_put :
      (Queue FileInfo → Run (Queue FileInfo)) → Run (Queue FileInfo) → Run (Queue FileInfo)
  and_put more (ok q) = more q
  and_put more fault = fault
  and_put more out_of_fuel = out_of_fuel

  -- The records of the walk, as they are found.
  unfoldable pub put_found : ℕ → List FileInfo → Queue FileInfo → Run (Queue FileInfo)
  unfolding enqueue
  put_found n [] q = ok q
  put_found n (info ∷ infos) q = and_put (put_found (suc n) infos) (add_file_info n info q)

  abbrev of_walk : Queue FileInfo → Walk → Run (Queue FileInfo)
  of_walk q none = out_of_fuel
  of_walk q (some (out, code)) = put_found 0 out q

  unfoldable pub out_sys_files :
      FileSystem → (depth : ℕ) → Bytes → Queue FileInfo → Run (Queue FileInfo)
  unfolding put_found traverse
  out_sys_files fs depth root q = of_walk q (traverse fs depth root)

  abbrev and_add :
      (Queue FileInfo → List Action → Filled)
      → Queue FileInfo
      → List Action
      → Option (List Action)
      → Filled
  and_add again q acts none = overran
  and_add again q acts (some more) = again q (acts ++ more)

  -- The body of the loop of `in_db`, with `again` for the next round.
  abbrev in_db_step :
      (out : ℕ)
      → (Queue FileInfo → List Action → Filled)
      → List Action
      → Run (Queue FileInfo × Option FileInfo)
      → Filled
  in_db_step out again acts (ok (q, none)) = if out == 0 then stored acts else again q acts
  in_db_step out again acts (ok (q, some info)) = and_add again q acts (add info)
  in_db_step out again acts fault = faulted
  in_db_step out again acts out_of_fuel = unfinished

  unfoldable pub in_db : (out fuel n : ℕ) → Queue FileInfo → List Action → Filled
  unfolding dequeue add
  in_db out zero n q acts = unfinished
  in_db out (suc fuel) n q acts =
      in_db_step out (in_db out fuel (suc n)) acts (dequeue (weak n) rounds 0 q)

  abbrev and_read : ℕ → Run (Queue FileInfo) → Filled
  and_read fuel (ok q) = in_db 0 fuel 0 q []
  and_read fuel fault = faulted
  and_read fuel out_of_fuel = unfinished

  -- `buf` starts with an entry at `node` that holds some record.
  unfoldable pub fill : (node : ℕ) → FileInfo → FileSystem → (depth fuel : ℕ) → Bytes → Filled
  unfolding create out_sys_files in_db
  fill node info fs depth fuel root = and_read fuel (out_sys_files fs depth root (create node info))
