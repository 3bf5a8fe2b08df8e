-- ===== src/Init/Interleaved/Dangling.antt =====
-- An entry is deleted while the thread that walks is about to read it.
use everyfile.Prelude.{ℕ, ◌≡◌, ◌≢◌, refl, false, none, some, List, [], ◌∷◌, ◌++◌, arith}
use everyfile.Queue.{Pointer, create}
use everyfile.Queue.Chain.{has}
use everyfile.Queue.Life.{create-IsQueue}
use everyfile.Queue.Shared.{got_tail}
use everyfile.Queue.Shared.Threads.{Threads, Act, Acts, idle, act}
use everyfile.Queue.Shared.Threads
use everyfile.Queue.Shared.Sound.{Distinct}
use everyfile.Queue.Shared.Dangling.{enqueue_dangles}
use everyfile.Init.{walking, looping}
use everyfile.Init.Interleaved.{
  State, begin, puts, next, wake, takes, add, empty, again, Steps, done, more, init,
}

module _ {R : Type 0} where
  -- Both threads are at work.
  abbrev at_work : Threads R → List R → State R
  at_work t db = record {
    out = 1;
    walker = walking;
    reader = looping;
    queue = t.queue;
    jobs = t.jobs;
    put = t.put;
    get = t.get;
    db = db;
  }

  at_work-Act :
      (t0 : State R) (s t : Threads R) (db : List R)
      → Act s t
      → Steps t0 (at_work s db)
      → (db' : List R) × Steps t0 (at_work t db')
  at_work-Act t0 s _ db (Threads.puts e move) run = (db, more run (puts refl e move))
  at_work-Act t0 s _ db (Threads.next_put e f) run = (db, more run (next refl e f))
  at_work-Act t0 s _ db (Threads.takes take) run = (db, more run (takes refl take))
  at_work-Act t0 s _ db (Threads.next_take {o = none} e) run =
      (db, more (more run (empty refl e)) (again refl (omega arith)))
  at_work-Act t0 s _ db (Threads.next_take {o = some r} e) run =
      (db ++ r ∷ [], more run (add refl e))

  at_work-Acts :
      (t0 : State R) (s t : Threads R) (db : List R)
      → Acts s t
      → Steps t0 (at_work s db)
      → (db' : List R) × Steps t0 (at_work t db')
  at_work-Acts t0 s _ db idle run = (db, run)
  at_work-Acts t0 s u db (act {t} before step) run =
      let (db', run') = at_work-Acts t0 s t db before run in at_work-Act t0 t u db' step run'

  -- If the addresses of new entries are not NULL and differ, then for every walk that finds three
  -- records there is an order of the accesses of --init in which the walking thread is about to
  -- read through the tail that it has read, and that entry has been deleted.
  pub accesses-dangle :
      (node node_1 node_2 node_3 : ℕ) (value value_1 value_2 value_3 : R)
      → node ≢ 0
      → Distinct ((node_1, value_1) ∷ (node_2, value_2) ∷ (node_3, value_3) ∷ [])
      → has {A = R} node ((node_1, value_1) ∷ (node_2, value_2) ∷ (node_3, value_3) ∷ []) ≡ false
      → (t : State R) × (tail : Pointer) × Steps
          (init node value ((node_1, value_1) ∷ (node_2, value_2) ∷ (node_3, value_3) ∷ []))
          t
        × (t.put ≡ got_tail tail)
        × (t.queue.heap tail.ptr ≡ none)
  unfolding create
  accesses-dangle node node_1 node_2 node_3 value value_1 value_2 value_3 ne distinct apart =
      let jobs : List (ℕ × R) = (node_1, value_1) ∷ (node_2, value_2) ∷ (node_3, value_3) ∷ [] in
      let (t, tail, acts, stands, gone) =
        enqueue_dangles (create node value) node_1 node_2 node_3 value_1 value_2 value_3
          (create-IsQueue node value ne) (ground (arith, apart)) (ground (arith, apart))
          (ground (arith, apart)) distinct.0 distinct.2.0 (ground (arith, distinct.1))
          (ground (arith, distinct.1)) (ground (arith, distinct.2.1)) in
      let (db, run) =
        at_work-Acts (init node value jobs) _ t [] acts
          (more (more done (begin refl)) (wake refl)) in
      (at_work t db, tail, run, stands, gone)
