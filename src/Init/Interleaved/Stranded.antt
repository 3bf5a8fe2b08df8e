-- ===== src/Init/Interleaved/Stranded.antt =====
-- A record that never reaches the database, an access at a time.
use everyfile.Prelude.{ℕ, ◌^◌, ◌<◌, sym, ◌≡◌, ◌≢◌, refl, false, List, [], ◌∷◌, ◌++◌, length}
use mathlib.Core.Path.{subst}
use everyfile.Queue.Chain.{has, IsQueue}
use everyfile.Queue.Fifo.{values}
use everyfile.Queue.Shared.Sound.{Distinct}
use everyfile.Init.{walked, left}
use everyfile.Init
use everyfile.Init.Lost.{stranded, init-strands}
use everyfile.Init.Interleaved.{State, Steps, init}
use everyfile.Init.Interleaved.Realized.{init-realized}

module _ {R : Type 0} where
  -- If the addresses of new entries are not NULL and differ, then for every walk that finds some
  -- and fewer than 2 ^ 32 records there is an order of the accesses of --init after which both
  -- threads have ended with the last record alone in the queue and those before it in the
  -- database.
  pub accesses-strand :
      (node : ℕ) (value : R) (jobs : List (ℕ × R)) (rs : List R) (r : R)
      → node ≢ 0
      → Distinct jobs
      → has node jobs ≡ false
      → length jobs < 2 ^ 32
      → values jobs ≡ rs ++ r ∷ []
      → (t : State R) × (cells : List (ℕ × R)) × Steps (init node value jobs) t
        × (t.walker ≡ walked)
        × (t.reader ≡ left)
        × (t.db ≡ rs)
        × IsQueue t.queue cells
        × (values cells ≡ r ∷ [])
  accesses-strand node value jobs rs r ne distinct apart few found =
      let run =
        subst (λ xs. Init.Steps (Init.init xs) (stranded rs r)) (sym found) (init-strands rs r) in
      let (q, later, cells, steps, queue, held, to_come) =
        init-realized node value jobs (stranded rs r) ne distinct apart few run in
      (_, cells, steps, refl, refl, refl, queue, held)
