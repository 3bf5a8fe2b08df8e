-- ===== src/Queue/Life.antt =====
-- The constructor and the destructor of the queue.
use everyfile.Prelude.{
  ℕ, suc, ◌+◌, ◌≡◌, ◌≢◌, refl, Bool, true, false, List, [], ◌∷◌, arith, length, ◌==◌,
}
use everyfile.Queue.{pointer, Entry, Queue, ok, create, destroy}
use everyfile.Queue.Chain.{IsQueue}
use everyfile.Queue.Steady.{IsSteady}
use everyfile.Queue.Dequeue.{dequeue-cons}

module _ {A : Type 0} where
  pub create-IsQueue : (node : ℕ) (value : A) → node ≢ 0 → IsQueue (create node value) []
  unfolding create
  create-IsQueue node value ne =
      let entry : Entry A = record { value = value; next = pointer 0 0 } in
      record {
        last = node;
        chain = (ne, (entry, ground arith, refl), refl);
        tail = refl;
        counted = refl;
      }

  -- On a queue that holds cells the destructor ends after one call of dequeue for each of them, if
  -- the compare-and-swap of every call fails without a reason at most in its first k rounds; the
  -- queue is then empty.
  pub destroy_lem :
      (weak : ℕ → ℕ → Bool) (k n : ℕ) (q : Queue A) (cells : List (ℕ × A))
      → ((i : ℕ) → IsSteady (weak i) k)
      → IsQueue q cells
      → (q' : Queue A) × (destroy weak (k + 2) (suc (length cells)) n q ≡ ok q') × IsQueue q' []
  unfolding destroy
  destroy_lem weak k n q [] steady is =
      let none_left : (q.size == 0) ≡ true = ground (arith, is.counted) in (q, rw none_left, is)
  destroy_lem weak k n q ((b, v) ∷ cells) steady is =
      let some_left : (q.size == 0) ≡ false = ground (arith, is.counted) in
      let (q1, run, is1, spared) = dequeue-cons (weak n) k q b v cells (steady n) is in
      let (q2, rest, is2) = destroy_lem weak k (suc n) q1 cells steady is1 in
      (q2, rw (some_left, run) rest, is2)
