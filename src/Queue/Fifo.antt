-- ===== src/Queue/Fifo.antt =====
-- Any sequence of calls of the queue, next to the list that it stands for.
use everyfile.Prelude.{
  ℕ, suc, ◌+◌, ◌≡◌, ◌≢◌, ◌≤◌, ◌<◌, ◌==◌, refl, ◌∙◌, ap, Bool, false, Option, none, some, List, [],
  ◌∷◌, ◌++◌, arith,
}
use everyfile.Queue.{Entry, Queue, Run, ok, fault, out_of_fuel, enqueue, dequeue, create}
use everyfile.Queue.Chain.{IsQueue}
use everyfile.Queue.Steady.{IsSteady}
use everyfile.Queue.Enqueue.{enqueue_lem}
use everyfile.Queue.Dequeue.{dequeue-nil, dequeue-cons}
use everyfile.Queue.Life.{create-IsQueue}

pub data Call (A : Type 0) : Type 0 where
  put : A → Call A
  take : Call A

-- No address is NULL, or comes twice.
pub record IsFresh (new : ℕ → ℕ) : Type 0 where
  pub not_null : (n : ℕ) → new n ≢ 0
  pub once : (m n : ℕ) → n < m → (new m == new n) ≡ false

module _ {A : Type 0} where
  -- The results of `dequeue` when a list is used from both ends.
  unfoldable pub fifo : List A → List (Call A) → List (Option A)
  fifo xs [] = []
  fifo xs (put v ∷ calls) = fifo (xs ++ v ∷ []) calls
  fifo [] (take ∷ calls) = none ∷ fifo [] calls
  fifo (x ∷ xs) (take ∷ calls) = some x ∷ fifo xs calls

  abbrev after_put : (Queue A → Run (List (Option A))) → Run (Queue A) → Run (List (Option A))
  after_put more (ok q) = more q
  after_put more fault = fault
  after_put more out_of_fuel = out_of_fuel

  abbrev with_result : Option A → Run (List (Option A)) → Run (List (Option A))
  with_result r (ok rs) = ok (r ∷ rs)
  with_result r fault = fault
  with_result r out_of_fuel = out_of_fuel

  abbrev after_take :
      (Queue A → Run (List (Option A))) → Run (Queue A × Option A) → Run (List (Option A))
  after_take more (ok (q, r)) = with_result r (more q)
  after_take more fault = fault
  after_take more out_of_fuel = out_of_fuel

  -- The calls on the queue. For the call number `n`, `new n` is the address of fresh memory, and
  -- `weak n` and `final n` are the failures of the compare-and-swap.
  unfoldable pub run_calls :
      (weak : ℕ → ℕ → Bool) (final : ℕ → Bool) (new : ℕ → ℕ) (rounds n : ℕ)
      → List (Call A)
      → Queue A
      → Run (List (Option A))
  unfolding enqueue dequeue
  run_calls weak final new rounds n [] q = ok []
  run_calls weak final new rounds n (put v ∷ calls) q =
      after_put (run_calls weak final new rounds (suc n) calls)
        (enqueue (weak n) (final n) rounds (new n) v q)
  run_calls weak final new rounds n (take ∷ calls) q =
      after_take (run_calls weak final new rounds (suc n) calls) (dequeue (weak n) rounds 0 q)

  unfoldable pub values : List (ℕ × A) → List A
  values [] = []
  values ((b, v) ∷ cells) = v ∷ values cells

  pub values-snoc :
      (cells : List (ℕ × A)) (b : ℕ) (v : A)
      → values (cells ++ (b, v) ∷ []) ≡ values cells ++ v ∷ []
  unfolding values
  values-snoc [] b v = refl
  values-snoc ((c, w) ∷ cells) b v = rw (values-snoc cells b v)

  -- The addresses of the calls from `n` on are free.
  abbrev pub Free : (ℕ → ℕ) → ℕ → (ℕ → Option (Entry A)) → Type 0
  Free new n h = (m : ℕ) → n ≤ m → h (new m) ≡ none

  module _ (weak : ℕ → ℕ → Bool) (k : ℕ) (final : ℕ → Bool) (new : ℕ → ℕ)
      (steady : (n : ℕ) → IsSteady (weak n) k) (fresh : IsFresh new) where
    pub dequeue_empty :
        (n : ℕ) (q : Queue A) → IsQueue q [] → dequeue (weak n) (k + 2) 0 q ≡ ok (q, none)
    dequeue_empty n q is =
        let two : k + 2 ≡ suc (suc k) = omega arith in
        rw two (dequeue-nil (weak n) k (steady n) (suc k) 0 q is)

    run_calls-values :
        (n : ℕ) (calls : List (Call A)) (q : Queue A) (cells : List (ℕ × A))
        → IsQueue q cells
        → Free new n q.heap
        → run_calls weak final new (k + 2) n calls q ≡ ok (fifo (values cells) calls)
    unfolding run_calls fifo values
    run_calls-values n [] q cells is free = refl
    run_calls-values n (put v ∷ calls) q cells is free =
        let (q', run, is', spared) =
          enqueue_lem (weak n) k (final n) (new n) v q cells (steady n) is (fresh.not_null n)
            (free n (omega arith)) in
        let later : Free new (suc n) q'.heap = (λ m le.
          spared (new m) (free m (omega (arith, le))) (fresh.once m n (omega (arith, le)))) in
        rw run (
          run_calls-values (suc n) calls q' (cells ++ (new n, v) ∷ []) is' later
          ∙ ap (λ vs. ok (fifo vs calls)) (values-snoc cells (new n) v))
    run_calls-values n (take ∷ calls) q [] is free = rw (
      dequeue_empty n q is,
      run_calls-values (suc n) calls q [] is λ m le. free m (omega (arith, le)),
    )
    run_calls-values n (take ∷ calls) q ((b, v) ∷ cells) is free =
        let (q', run, is', spared) = dequeue-cons (weak n) k q b v cells (steady n) is in
        let later : Free new (suc n) q'.heap =
          (λ m le. spared (new m) (free m (omega (arith, le)))) in
        rw (run, run_calls-values (suc n) calls q' cells is' later)

    -- On a queue that is just made, every sequence of enqueue and dequeue by one thread ends
    -- without a fault and gives the results of a first-in first-out list, if the addresses of new
    -- memory do not repeat, the compare-and-swap of each call fails without a reason at most in
    -- its first k rounds, and the call gets k + 2.
    pub run_calls-fifo :
        (node : ℕ) (value : A) (calls : List (Call A))
        → node ≢ 0
        → ((n : ℕ) → (new n == node) ≡ false)
        → run_calls weak final new (k + 2) 0 calls (create node value) ≡ ok (fifo [] calls)
    unfolding create values
    run_calls-fifo node value calls ne other =
        run_calls-values 0 calls (create node value) [] (create-IsQueue node value ne)
          λ m le. rw (other m)
