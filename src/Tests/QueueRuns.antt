-- ===== src/Tests/QueueRuns.antt =====
-- src/datastruct/__no_lock_queue_with_CAS.h at concrete inputs.
use everyfile.Prelude.{
  ℕ, ◌≡◌, suc, refl, inl, false, true, some, none, List, [], ◌∷◌, arith, ◌==◌, if◌then◌else◌,
}
use everyfile.Queue.{pointer, Entry, Queue, ok, create, destroy}
use everyfile.Queue.Chain.{has, Chain, IsQueue}
use everyfile.Queue.Life.{destroy_lem}
use everyfile.Queue.Fifo.{Call, put, take, IsFresh, fifo, run_calls, run_calls-fifo}
use everyfile.Queue.Shared.{called, returned}
use everyfile.Queue.Shared.Lost.{Two, System, Steps, enqueue_loses}

abbrev entry : ℕ → ℕ → Entry ℕ
entry v p = record { value = v; next = pointer p 0 }

-- The queue before any value is added.
abbrev fresh : Queue ℕ
fresh = record {
  heap = λ a. if a == 1 then some (entry 0 0) else none;
  head = pointer 1 0;
  tail = pointer 1 0;
  size = 0;
}

-- One value, with the tail left behind.
abbrev behind : Queue ℕ
behind = record {
  heap = λ a. if a == 1 then some (entry 0 2) else if a == 2 then some (entry 7 0) else none;
  head = pointer 1 0;
  tail = pointer 1 0;
  size = 1;
}

fresh-Chain : Chain fresh.heap 1 [] 1
fresh-Chain = (omega arith, (entry 0 0, refl, refl), refl)

fresh-IsQueue : IsQueue fresh []
fresh-IsQueue = record { last = 1; chain = fresh-Chain; tail = refl; counted = refl }

behind-IsQueue : IsQueue behind ((2, 7) ∷ [])
behind-IsQueue = record {
  last = 2;
  chain = (
    omega arith,
    (entry 0 2, refl, refl),
    refl,
    (entry 7 0, refl, refl),
    (omega arith, (entry 7 0, refl, refl), refl),
  );
  tail = inl refl;
  counted = refl;
}

destroy_lem_example : (q' : Queue ℕ) × (destroy (λ _ _. false) 2 2 0 behind ≡ ok q') × IsQueue q' []
destroy_lem_example =
    destroy_lem (λ _ _. false) 0 0 behind ((2, 7) ∷ []) (λ i j h. refl) behind-IsQueue

-- The addresses 2, 3, 4, ...
counting-IsFresh : IsFresh (λ n. suc (suc n))
counting-IsFresh = record { not_null = λ n. omega arith; once = λ m n h. ground (arith, h) }

abbrev calls : List (Call ℕ)
calls = put 7 ∷ put 8 ∷ take ∷ take ∷ take ∷ []

run_calls-fifo_example :
    run_calls (λ _ _. false) (λ _. true) (λ n. suc (suc n)) 2 0 calls (create 1 0)
    ≡ ok (some 7 ∷ some 8 ∷ none ∷ [])
unfolding fifo
run_calls-fifo_example =
    run_calls-fifo (λ _ _. false) 0 (λ _. true) (λ n. suc (suc n)) (λ i j h. refl) counting-IsFresh
      1 0 calls (omega arith) λ n. ground arith

abbrev both : Two ℕ
both = record { node_1 = 2; node_2 = 3; value_1 = 7; value_2 = 8 }

enqueue_loses_example :
    (t : System ℕ) × Steps both (record { queue = fresh; first = called; second = called }) t
    × (t.first ≡ returned)
    × (t.second ≡ returned)
    × Chain t.queue.heap t.queue.head.ptr ((3, 8) ∷ []) 3
    × (has {A = ℕ} 2 ((3, 8) ∷ []) ≡ false)
    × (t.queue.size ≡ 2)
    × (t.queue.tail.ptr ≡ 2)
enqueue_loses_example =
    enqueue_loses both fresh [] fresh-Chain refl refl (omega arith) (omega arith)
