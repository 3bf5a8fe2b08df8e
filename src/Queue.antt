-- ===== src/Queue.antt =====
-- src/datastruct/__no_lock_queue_with_CAS.h: the linked queue, used by one thread at a time. Entries
-- stand at addresses of an explicit heap; 0 is NULL.
pub mod Chain
pub mod Steady
pub mod Enqueue
pub mod Dequeue
pub mod Life
pub mod Fifo
pub mod Shared
use everyfile.Prelude.{
  ℕ, zero, suc, ◌+◌, ◌-◌, ◌%◌, ◌^◌, Bool, true, false, ◌&&◌, Option, none, some, ◌==◌,
  if◌then◌else◌,
}

-- `__pointer_to_entry`: an address, and a counter of type `unsigned long`.
pub record Pointer : Type 0 where
  pub ptr : ℕ
  pub counter : ℕ

abbrev pub pointer : ℕ → ℕ → Pointer
pointer p n = record { ptr = p; counter = n % 2 ^ 64 }

-- Its `operator==`.
abbrev pub same_pointer : Pointer → Pointer → Bool
same_pointer p q = p.ptr == q.ptr && p.counter == q.counter

module _ (A : Type 0) where
  -- `__entry_in_queue`
  pub record Entry : Type 0 where
    pub value : A
    pub next : Pointer

  pub record Queue : Type 0 where
    pub heap : ℕ → Option Entry
    pub head : Pointer
    pub tail : Pointer
    pub size : ℕ

-- The answer of `CAS` and what it leaves in the place; with `weak` it fails although the values
-- are equal, as `atomic_compare_exchange_weak` may.
abbrev pub cas : (weak : Bool) → Pointer → Pointer → Pointer → Bool × Pointer
cas weak place old new =
    if weak then (false, place) else if same_pointer place old then (true, new) else (false, place)

pub data Run (B : Type 0) : Type 0 where
  ok : B → Run B
  fault : Run B
  out_of_fuel : Run B

module _ {A : Type 0} where
  abbrev pub write : (ℕ → Option (Entry A)) → ℕ → Option (Entry A) → ℕ → Option (Entry A)
  write h p e a = if a == p then e else h a

  -- The write of `next` in the entry at `p`.
  abbrev pub set_next : Queue A → ℕ → Entry A → Pointer → Queue A
  set_next q p e next = record q { heap = write q.heap p (some (record e { next = next })) }

  -- The body of the loop of `enqueue`, with `again` for the next round; a successful round gives the
  -- queue and the `tail` that was read.
  abbrev enqueue_step :
      (weak : Bool)
      → ℕ
      → Queue A
      → (Queue A → Run (Queue A × Pointer))
      → Option (Entry A)
      → Run (Queue A × Pointer)
  enqueue_step weak node q again none = fault
  enqueue_step weak node q again (some e) =
      if e.next.ptr == 0
      then (let (done, next) = cas weak e.next e.next (pointer node (e.next.counter + 1)) in
          if done then ok (set_next q q.tail.ptr e next, q.tail) else again q)
      else again
          (record q { tail = (cas weak q.tail q.tail (pointer e.next.ptr (q.tail.counter + 1))).1 })

  unfoldable pub enqueue_loop :
      (weak : ℕ → Bool) (fuel i : ℕ) → ℕ → Queue A → Run (Queue A × Pointer)
  enqueue_loop weak zero i node q = out_of_fuel
  enqueue_loop weak (suc fuel) i node q =
      enqueue_step (weak i) node q (enqueue_loop weak fuel (suc i) node) (q.heap q.tail.ptr)

  -- Behind the loop: the tail is moved to the new entry, if that succeeds.
  abbrev finish : (weak : Bool) → ℕ → Run (Queue A × Pointer) → Run (Queue A)
  finish weak node (ok (q, tail)) = ok (record q {
    tail = (cas weak q.tail tail (pointer node (tail.counter + 1))).1;
    size = q.size + 1;
  })
  finish weak node fault = fault
  finish weak node out_of_fuel = out_of_fuel

  -- `node` is the address that `new` returns.
  unfoldable pub enqueue :
      (weak : ℕ → Bool) (last : Bool) (fuel node : ℕ) → A → Queue A → Run (Queue A)
  unfolding enqueue_loop
  enqueue weak last fuel node value q =
      let entry : Entry A = record { value = value; next = pointer 0 0 } in
      finish last node
        (enqueue_loop weak fuel 0 node (record q { heap = write q.heap node (some entry) }))

  -- The value of the entry behind `head`, which is read before the head moves.
  abbrev take_value :
      (weak : Bool)
      → Queue A
      → ℕ
      → (Queue A → Run (Queue A × Option A))
      → Option (Entry A)
      → Run (Queue A × Option A)
  take_value weak q next again none = fault
  take_value weak q next again (some n) =
      let (done, head) = cas weak q.head q.head (pointer next (q.head.counter + 1)) in
      if done
      then ok (
        record q { head = head; heap = write q.heap q.head.ptr none; size = q.size - 1 },
        some n.value,
      )
      else again q

  abbrev dequeue_step :
      (weak : Bool)
      → Queue A
      → (Queue A → Run (Queue A × Option A))
      → Option (Entry A)
      → Run (Queue A × Option A)
  dequeue_step weak q again none = fault
  dequeue_step weak q again (some e) =
      if q.head.ptr == q.tail.ptr
      then (if e.next.ptr == 0
          then ok (q, none)
          else again (record q {
            tail = (cas weak q.tail q.tail (pointer e.next.ptr (q.tail.counter + 1))).1;
          }))
      else take_value weak q e.next.ptr again (q.heap e.next.ptr)

  -- `none` is the result `false`.
  unfoldable pub dequeue : (weak : ℕ → Bool) (fuel i : ℕ) → Queue A → Run (Queue A × Option A)
  dequeue weak zero i q = out_of_fuel
  dequeue weak (suc fuel) i q =
      dequeue_step (weak i) q (dequeue weak fuel (suc i)) (q.heap q.head.ptr)

  -- The constructor: `node` is the address that `new` returns, and `value` what an entry starts with.
  unfoldable pub create : (node : ℕ) (value : A) → Queue A
  create node value =
      let entry : Entry A = record { value = value; next = pointer 0 0 } in
      record {
        heap = write (λ a. none) node (some entry);
        head = pointer node 0;
        tail = pointer node 0;
        size = 0;
      }

  abbrev destroy_next : (Queue A → Run (Queue A)) → Run (Queue A × Option A) → Run (Queue A)
  destroy_next again (ok (q, res)) = again q
  destroy_next again fault = fault
  destroy_next again out_of_fuel = out_of_fuel

  -- The destructor; `weak n` is for the `n`-th call of `dequeue`, which gets `rounds`.
  unfoldable pub destroy : (weak : ℕ → ℕ → Bool) (rounds fuel n : ℕ) → Queue A → Run (Queue A)
  unfolding dequeue
  destroy weak rounds zero n q = out_of_fuel
  destroy weak rounds (suc fuel) n q =
      if q.size == 0
      then ok q
      else destroy_next (destroy weak rounds fuel (suc n)) (dequeue (weak n) rounds 0 q)
