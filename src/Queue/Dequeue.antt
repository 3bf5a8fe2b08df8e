-- ===== src/Queue/Dequeue.antt =====
-- `dequeue` takes the oldest value out of the queue.
use everyfile.Prelude.{
  ℕ, zero, suc, ◌+◌, ◌-◌, ◌≤◌, ◌≡◌, ◌≢◌, refl, sym, ◌⊎◌, inl, inr, Bool, true, false, none, some,
  List, [], ◌∷◌, arith, length, ◌==◌, Bool-cases,
}
use everyfile.Queue.{Pointer, pointer, Queue, ok, write, dequeue}
use everyfile.Queue.Chain.{
  has, Leads, Stores, Chain, IsTail, IsQueue, Spares, freed-Spares, Chain-frame, has_ne,
}
use everyfile.Queue.Steady.{IsSteady, early, same_pointer_refl}

-- The queue without the entry at its head, which was the one before the first value.
abbrev taken : {A : Type 0} → Queue A → ℕ → ℕ → Queue A
taken q b n = record q {
  head = pointer b n;
  heap = write q.heap q.head.ptr none;
  size = q.size - 1;
}

module _ {A : Type 0} (weak : ℕ → Bool) (k : ℕ) (steady : IsSteady weak k) where
  -- An empty queue says so at once, and stays as it is.
  pub dequeue-nil :
      (fuel i : ℕ) (q : Queue A) → IsQueue q [] → dequeue weak (suc fuel) i q ≡ ok (q, none)
  unfolding dequeue
  dequeue-nil fuel i q is =
      let (e, at, end) = is.chain.1 in
      let together : (q.head.ptr == q.tail.ptr) ≡ true = ground (arith, is.tail) in
      let nothing : (e.next.ptr == 0) ≡ true = ground (arith, end) in rw (at, together, nothing)

  -- The head and the tail differ.
  dequeue_apart :
      (fuel i : ℕ) (q : Queue A) (b : ℕ) (v : A)
      → Leads q.heap q.head.ptr b
      → Stores q.heap b v
      → (q.head.ptr == q.tail.ptr) ≡ false
      → k + 1 ≤ i + fuel
      → 1 ≤ fuel
      → dequeue weak fuel i q ≡ ok (taken q b (q.head.counter + 1), some v)
  unfolding dequeue
  dequeue_apart zero i q b v leads s other enough some_fuel = absurd (omega arith)
  dequeue_apart (suc fuel) i q b v (e, at, to) (f, at', val) other enough some_fuel =
      elim (Bool-cases (weak i)) [
        | inl fails ↦
            let before = early weak k steady i fails in
            rw (at, other, to, at', fails)
              (dequeue_apart fuel (suc i) q b v (e, at, to) (f, at', val) other (omega arith)
                (omega arith))
        | inr holds ↦ rw (at, other, to, at', holds, same_pointer_refl q.head, val)
      ]

  -- The head and the tail are one entry, with one more behind it: the tail is moved first.
  dequeue_behind :
      (fuel i : ℕ) (q : Queue A) (b : ℕ) (v : A)
      → Leads q.heap q.head.ptr b
      → Stores q.heap b v
      → q.head.ptr ≡ q.tail.ptr
      → (q.head.ptr == b) ≡ false
      → b ≢ 0
      → k + 2 ≤ i + fuel
      → 2 ≤ fuel
      → (n : ℕ) × (dequeue weak fuel i q
          ≡ ok (record (taken q b (q.head.counter + 1)) { tail = pointer b n }, some v))
  unfolding dequeue
  dequeue_behind zero i q b v leads s same ne ne' enough some_fuel = absurd (omega arith)
  dequeue_behind (suc fuel) i q b v (e, at, to) s same ne ne' enough some_fuel =
      let together : (q.head.ptr == q.tail.ptr) ≡ true = ground arith in
      let more : (b == 0) ≡ false = ground arith in
      elim (Bool-cases (weak i)) [
        | inl fails ↦
            let before = early weak k steady i fails in
            rw (at, together, to, more, fails)
              (dequeue_behind fuel (suc i) q b v (e, at, to) s same ne ne' (omega arith)
                (omega arith))
        | inr holds ↦ (
          q.tail.counter + 1,
          rw (at, together, to, more, holds, same_pointer_refl q.tail)
              (dequeue_apart fuel (suc i) (record q { tail = pointer b (q.tail.counter + 1) }) b v
                (e, at, to) s ne (omega arith) (omega arith)),
        )
      ]

module _ {A : Type 0} (q : Queue A) (b : ℕ) (v : A) (cells : List (ℕ × A)) where
  -- The chain behind the old head, once that entry is freed.
  Chain-freed :
      (l : ℕ)
      → Chain q.heap q.head.ptr ((b, v) ∷ cells) l
      → Chain (write q.heap q.head.ptr none) b cells l
  Chain-freed l c =
      Chain-frame q.heap (write q.heap q.head.ptr none) b cells l c.4 (ground (arith, c.2))
        λ a i. let other = has_ne a q.head.ptr cells i (ground (arith, c.2)) in ground arith

  IsQueue-taken :
      (n : ℕ) (tail : Pointer) (l : ℕ)
      → Chain q.heap q.head.ptr ((b, v) ∷ cells) l
      → q.size ≡ suc (length cells)
      → IsTail b cells tail.ptr
      → IsQueue (record (taken q b n) { tail = tail }) cells
  IsQueue-taken n tail l c size at = record {
    last = l;
    chain = Chain-freed l c;
    tail = at;
    counted = omega arith;
  }

  -- What is to be shown of a `dequeue` that has `fuel` rounds.
  abbrev pub Took : (weak : ℕ → Bool) (fuel : ℕ) → Type 0
  Took weak fuel =
      (q' : Queue A) × (dequeue weak fuel 0 q ≡ ok (q', some v))
      × IsQueue q' cells
      × Spares q.heap q'.heap

  Took-apart :
      (weak : ℕ → Bool) (k l : ℕ)
      → IsSteady weak k
      → Chain q.heap q.head.ptr ((b, v) ∷ cells) l
      → q.size ≡ suc (length cells)
      → (q.head.ptr == q.tail.ptr) ≡ false
      → IsTail b cells q.tail.ptr
      → Took weak (k + 2)
  Took-apart weak k l steady c size other at = (
    taken q b (q.head.counter + 1),
    dequeue_apart weak k steady (k + 2) 0 q b v c.1 c.3 other (omega arith) (omega arith),
    IsQueue-taken (q.head.counter + 1) q.tail l c size at,
    freed-Spares q.heap q.head.ptr,
  )

-- Where the tail is: at the start of the chain, or at one of its entries.
tail_place :
    {A : Type 0} (p : ℕ) (xs : List (ℕ × A)) (t : ℕ) → IsTail p xs t → (t ≡ p) ⊎ (has t xs ≡ true)
tail_place p [] t i = inl i
tail_place p ((b, v) ∷ []) t (inl i) = inl i
tail_place p ((b, v) ∷ []) t (inr i) = inr (ground arith)
tail_place p ((b, v) ∷ x ∷ xs) t i = inr (elim (tail_place b (x ∷ xs) t i) [
  | inl here ↦ ground arith
  | inr later ↦ ground (arith, later)
])

took :
    {A : Type 0} (weak : ℕ → Bool) (k : ℕ) (q : Queue A) (b : ℕ) (v : A) (cells : List (ℕ × A))
    (l : ℕ)
    → IsSteady weak k
    → Chain q.heap q.head.ptr ((b, v) ∷ cells) l
    → IsTail q.head.ptr ((b, v) ∷ cells) q.tail.ptr
    → q.size ≡ suc (length cells)
    → Took q b v cells weak (k + 2)
took weak k q b v [] l steady c (inr at) size =
    Took-apart q b v [] weak k l steady c size (ground (arith, c.2)) at
took weak k q b v [] l steady c (inl at) size =
    let (n, run) =
      dequeue_behind weak k steady (k + 2) 0 q b v c.1 c.3 (sym at) (ground (arith, c.2)) c.4.0
        (omega arith) (omega arith) in
    (
      record (taken q b (q.head.counter + 1)) { tail = pointer b n },
      run,
      IsQueue-taken q b v [] (q.head.counter + 1) (pointer b n) l c size refl,
      freed-Spares q.heap q.head.ptr,
    )
took {A} weak k q b v (x ∷ xs) l steady c at size =
    Took-apart q b v (x ∷ xs) weak k l steady c size
      (has_ne q.tail.ptr q.head.ptr ((b, v) ∷ x ∷ xs)
        (tail_in (tail_place b (x ∷ xs) q.tail.ptr at)) c.2)
      at
  where
    tail_in :
        (q.tail.ptr ≡ b) ⊎ (has q.tail.ptr (x ∷ xs) ≡ true)
        → has q.tail.ptr ((b, v) ∷ x ∷ xs) ≡ true
    tail_in (inl here) = ground arith
    tail_in (inr later) = ground arith

-- On a queue that holds a value and then cells, dequeue ends within k + 2 rounds if the compare-
-- and-swap does not fail without a reason from round k on; it gives the value, takes no memory,
-- and leaves cells.
pub dequeue-cons :
    {A : Type 0} (weak : ℕ → Bool) (k : ℕ) (q : Queue A) (b : ℕ) (v : A) (cells : List (ℕ × A))
    → IsSteady weak k
    → IsQueue q ((b, v) ∷ cells)
    → (q' : Queue A) × (dequeue weak (k + 2) 0 q ≡ ok (q', some v))
      × IsQueue q' cells
      × Spares q.heap q'.heap
dequeue-cons weak k q b v cells steady is =
    took weak k q b v cells is.last steady is.chain is.tail is.counted
