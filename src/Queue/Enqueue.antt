-- ===== src/Queue/Enqueue.antt =====
-- `enqueue` adds the value at the end of the queue.
use everyfile.Prelude.{
  ℕ, zero, suc, ◌+◌, ◌≤◌, ◌≡◌, ◌≢◌, refl, ◌∙◌, ap, ◌⊎◌, inl, inr, Bool, true, false, Option, none,
  some, List, [], ◌∷◌, ◌++◌, arith, length-append, ◌==◌, Bool-cases,
}
use everyfile.Queue.{Pointer, pointer, Entry, Queue, cas, Run, ok, write, enqueue_loop, enqueue}
use everyfile.Queue.Steady.{IsSteady, early, same_pointer_refl}
use everyfile.Queue.Chain.{
  has, Leads, IsQueue, last_entry, not_has_of_none, tail_entry, IsTail-append, linked,
  linked-SparesBut, SparesBut, Chain-linked,
}

module _ {A : Type 0} (node l : ℕ) where
  -- What the loop works on: the new entry stands on the heap, outside the chain.
  record IsReady (h : ℕ → Option (Entry A)) (e : Entry A) : Type 0 where
    last_at : h l ≡ some e
    last_end : e.next.ptr ≡ 0
    last_ne : l ≢ 0

  -- The loop has linked the entry, and its `tail` is the last entry.
  abbrev Linked : Queue A → (ℕ → Option (Entry A)) → Entry A → Run (Queue A × Pointer) → Type 0
  Linked q h e r =
      (t : Pointer) × (next : Pointer) × (t.ptr ≡ l)
      × (next.ptr ≡ node)
      × (r ≡ ok (record q { heap = write h l (some (record e { next = next })); tail = t }, t))

module _ {A : Type 0} (weak : ℕ → Bool) (k : ℕ) (steady : IsSteady weak k) (node l : ℕ) where
  -- With the tail at the last entry.
  loop_last :
      (fuel i : ℕ) (q : Queue A) (e : Entry A)
      → IsReady node l q.heap e
      → q.tail.ptr ≡ l
      → k + 1 ≤ i + fuel
      → 1 ≤ fuel
      → Linked node l q q.heap e (enqueue_loop weak fuel i node q)
  unfolding enqueue_loop
  loop_last zero i q e r at enough some_fuel = absurd (omega arith)
  loop_last (suc fuel) i q e r at enough some_fuel = elim (Bool-cases (weak i)) [
    | inl fails ↦
        let before = early weak k steady i fails in
        rw (found, fails, zero_next) (loop_last fuel (suc i) q e r at (omega arith) (omega arith))
    | inr holds ↦ (
      q.tail,
      pointer node (e.next.counter + 1),
      at,
      refl,
      rw (found, holds, zero_next, same_pointer_refl e.next, at),
    )
  ]
    where
      found : q.heap q.tail.ptr ≡ some e
      found = ap q.heap at ∙ r.last_at

      zero_next : (e.next.ptr == 0) ≡ true
      zero_next = ground (arith, r.last_end)

  -- With the tail at an entry that leads to the last one: it is moved up first.
  loop_behind :
      (fuel i : ℕ) (q : Queue A) (e : Entry A)
      → IsReady node l q.heap e
      → Leads q.heap q.tail.ptr l
      → k + 2 ≤ i + fuel
      → 2 ≤ fuel
      → Linked node l q q.heap e (enqueue_loop weak fuel i node q)
  unfolding enqueue_loop
  loop_behind zero i q e r leads enough some_fuel = absurd (omega arith)
  loop_behind (suc fuel) i q e r (b, at, to) enough some_fuel = elim (Bool-cases (weak i)) [
    | inl fails ↦
        let before = early weak k steady i fails in
        rw (at, fails, more_next)
          (loop_behind fuel (suc i) q e r (b, at, to) (omega arith) (omega arith))
    | inr holds ↦
        rw (at, holds, more_next, same_pointer_refl q.tail)
          (loop_last fuel (suc i) (record q { tail = pointer b.next.ptr (q.tail.counter + 1) }) e r
            to (omega arith) (omega arith))
  ]
    where
      more_next : (b.next.ptr == 0) ≡ false
      more_next = ground (arith, r.last_ne)

module _ {A : Type 0} (node : ℕ) (v : A) (q : Queue A) (cells : List (ℕ × A)) where
  abbrev new_entry : Entry A
  new_entry = record { value = v; next = pointer 0 0 }

  -- The queue with the new entry on the heap, not linked yet.
  abbrev stored : Queue A
  stored = record q { heap = write q.heap node (some new_entry) }

  module _ (is : IsQueue q cells) (ne : node ≢ 0) (free : q.heap node ≡ none) where
    apart : ((node == q.head.ptr) ≡ false) × (has node cells ≡ false)
    apart = not_has_of_none q.heap node q.head.ptr cells is.last is.chain free

    tail_moved :
        (final : Bool) (t : Pointer)
        → t.ptr ≡ is.last
        → ((cas final t t (pointer node (t.counter + 1))).1.ptr ≡ is.last)
          ⊎ ((cas final t t (pointer node (t.counter + 1))).1.ptr ≡ node)
    tail_moved true t at = inl at
    tail_moved false t at = inr (rw (same_pointer_refl t))

    -- What `enqueue` makes of a loop that has linked the entry.
    IsQueue-finished :
        (final : Bool) (e : Entry A) (t next : Pointer)
        → q.heap is.last ≡ some e
        → t.ptr ≡ is.last
        → next.ptr ≡ node
        → IsQueue
            (record q {
              heap = linked q.heap node new_entry is.last e next;
              tail = (cas final t t (pointer node (t.counter + 1))).1;
              size = q.size + 1;
            })
            (cells ++ (node, v) ∷ [])
    IsQueue-finished final e t next at tail_at to = record {
      last = node;
      chain =
          Chain-linked q.heap q.head.ptr cells is.last node v new_entry e next is.chain at ne
            apart.0 apart.1 refl refl to;
      tail =
          IsTail-append q.heap q.head.ptr cells is.last node _ v is.chain
            (tail_moved final t tail_at);
      counted = omega (arith, is.counted, length-append {0} cells ((node, v) ∷ []));
    }

    Linked-stored :
        (weak : ℕ → Bool) (k : ℕ) (e : Entry A)
        → IsSteady weak k
        → q.heap is.last ≡ some e
        → e.next.ptr ≡ 0
        → is.last ≢ 0
        → Linked node is.last stored stored.heap e (enqueue_loop weak (k + 2) 0 node stored)
    Linked-stored weak k e steady at end last_ne =
        elim (tail_entry q.heap q.head.ptr cells is.last q.tail.ptr is.chain is.tail) [
          | inl here ↦
              loop_last weak k steady node is.last (k + 2) 0 stored e ready here (omega arith)
                (omega arith)
          | inr (b, found, to) ↦
              loop_behind weak k steady node is.last (k + 2) 0 stored e ready (b, ground arith, to)
                (omega arith) (omega arith)
        ]
      where
        ready : IsReady node is.last stored.heap e
        ready = record { last_at = ground arith; last_end = end; last_ne = last_ne }

module _ {A : Type 0} where
  -- On a queue that holds cells, with node the address of fresh memory, enqueue ends within k + 2
  -- rounds if the compare-and-swap does not fail without a reason from round k on; the queue then
  -- holds cells and the value behind them, and no other memory is taken.
  pub enqueue_lem :
      (weak : ℕ → Bool) (k : ℕ) (final : Bool) (node : ℕ) (v : A) (q : Queue A)
      (cells : List (ℕ × A))
      → IsSteady weak k
      → IsQueue q cells
      → node ≢ 0
      → q.heap node ≡ none
      → (q' : Queue A) × (enqueue weak final (k + 2) node v q ≡ ok q')
        × IsQueue q' (cells ++ (node, v) ∷ [])
        × SparesBut node q.heap q'.heap
  unfolding enqueue
  enqueue_lem weak k final node v q cells steady is ne free =
      let (last_ne, leads) = last_entry q.heap q.head.ptr cells is.last is.chain in
      let (e, at, end) = leads in
      let (t, next, tail_at, to, run) =
        Linked-stored node v q cells is ne free weak k e steady at end last_ne in
      (
        record q {
          heap = linked q.heap node (new_entry node v q cells) is.last e next;
          tail = (cas final t t (pointer node (t.counter + 1))).1;
          size = q.size + 1;
        },
        rw run,
        IsQueue-finished node v q cells is ne free final e t next at tail_at to,
        linked-SparesBut q.heap node (new_entry node v q cells) is.last e next at,
      )
