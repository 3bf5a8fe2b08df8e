-- ===== src/Queue/Shared/Lost.antt =====
-- Two calls at once, of which one is lost.
use everyfile.Prelude.{
  ℕ, ◌+◌, ◌%◌, ◌^◌, ◌≡◌, ◌≢◌, refl, false, Option, none, some, List, [], ◌∷◌, ◌++◌, arith, ◌==◌,
}
use mathlib.Core.Path.{subst}
use everyfile.Queue.{Pointer, pointer, Entry, Queue, cas, write, set_next}
use everyfile.Queue.Chain.{
  has, has-snoc, Chain, last_entry, Chain-frame, linked, Chain-linked, not_has_of_none, has_ne,
}
use everyfile.Queue.Steady.{same_pointer_refl}
use everyfile.Queue.Shared.Alone.{link-Move, swing-Move}
use everyfile.Queue.Shared.{
  Pc, called, link_copied, swing_copied, swung, returned, new_entry, Move, allocate, read_tail,
  read_next, same_tail, copy_next, copy_tail, write_tail, count,
}

-- Two threads, each in a call of `enqueue`.
pub record System (A : Type 0) : Type 0 where
  pub queue : Queue A
  pub first : Pc
  pub second : Pc

-- The entries and the values of the two calls.
pub record Two (A : Type 0) : Type 0 where
  pub node_1 : ℕ
  pub node_2 : ℕ
  pub value_1 : A
  pub value_2 : A

pub data Step {A : Type 0} (two : Two A) (s : System A) : System A → Type 0 where
  by_first :
      {q : Queue A} {p : Pc}
      → Move two.node_1 two.value_1 s.queue s.first q p
      → Step two s (record s { queue = q; first = p })
  by_second :
      {q : Queue A} {p : Pc}
      → Move two.node_2 two.value_2 s.queue s.second q p
      → Step two s (record s { queue = q; second = p })

pub data Steps {A : Type 0} (two : Two A) (s : System A) : System A → Type 0 where
  done : Steps two s s
  more : {t u : System A} → Steps two s t → Step two t u → Steps two s u

module _ {A : Type 0} (two : Two A) (q : Queue A) (e : Entry A) where
  open two use {node_1, node_2, value_1, value_2}

  -- The heap when both entries are there.
  abbrev allocated : Queue A
  allocated = record q {
    heap = write (write q.heap node_1 (some (new_entry value_1))) node_2 (some (new_entry value_2));
  }

  -- The two links, one over the other.
  abbrev link : ℕ → Pointer
  link node = pointer node (e.next.counter + 1)

  abbrev linked_1 : Queue A
  linked_1 = set_next allocated q.tail.ptr e (link node_1)

  abbrev linked_2 : Queue A
  linked_2 = set_next linked_1 q.tail.ptr (record e { next = link node_1 }) (link node_2)

  abbrev new_tail : Pointer
  new_tail = pointer node_1 (q.tail.counter + 1)

  abbrev ended : Queue A
  ended = record linked_2 { tail = new_tail; size = ((q.size + 1) % 2 ^ 32 + 1) % 2 ^ 32 }

  module _ (at : q.heap q.tail.ptr ≡ some e) (end : e.next.ptr ≡ 0) (free_1 : q.heap node_1 ≡ none)
      (free_2 : q.heap node_2 ≡ none) (apart : node_1 ≢ node_2) where
    last_there : allocated.heap q.tail.ptr ≡ some e
    last_there = ground arith

    -- Both calls have seen the same last entry, and have copied its next pointer.
    both_copied :
        Steps two
          (record { queue = q; first = called; second = called })
          (record {
            queue = allocated;
            first = link_copied q.tail e.next e.next;
            second = link_copied q.tail e.next e.next;
          })
    both_copied =
        let free : write q.heap node_1 (some (new_entry value_1)) node_2 ≡ none = ground arith in
        let same = same_pointer_refl q.tail in
        more
          (more
            (more
              (more
                (more
                  (more
                    (more
                      (more
                        (more (more done (by_first (allocate free_1))) (by_second (allocate free)))
                        (by_first read_tail))
                      (by_first (read_next e last_there)))
                    (by_first (same_tail same)))
                  (by_second read_tail))
                (by_second (read_next e last_there)))
              (by_second (same_tail same)))
            (by_first (copy_next e end last_there)))
          (by_second (copy_next e end last_there))

    -- Both links are written; the second one is the last.
    both_linked :
        Steps two
          (record { queue = q; first = called; second = called })
          (record { queue = linked_2; first = Pc.linked q.tail; second = Pc.linked q.tail })
    both_linked =
        let there : linked_1.heap q.tail.ptr ≡ some (record e { next = link node_1 }) =
          ground arith in
        more
          (more both_copied
            (by_first (link-Move node_1 value_1 allocated q.tail e.next e last_there)))
          (by_second (
            link-Move node_2 value_2 linked_1 q.tail e.next (record e { next = link node_1 })
              there))

    -- The tail has moved away, so the second call writes back what it copied.
    swing_second :
        (size : ℕ)
        → Move node_2 value_2
            (record linked_2 { tail = new_tail; size = size })
            (swing_copied q.tail new_tail)
            (record linked_2 { tail = new_tail; size = size })
            swung
    swing_second size =
        let moved : (node_1 == q.tail.ptr) ≡ false = ground arith in
        let kept : cas false new_tail q.tail (pointer node_2 (q.tail.counter + 1))
            ≡ (false, new_tail) =
          rw moved in
        subst
          (λ r.
            Move node_2 value_2 (record linked_2 { tail = new_tail; size = size })
              (swing_copied q.tail new_tail) (record linked_2 { tail = r.1; size = size }) swung)
          kept (write_tail false)

    both_end :
        Steps two
          (record { queue = q; first = called; second = called })
          (record { queue = ended; first = returned; second = returned })
    both_end =
        more
          (more
            (more
              (more
                (more (more both_linked (by_first copy_tail))
                  (by_first (swing-Move node_1 value_1 linked_2 q.tail)))
                (by_first count))
              (by_second copy_tail))
            (by_second (swing_second ((q.size + 1) % 2 ^ 32))))
          (by_second count)

    Chain-ended :
        (p l : ℕ) (cells : List (ℕ × A))
        → l ≡ q.tail.ptr
        → node_2 ≢ 0
        → Chain q.heap p cells l
        → Chain ended.heap p (cells ++ (node_2, value_2) ∷ []) node_2
          × (has node_1 (cells ++ (node_2, value_2) ∷ []) ≡ false)
    Chain-ended p l cells here ne chain =
        let (not_p, not_cells) = not_has_of_none q.heap node_1 p cells l chain free_1 in
        let (not_p', not_cells') = not_has_of_none q.heap node_2 p cells l chain free_2 in
        let h1 : ℕ → Option (Entry A) = write q.heap node_1 (some (new_entry value_1)) in
        let chain1 : Chain h1 p cells l =
          Chain-frame q.heap h1 p cells l chain (ground arith)
            (λ a i. let other = has_ne a node_1 cells i not_cells in ground arith) in
        let chain2 =
          Chain-linked h1 p cells l node_2 value_2 (new_entry value_2) e (link node_2) chain1
            (ground arith) ne not_p' not_cells' refl refl refl in
        (
          Chain-frame (linked h1 node_2 (new_entry value_2) l e (link node_2)) ended.heap p
              (cells ++ (node_2, value_2) ∷ []) node_2 chain2 (rw here (ground arith))
              (λ a i. rw here (ground arith)),
          ground (arith, has-snoc node_1 cells node_2 value_2, not_cells),
        )

-- On a queue whose tail is its last entry, two calls of enqueue that run at once can both return
-- with only the second value in the chain; the size has grown by 2, modulo 2 ^ 32, and the tail is
-- at the entry that no chain reaches.
pub enqueue_loses :
    {A : Type 0} (two : Two A) (q : Queue A) (cells : List (ℕ × A))
    → Chain q.heap q.head.ptr cells q.tail.ptr
    → q.heap two.node_1 ≡ none
    → q.heap two.node_2 ≡ none
    → two.node_2 ≢ 0
    → two.node_1 ≢ two.node_2
    → (t : System A) × Steps two (record { queue = q; first = called; second = called }) t
      × (t.first ≡ returned)
      × (t.second ≡ returned)
      × Chain t.queue.heap t.queue.head.ptr (cells ++ (two.node_2, two.value_2) ∷ []) two.node_2
      × (has two.node_1 (cells ++ (two.node_2, two.value_2) ∷ []) ≡ false)
      × (t.queue.size ≡ (q.size + 2) % 2 ^ 32)
      × (t.queue.tail.ptr ≡ two.node_1)
enqueue_loses two q cells chain free_1 free_2 ne apart =
    let (l_ne, leads) = last_entry q.heap q.head.ptr cells q.tail.ptr chain in
    let (e, at, end) = leads in
    let (kept, lost) =
      Chain-ended two q e at end free_1 free_2 apart q.head.ptr q.tail.ptr cells refl ne chain in
    (
      record { queue = ended two q e; first = returned; second = returned },
      both_end two q e at end free_1 free_2 apart,
      refl,
      refl,
      kept,
      lost,
      omega arith,
      refl,
    )
