-- ===== src/Queue/Shared/Alone.antt =====
-- A call that runs alone does what `enqueue` does.
use everyfile.Prelude.{
  ℕ, zero, suc, ◌+◌, ◌%◌, ◌^◌, ◌<◌, ◌≡◌, ◌≢◌, refl, ap, inl, inr, Bool, true, false, Option, none,
  some, arith, ◌==◌, Bool-cases,
}
use mathlib.Core.Path.{subst, fun_ext}
use everyfile.Queue.{
  Pointer, pointer, Entry, Queue, Run, ok, fault, out_of_fuel, cas, write, set_next, enqueue_step,
  enqueue_loop, finish, enqueue,
}
use everyfile.Queue.Steady.{same_pointer_refl}
use everyfile.Queue.Shared.{
  Pc, called, looping, checked, link_copied, linked, returned, new_entry, Move, allocate, read_tail,
  read_next, same_tail, copy_next, write_next, rewrite_next, copy_behind, write_behind, copy_tail,
  write_tail, count, swing_copied, swung, Moves, none_yet, and_then,
}

pub cas_holds : (p new : Pointer) → cas false p p new ≡ (true, new)
cas_holds p new = rw (same_pointer_refl p)

ok-injective : {B : Type 0} (a b : B) → ok a ≡ ok b → a ≡ b
ok-injective a b h = cc

module _ {A : Type 0} where
  pub write_same :
      (h : ℕ → Option (Entry A)) (p : ℕ) (e : Entry A) → h p ≡ some e → write h p (some e) ≡ h
  write_same h p e at =
      fun_ext
        λ a. elim (Bool-cases (a == p)) [ inl same ↦ ground (arith, at) | inr other ↦ ground arith ]

  module _ (node : ℕ) (v : A) where
    pub append-Moves :
        {q q1 : Queue A} {p p1 : Pc} {q2 : Queue A} {p2 : Pc}
        → Moves node v q p q1 p1
        → Moves node v q1 p1 q2 p2
        → Moves node v q p q2 p2
    append-Moves first none_yet = first
    append-Moves first (and_then before step) = and_then (append-Moves first before) step

    -- Up to the two branches of the loop's body.
    to_checked :
        (q : Queue A) (e : Entry A)
        → q.heap q.tail.ptr ≡ some e
        → Moves node v q looping q (checked q.tail e.next)
    to_checked q e at =
        and_then (and_then (and_then none_yet read_tail) (read_next e at))
          (same_tail (same_pointer_refl q.tail))

    -- An exchange that succeeds writes the link.
    pub link-Move :
        (q : Queue A) (tail next : Pointer) (e : Entry A)
        → q.heap tail.ptr ≡ some e
        → Move node v q
            (link_copied tail next next)
            (set_next q tail.ptr e (pointer node (next.counter + 1)))
            (linked tail)
    link-Move q tail next e at =
        let won = cas_holds next (pointer node (next.counter + 1)) in
        subst
          (λ r.
            Move node v q (link_copied tail next next) (set_next q tail.ptr e r.1) (linked tail))
          won (write_next false e at (ap (λ r. r.0) won))

    -- So does the one that moves the tail.
    pub swing-Move :
        (q : Queue A) (tail : Pointer)
        → Move node v q
            (swing_copied tail tail)
            (record q { tail = pointer node (tail.counter + 1) })
            swung
    swing-Move q tail =
        subst (λ r. Move node v q (swing_copied tail tail) (record q { tail = r.1 }) swung)
          (cas_holds tail (pointer node (tail.counter + 1))) (write_tail false)

    -- An exchange that fails without a reason changes nothing.
    fail_next :
        (q : Queue A) (e : Entry A)
        → q.heap q.tail.ptr ≡ some e
        → e.next.ptr ≡ 0
        → Moves node v q looping q looping
    fail_next q e at end =
        subst (λ h. Moves node v q looping (record q { heap = h }) looping)
          (write_same q.heap q.tail.ptr e at)
          (and_then (and_then (to_checked q e at) (copy_next e end at))
            (rewrite_next true e at refl))

    link_next :
        (q : Queue A) (e : Entry A)
        → q.heap q.tail.ptr ≡ some e
        → e.next.ptr ≡ 0
        → Moves node v q looping
            (set_next q q.tail.ptr e (pointer node (e.next.counter + 1)))
            (linked q.tail)
    link_next q e at end =
        and_then (and_then (to_checked q e at) (copy_next e end at))
          (link-Move q q.tail e.next e at)

    -- The new entry behind the last one.
    abbrev pub chained : Queue A → Entry A → Queue A
    chained q e =
        set_next (record q { heap = write q.heap node (some (new_entry v)) }) q.tail.ptr e
          (pointer node (e.next.counter + 1))

    pub chain-Moves :
        (q : Queue A) (e : Entry A)
        → q.heap q.tail.ptr ≡ some e
        → e.next.ptr ≡ 0
        → q.heap node ≡ none
        → Moves node v q called (chained q e) (linked q.tail)
    chain-Moves q e at end free = append-Moves (and_then none_yet (allocate free)) (
        link_next (record q { heap = write q.heap node (some (new_entry v)) }) e (ground arith) end)

    pub swing-Moves :
        {p : Pc} (q0 q : Queue A)
        → Moves node v q0 p q (linked q.tail)
        → Moves node v q0 p
            (record q { tail = pointer node (q.tail.counter + 1); size = (q.size + 1) % 2 ^ 32 })
            returned
    swing-Moves q0 q before =
        and_then (and_then (and_then before copy_tail) (swing-Move q q.tail)) count

    help :
        (weak : Bool) (q : Queue A) (e : Entry A)
        → q.heap q.tail.ptr ≡ some e
        → e.next.ptr ≢ 0
        → Moves node v q looping
            (record q {
              tail = (cas weak q.tail q.tail (pointer e.next.ptr (q.tail.counter + 1))).1;
            })
            looping
    help weak q e at more =
        and_then (and_then (to_checked q e at) (copy_behind more)) (write_behind weak)

    -- What a run of the loop from `q` has to do with the accesses.
    abbrev Runs : Queue A → Run (Queue A × Pointer) → Type 0
    Runs q r = (q1 : Queue A) (t : Pointer) → r ≡ ok (q1, t) → Moves node v q looping q1 (linked t)

    step-Runs :
        (weak : Bool) (q : Queue A) (again : Queue A → Run (Queue A × Pointer))
        (o : Option (Entry A))
        → q.heap q.tail.ptr ≡ o
        → ((q' : Queue A) → Runs q' (again q'))
        → Runs q (enqueue_step weak node q again o)
    step-Runs weak q again none at known q1 t h = cc
    step-Runs weak q again (some e) at known q1 t h = elim (Bool-cases (e.next.ptr == 0)) [
      | inl end ↦ elim (Bool-cases weak) [
        | inl fails ↦
            append-Moves (fail_next q e at (ground (arith, end)))
              (known q q1 t (rw (end, fails) at h))
        | inr holds ↦
            subst (λ r. Moves node v q looping r.0 (linked r.1))
              (ok-injective _ _ (rw (end, holds, same_pointer_refl e.next) at h))
              (link_next q e at (ground (arith, end)))
      ]
      | inr more ↦
          append-Moves (help weak q e at (ground (arith, more))) (known _ q1 t (rw more at h))
    ]

    loop-Runs :
        (weak : ℕ → Bool) (fuel i : ℕ) (q : Queue A) → Runs q (enqueue_loop weak fuel i node q)
    unfolding enqueue_loop
    loop-Runs weak zero i q q1 t h = cc
    loop-Runs weak (suc fuel) i q q1 t h =
        step-Runs (weak i) q (enqueue_loop weak fuel (suc i) node) (q.heap q.tail.ptr) refl
          (loop-Runs weak fuel (suc i)) q1 t h

    finish-Moves :
        (last : Bool) (q : Queue A) (r : Run (Queue A × Pointer)) (q' : Queue A)
        → Runs q r
        → finish last node r ≡ ok q'
        → q'.size < 2 ^ 32
        → Moves node v q looping q' returned
    finish-Moves last q (ok (q1, t)) q' runs h room =
        let is = ok-injective _ _ h in
        let swung_q = record q1 { tail = (cas last q1.tail t (pointer node (t.counter + 1))).1 } in
        let below : (q1.size + 1) % 2 ^ 32 ≡ q1.size + 1 =
          omega (arith, ap (λ q. q.size) is, room) in
        subst (λ q2. Moves node v q looping q2 returned) is
          (subst (λ n. Moves node v q looping (record swung_q { size = n }) returned) below
            (and_then (and_then (and_then (runs q1 t refl) copy_tail) (write_tail last)) count))
    finish-Moves last q fault q' runs h room = cc
    finish-Moves last q out_of_fuel q' runs h room = cc

    -- Whenever enqueue gives a queue with a count below 2 ^ 32, with node the address of fresh
    -- memory, the accesses of one call that runs alone lead from the old queue to that one.
    pub enqueue-Moves :
        (weak : ℕ → Bool) (last : Bool) (fuel : ℕ) (q q' : Queue A)
        → q.heap node ≡ none
        → enqueue weak last fuel node v q ≡ ok q'
        → q'.size < 2 ^ 32
        → Moves node v q called q' returned
    unfolding enqueue
    enqueue-Moves weak last fuel q q' free h room =
        let q0 = record q { heap = write q.heap node (some (new_entry v)) } in
        append-Moves (and_then none_yet (allocate free)) (
          finish-Moves last q0 (enqueue_loop weak fuel 0 node q0) q' (loop-Runs weak fuel 0 q0) h
            room)
