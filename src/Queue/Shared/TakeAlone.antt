-- ===== src/Queue/Shared/TakeAlone.antt =====
-- A call of `dequeue` that runs alone does what `dequeue` does.
use everyfile.Prelude.{
  ℕ, zero, suc, ◌+◌, ◌-◌, ◌%◌, ◌^◌, ◌<◌, ◌≡◌, ◌≢◌, refl, ap, sym, inl, inr, Bool, true, false,
  Option, none, some, arith, ◌==◌, Bool-cases,
}
use mathlib.Core.Path.{subst}
use everyfile.Queue.{Entry, Queue, Run, ok, cas, write, take_value, dequeue_step, dequeue}
use everyfile.Queue.Steady.{same_pointer_refl}
use everyfile.Queue.Shared.Alone.{cas_holds}
use everyfile.Queue.Shared.Take.{
  TakePc, begun, compared, head_copied, unlinked, answered, after, Take, read_head, read_end,
  read_link, same_head, no_value, copy_end, write_end, read_value, copy_head, write_head,
  rewrite_head, delete_head, count_down, Takes, not_yet, then_take,
}

ok-injective : {B : Type 0} (a b : B) → ok a ≡ ok b → a ≡ b
ok-injective a b h = cc

module _ {A : Type 0} where
  pub append-Takes :
      {q q1 : Queue A} {p p1 : TakePc A} {q2 : Queue A} {p2 : TakePc A}
      → Takes q p q1 p1
      → Takes q1 p1 q2 p2
      → Takes q p q2 p2
  append-Takes first not_yet = first
  append-Takes first (then_take before step) = then_take (append-Takes first before) step

  -- Up to the branches of the loop's body.
  pub to_compared :
      (q : Queue A) (e : Entry A)
      → q.heap q.head.ptr ≡ some e
      → Takes q begun q (compared q.head q.tail e.next)
  to_compared q e at =
      then_take (then_take (then_take (then_take not_yet read_head) read_end) (read_link e at))
        (same_head (same_pointer_refl q.head))

  -- A tail that is behind is moved, if the exchange succeeds.
  pub move_tail :
      (weak : Bool) (q : Queue A) (e : Entry A)
      → q.heap q.head.ptr ≡ some e
      → q.head.ptr ≡ q.tail.ptr
      → e.next.ptr ≢ 0
      → Takes q begun (record q { tail = (cas weak q.tail q.tail (after q.tail e.next)).1 }) begun
  move_tail weak q e at same more =
      then_take (then_take (to_compared q e at) (copy_end same more)) (write_end weak)

  to_head_copied :
      (q : Queue A) (e n : Entry A)
      → q.heap q.head.ptr ≡ some e
      → q.head.ptr ≢ q.tail.ptr
      → q.heap e.next.ptr ≡ some n
      → Takes q begun q (head_copied q.head e.next n.value q.head)
  to_head_copied q e n at apart there =
      then_take (then_take (to_compared q e at) (read_value n apart there)) copy_head

  -- The head moves on, and its entry is deleted.
  pub unlink :
      (q : Queue A) (e n : Entry A)
      → q.heap q.head.ptr ≡ some e
      → q.head.ptr ≢ q.tail.ptr
      → q.heap e.next.ptr ≡ some n
      → Takes q begun
          (record q { head = after q.head e.next; heap = write q.heap q.head.ptr none })
          (TakePc.freed n.value)
  unlink q e n at apart there =
      let won = cas_holds q.head (after q.head e.next) in
      let moved : Take q (head_copied q.head e.next n.value q.head)
          (record q { head = after q.head e.next }) (unlinked q.head n.value) =
        subst
          (λ r.
            Take q (head_copied q.head e.next n.value q.head) (record q { head = r.1 })
              (unlinked q.head n.value))
          won (write_head false (ap (λ r. r.0) won)) in
      then_take (then_take (to_head_copied q e n at apart there) moved) (delete_head e at)

  -- The count is one of an `int` above zero when a value is taken.
  abbrev pub Covers : Queue A → Option A → Type 0
  Covers q o = (v : A) → o ≡ some v → (q.size ≢ 0) × (q.size < 2 ^ 32)

  -- What a run from `q` has to do with the accesses.
  abbrev Runs : Queue A → Run (Queue A × Option A) → Type 0
  Runs q r =
      (q1 : Queue A) (o : Option A) → r ≡ ok (q1, o) → Covers q o → Takes q begun q1 (answered o)

  same_answer : (r s : Queue A × Option A) → ok r ≡ ok s → s.1 ≡ r.1
  same_answer r s h = sym (ap (λ r. r.1) (ok-injective r s h))

  Runs-value :
      (weak : Bool) (q : Queue A) (e : Entry A) (again : Queue A → Run (Queue A × Option A))
      (n : Option (Entry A))
      → q.heap q.head.ptr ≡ some e
      → q.head.ptr ≢ q.tail.ptr
      → q.heap e.next.ptr ≡ n
      → ((q' : Queue A) → Runs q' (again q'))
      → Runs q (take_value weak q e.next.ptr again n)
  Runs-value weak q e again none at apart there known q1 o h some_left = cc
  Runs-value weak q e again (some n) at apart there known q1 o h some_left =
      elim (Bool-cases weak) [
        | inl fails ↦
            append-Takes (then_take (to_head_copied q e n at apart there) (rewrite_head true refl))
              (known q q1 o (rw fails at h) some_left)
        | inr holds ↦
            subst (λ r. Takes q begun r.0 (answered r.1))
              (ok-injective _ _ (rw (holds, same_pointer_refl q.head) at h))
              (subst
                (λ size.
                  Takes q begun
                    (record q {
                      head = after q.head e.next;
                      heap = write q.heap q.head.ptr none;
                      size = size;
                    })
                    (answered (some n.value)))
                (below
                  (some_left n.value (same_answer _ _ (rw (holds, same_pointer_refl q.head) at h))))
                (then_take (unlink q e n at apart there) count_down))
      ]
    where
      below : (q.size ≢ 0) × (q.size < 2 ^ 32) → (q.size + 2 ^ 32 - 1) % 2 ^ 32 ≡ q.size - 1
      below (some_left, few) = omega arith

  Runs-step :
      (weak : Bool) (q : Queue A) (again : Queue A → Run (Queue A × Option A))
      (e : Option (Entry A))
      → q.heap q.head.ptr ≡ e
      → ((q' : Queue A) → Runs q' (again q'))
      → Runs q (dequeue_step weak q again e)
  Runs-step weak q again none at known = λ q1 o h some_left. cc
  Runs-step weak q again (some e) at known = elim (Bool-cases (q.head.ptr == q.tail.ptr)) [
    | inl same ↦ elim (Bool-cases (e.next.ptr == 0)) [
      | inl end ↦ λ q1 o h some_left.
          subst (λ r. Takes q begun r.0 (answered r.1)) (ok-injective _ _ (rw (same, end) at h))
            (then_take (to_compared q e at) (no_value (ground (arith, same)) (ground (arith, end))))
      | inr more ↦ λ q1 o h some_left.
          append-Takes (move_tail weak q e at (ground (arith, same)) (ground (arith, more)))
            (known _ q1 o (rw (same, more) at h) some_left)
    ]
    | inr apart ↦ λ q1 o h some_left.
        Runs-value weak q e again (q.heap e.next.ptr) at (ground (arith, apart)) refl known q1 o
          (rw apart at h) some_left
  ]

  -- Whenever dequeue gives a queue and an answer, and the count is not zero and below 2 ^ 32 if
  -- the answer is a value, the accesses of one call that runs alone lead from the old queue to
  -- that one with that answer.
  pub dequeue-Takes :
      (weak : ℕ → Bool) (fuel i : ℕ) (q q' : Queue A) (o : Option A)
      → dequeue weak fuel i q ≡ ok (q', o)
      → Covers q o
      → Takes q begun q' (answered o)
  unfolding dequeue
  dequeue-Takes weak zero i q q' o h some_left = cc
  dequeue-Takes weak (suc fuel) i q q' o h some_left =
      Runs-step (weak i) q (dequeue weak fuel (suc i)) (q.heap q.head.ptr) refl
        (λ q1 q2 r. dequeue-Takes weak fuel (suc i) q1 q2 r) q' o h some_left
