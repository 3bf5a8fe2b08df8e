-- ===== src/Queue/Shared/Dangling.antt =====
-- One thread that adds, as `main`'s thread for the walk does, and one that takes: an entry is deleted
-- while the other thread is about to read it.
use everyfile.Prelude.{
  ℕ, ◌+◌, ◌-◌, ◌≡◌, ◌≢◌, refl, false, none, some, List, [], ◌∷◌, arith, ap, sym, ◌∙◌, ◌%◌, ◌^◌,
}
use mathlib.Core.Path.{subst}
use everyfile.Queue.{Pointer, pointer, Entry, Queue, write}
use everyfile.Queue.Chain.{IsQueue}
use everyfile.Queue.Shared.Alone.{cas_holds, chained, chain-Moves, swing-Moves}
use everyfile.Queue.Shared.TakeAlone.{to_compared, move_tail, unlink}
use everyfile.Queue.Shared.Take.{
  begun, tail_copied, freed, after, Take, Takes, not_yet, then_take, copy_end, write_end,
  count_down,
}
use everyfile.Queue.Shared.Threads.{
  Threads, next_put, next_take, Acts, idle, act, acts_put, acts_take,
}
use everyfile.Queue.Shared.{
  called, got_tail, returned, new_entry, none_yet, and_then, allocate, read_tail,
}

module _ {A : Type 0} where
  -- The exchange that moves the tail succeeds when the tail was copied in time.
  write_end-Take :
      (q : Queue A) (tail next : Pointer)
      → Take q (tail_copied tail next tail) (record q { tail = after tail next }) begun
  write_end-Take q tail next =
      subst (λ r. Take q (tail_copied tail next tail) (record q { tail = r.1 }) begun)
        (cas_holds tail (after tail next)) (write_end false)

  move_tail-Takes :
      (q : Queue A) (e : Entry A)
      → q.heap q.head.ptr ≡ some e
      → q.head.ptr ≡ q.tail.ptr
      → e.next.ptr ≢ 0
      → Takes q begun (record q { tail = after q.tail e.next }) begun
  move_tail-Takes q e at same more =
      subst (λ r. Takes q begun (record q { tail = r.1 }) begun)
        (cas_holds q.tail (after q.tail e.next)) (move_tail false q e at same more)

module _ {A : Type 0} (q : Queue A) (e : Entry A) (node_1 node_2 node_3 : ℕ)
    (value_1 value_2 value_3 : A) where
  -- The first value is linked, but not yet at the tail.
  abbrev one_linked : Queue A
  one_linked = chained node_1 value_1 q e

  abbrev first_link : Pointer
  first_link = pointer node_1 (e.next.counter + 1)

  abbrev one_in : Queue A
  one_in = record one_linked {
    tail = pointer node_1 (q.tail.counter + 1);
    size = (q.size + 1) % 2 ^ 32;
  }

  abbrev two_linked : Queue A
  two_linked = chained node_2 value_2 one_in (new_entry value_1)

  -- Two values are in; the tail goes back to the first one.
  abbrev fallen_back : Queue A
  fallen_back = record two_linked {
    tail = after q.tail first_link;
    size = ((q.size + 1) % 2 ^ 32 + 1) % 2 ^ 32;
  }

  -- The third entry is allocated, and the tail is read.
  abbrev three : Queue A
  three = record fallen_back { heap = write fallen_back.heap node_3 (some (new_entry value_3)) }

  abbrev one_out : Queue A
  one_out = record three {
    head = after q.head first_link;
    heap = write three.heap q.head.ptr none;
    size = (((q.size + 1) % 2 ^ 32 + 1) % 2 ^ 32 + 2 ^ 32 - 1) % 2 ^ 32;
  }

  abbrev second_link : Pointer
  second_link = pointer node_2 (0 % 2 ^ 64 + 1)

  abbrev helped : Queue A
  helped = record one_out { tail = after (after q.tail first_link) second_link }

  abbrev two_out : Queue A
  two_out = record helped {
    head = after (after q.head first_link) second_link;
    heap = write one_out.heap node_1 none;
  }

  abbrev jobs : List (ℕ × A)
  jobs = (node_1, value_1) ∷ (node_2, value_2) ∷ (node_3, value_3) ∷ []

  abbrev start : Threads A
  start = record { queue = q; jobs = jobs; put = called; get = begun }

  -- The entry of the old last value, and that of the first new one, when they are linked.
  abbrev entry_0 : Entry A
  entry_0 = record e { next = first_link }

  abbrev entry_1 : Entry A
  entry_1 = record (new_entry value_1) { next = second_link }

  module _ (at : q.heap q.tail.ptr ≡ some e) (same : q.head.ptr ≡ q.tail.ptr) (end : e.next.ptr ≡ 0)
      (free_1 : q.heap node_1 ≡ none) (free_2 : q.heap node_2 ≡ none)
      (free_3 : q.heap node_3 ≡ none) (not_null : node_1 ≢ 0) (not_null_2 : node_2 ≢ 0)
      (apart : node_1 ≢ node_2) (apart_3 : node_1 ≢ node_3) (apart_23 : node_2 ≢ node_3) where
    at_linked : one_linked.heap q.head.ptr ≡ some entry_0
    at_linked = ground arith

    at_three : three.heap q.head.ptr ≡ some entry_0
    at_three = ground arith

    first_three : three.heap node_1 ≡ some entry_1
    first_three = ground arith

    head_apart : q.head.ptr ≢ node_1
    head_apart = ground arith

    first_one_out : one_out.heap node_1 ≡ some entry_1
    first_one_out = ground arith

    second_one_out : one_out.heap node_2 ≡ some (new_entry value_2)
    second_one_out = ground arith

    -- The taking thread has copied the tail when the first call ends.
    first_in : Acts start (record {
      queue = one_in;
      jobs = jobs;
      put = returned;
      get = tail_copied q.tail first_link q.tail;
    })
    first_in =
        acts_put
          (acts_take (acts_put idle (chain-Moves node_1 value_1 q e at end free_1))
            (then_take (to_compared one_linked entry_0 at_linked) (copy_end same not_null)))
          (swing-Moves node_1 value_1 one_linked one_linked none_yet)

    -- It writes what it copied when the second call has ended.
    second_in : Acts start (record {
      queue = fallen_back;
      jobs = (node_2, value_2) ∷ (node_3, value_3) ∷ [];
      put = returned;
      get = begun;
    })
    second_in =
        acts_take
          (acts_put (act first_in (next_put refl refl)) (
            swing-Moves node_2 value_2 one_in two_linked (
              chain-Moves node_2 value_2 one_in (new_entry value_1) (ground arith) refl
                (ground arith))))
          (then_take not_yet (write_end-Take _ q.tail first_link))

    third_called : Acts start (record {
      queue = three;
      jobs = (node_3, value_3) ∷ [];
      put = got_tail three.tail;
      get = begun;
    })
    third_called =
        acts_put (act second_in (next_put refl refl))
          (and_then (and_then none_yet (allocate (ground arith))) read_tail)

    first_out : Acts start (record {
      queue = one_out;
      jobs = (node_3, value_3) ∷ [];
      put = got_tail three.tail;
      get = begun;
    })
    first_out =
        act
          (acts_take third_called
            (then_take (unlink three entry_0 entry_1 at_three head_apart first_three) count_down))
          (next_take refl)

    second_out : Acts start (record {
      queue = two_out;
      jobs = (node_3, value_3) ∷ [];
      put = got_tail three.tail;
      get = freed value_2;
    })
    second_out =
        acts_take
          (acts_take first_out (move_tail-Takes one_out entry_1 first_one_out refl not_null_2))
          (unlink helped entry_1 (new_entry value_2) first_one_out apart second_one_out)

-- On an empty queue, with one thread that adds three values and one that takes, there is an order
-- of the accesses in which the adding thread is about to read through the tail that it has read
-- and that entry has been deleted; the addresses of the new entries are free, different, and those
-- of the first two are not NULL.
pub enqueue_dangles :
    {A : Type 0} (q : Queue A) (node_1 node_2 node_3 : ℕ) (value_1 value_2 value_3 : A)
    → IsQueue q []
    → q.heap node_1 ≡ none
    → q.heap node_2 ≡ none
    → q.heap node_3 ≡ none
    → node_1 ≢ 0
    → node_2 ≢ 0
    → node_1 ≢ node_2
    → node_1 ≢ node_3
    → node_2 ≢ node_3
    → (t : Threads A) × (tail : Pointer) × Acts
        (record {
          queue = q;
          jobs = (node_1, value_1) ∷ (node_2, value_2) ∷ (node_3, value_3) ∷ [];
          put = called;
          get = begun;
        })
        t
      × (t.put ≡ got_tail tail)
      × (t.queue.heap tail.ptr ≡ none)
enqueue_dangles q node_1 node_2 node_3 value_1 value_2 value_3 queue free_1 free_2 free_3 ne_1 ne_2
      apart apart_3 apart_23 =
    let (ne, (e, at, end), l) = queue.chain in
    let same : q.head.ptr ≡ q.tail.ptr = sym queue.tail in
    (
      _,
      _,
      second_out q e node_1 node_2 node_3 value_1 value_2 value_3 (ap q.heap queue.tail ∙ at) same
          end free_1 free_2 free_3 ne_1 ne_2 apart apart_3 apart_23,
      refl,
      ground arith,
    )
