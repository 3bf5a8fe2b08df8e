-- ===== src/Queue/Shared.antt =====
-- src/datastruct/__no_lock_queue_with_CAS.h: `enqueue` (and in Take `dequeue`) an access of the
-- shared queue at a time, for threads that run at once. `CAS` copies the place into an atomic of its
-- own, exchanges there, and copies the result back: two accesses, between which other threads run.
-- A pointer, which is an address and a counter, is read or written as a whole in one access. An access
-- through an entry that is not there, as after it has been deleted, is a step after which the thread
-- stands still.
pub mod Alone
pub mod Lost
pub mod Take
pub mod TakeAlone
pub mod Threads
pub mod Dangling
pub mod Sound
pub mod Linked
pub mod PutSound
pub mod Shifted
pub mod TakeSound
pub mod Calls
use everyfile.Prelude.{ℕ, ◌+◌, ◌%◌, ◌^◌, ◌≡◌, ◌≢◌, Bool, true, false, Option, none, some}
use everyfile.Queue.{Pointer, pointer, same_pointer, Entry, Queue, cas, write, set_next}

-- Where a call stands, with the local variables that are live there.
pub data Pc : Type 0 where
  called : Pc
  looping : Pc
  got_tail : (tail : Pointer) → Pc
  got_next : (tail next : Pointer) → Pc
  checked : (tail next : Pointer) → Pc
  link_copied : (tail next atom : Pointer) → Pc
  help_copied : (tail next atom : Pointer) → Pc
  linked : (tail : Pointer) → Pc
  swing_copied : (tail atom : Pointer) → Pc
  swung : Pc
  faulted : Pc
  returned : Pc

-- The new entry.
abbrev pub new_entry : {A : Type 0} → A → Entry A
new_entry value = record { value = value; next = pointer 0 0 }

-- One access by the call of `enqueue` that puts `value` into the entry at `node`.
pub data Move {A : Type 0} (node : ℕ) (value : A) (q : Queue A) : Pc → Queue A → Pc → Type 0 where
  allocate :
      q.heap node ≡ none
      → Move node value q called
          (record q { heap = write q.heap node (some (new_entry value)) })
          looping
  read_tail : Move node value q looping q (got_tail q.tail)
  read_next :
      {tail : Pointer} (e : Entry A)
      → q.heap tail.ptr ≡ some e
      → Move node value q (got_tail tail) q (got_next tail e.next)
  bad_tail : {tail : Pointer} → q.heap tail.ptr ≡ none → Move node value q (got_tail tail) q faulted
  same_tail :
      {tail next : Pointer}
      → same_pointer tail q.tail ≡ true
      → Move node value q (got_next tail next) q (checked tail next)
  other_tail :
      {tail next : Pointer}
      → same_pointer tail q.tail ≡ false
      → Move node value q (got_next tail next) q looping
  -- `CAS` of the next pointer of the last entry.
  copy_next :
      {tail next : Pointer} (e : Entry A)
      → next.ptr ≡ 0
      → q.heap tail.ptr ≡ some e
      → Move node value q (checked tail next) q (link_copied tail next e.next)
  bad_copy :
      {tail next : Pointer}
      → next.ptr ≡ 0
      → q.heap tail.ptr ≡ none
      → Move node value q (checked tail next) q faulted
  write_next :
      {tail next atom : Pointer} (weak : Bool) (e : Entry A)
      → q.heap tail.ptr ≡ some e
      → (cas weak atom next (pointer node (next.counter + 1))).0 ≡ true
      → Move node value q
          (link_copied tail next atom)
          (set_next q tail.ptr e (cas weak atom next (pointer node (next.counter + 1))).1)
          (linked tail)
  rewrite_next :
      {tail next atom : Pointer} (weak : Bool) (e : Entry A)
      → q.heap tail.ptr ≡ some e
      → (cas weak atom next (pointer node (next.counter + 1))).0 ≡ false
      → Move node value q
          (link_copied tail next atom)
          (set_next q tail.ptr e (cas weak atom next (pointer node (next.counter + 1))).1)
          looping
  bad_write :
      {tail next atom : Pointer}
      → q.heap tail.ptr ≡ none
      → Move node value q (link_copied tail next atom) q faulted
  -- `CAS` that moves a tail that is behind.
  copy_behind :
      {tail next : Pointer}
      → next.ptr ≢ 0
      → Move node value q (checked tail next) q (help_copied tail next q.tail)
  write_behind :
      {tail next atom : Pointer} (weak : Bool)
      → Move node value q
          (help_copied tail next atom)
          (record q { tail = (cas weak atom tail (pointer next.ptr (tail.counter + 1))).1 })
          looping
  -- `CAS` behind the loop.
  copy_tail : {tail : Pointer} → Move node value q (linked tail) q (swing_copied tail q.tail)
  write_tail :
      {tail atom : Pointer} (weak : Bool)
      → Move node value q
          (swing_copied tail atom)
          (record q { tail = (cas weak atom tail (pointer node (tail.counter + 1))).1 })
          swung
  count : Move node value q swung (record q { size = (q.size + 1) % 2 ^ 32 }) returned

pub data Moves {A : Type 0} (node : ℕ) (value : A) (q : Queue A) (p : Pc)
    : Queue A → Pc → Type 0 where
  none_yet : Moves node value q p q p
  and_then :
      {q1 q2 : Queue A} {p1 p2 : Pc}
      → Moves node value q p q1 p1
      → Move node value q1 p1 q2 p2
      → Moves node value q p q2 p2
