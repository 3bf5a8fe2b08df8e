-- ===== src/Queue/Shared/Take.antt =====
-- src/datastruct/__no_lock_queue_with_CAS.h: `dequeue` an access of the shared queue at a time.
-- An access through an entry that is not there is a step after which the thread stands still.
use everyfile.Prelude.{◌+◌, ◌-◌, ◌%◌, ◌^◌, ◌≡◌, ◌≢◌, Bool, true, false, Option, none, some}
use everyfile.Queue.{Pointer, pointer, same_pointer, Entry, Queue, cas, write}

-- Where a call stands, with the local variables that are live there.
pub data TakePc (A : Type 0) : Type 0 where
  begun : TakePc A
  got_head : (head : Pointer) → TakePc A
  got_ends : (head tail : Pointer) → TakePc A
  got_link : (head tail next : Pointer) → TakePc A
  compared : (head tail next : Pointer) → TakePc A
  tail_copied : (tail next atom : Pointer) → TakePc A
  got_value : (head next : Pointer) (value : A) → TakePc A
  head_copied : (head next : Pointer) (value : A) (atom : Pointer) → TakePc A
  unlinked : (head : Pointer) (value : A) → TakePc A
  freed : (value : A) → TakePc A
  faulted : (held : Option A) → TakePc A
  answered : Option A → TakePc A

-- The pointer that `CAS` writes in place of `old`.
abbrev pub after : Pointer → Pointer → Pointer
after old next = pointer next.ptr (old.counter + 1)

-- One access.
pub data Take {A : Type 0} (q : Queue A) : TakePc A → Queue A → TakePc A → Type 0 where
  read_head : Take q begun q (got_head q.head)
  read_end : {head : Pointer} → Take q (got_head head) q (got_ends head q.tail)
  read_link :
      {head tail : Pointer} (e : Entry A)
      → q.heap head.ptr ≡ some e
      → Take q (got_ends head tail) q (got_link head tail e.next)
  bad_link :
      {head tail : Pointer} → q.heap head.ptr ≡ none → Take q (got_ends head tail) q (faulted none)
  same_head :
      {head tail next : Pointer}
      → same_pointer head q.head ≡ true
      → Take q (got_link head tail next) q (compared head tail next)
  other_head :
      {head tail next : Pointer}
      → same_pointer head q.head ≡ false
      → Take q (got_link head tail next) q begun
  no_value :
      {head tail next : Pointer}
      → head.ptr ≡ tail.ptr
      → next.ptr ≡ 0
      → Take q (compared head tail next) q (answered none)
  -- `CAS` that moves a tail that is behind.
  copy_end :
      {head tail next : Pointer}
      → head.ptr ≡ tail.ptr
      → next.ptr ≢ 0
      → Take q (compared head tail next) q (tail_copied tail next q.tail)
  write_end :
      {tail next atom : Pointer} (weak : Bool)
      → Take q
          (tail_copied tail next atom)
          (record q { tail = (cas weak atom tail (after tail next)).1 })
          begun
  read_value :
      {head tail next : Pointer} (n : Entry A)
      → head.ptr ≢ tail.ptr
      → q.heap next.ptr ≡ some n
      → Take q (compared head tail next) q (got_value head next n.value)
  bad_value :
      {head tail next : Pointer}
      → head.ptr ≢ tail.ptr
      → q.heap next.ptr ≡ none
      → Take q (compared head tail next) q (faulted none)
  -- `CAS` of the head.
  copy_head :
      {head next : Pointer} {value : A}
      → Take q (got_value head next value) q (head_copied head next value q.head)
  write_head :
      {head next atom : Pointer} {value : A} (weak : Bool)
      → (cas weak atom head (after head next)).0 ≡ true
      → Take q
          (head_copied head next value atom)
          (record q { head = (cas weak atom head (after head next)).1 })
          (unlinked head value)
  rewrite_head :
      {head next atom : Pointer} {value : A} (weak : Bool)
      → (cas weak atom head (after head next)).0 ≡ false
      → Take q
          (head_copied head next value atom)
          (record q { head = (cas weak atom head (after head next)).1 })
          begun
  delete_head :
      {head : Pointer} {value : A} (e : Entry A)
      → q.heap head.ptr ≡ some e
      → Take q (unlinked head value) (record q { heap = write q.heap head.ptr none }) (freed value)
  bad_delete :
      {head : Pointer} {value : A}
      → q.heap head.ptr ≡ none
      → Take q (unlinked head value) q (faulted (some value))
  count_down :
      {value : A}
      → Take q
          (freed value)
          (record q { size = (q.size + 2 ^ 32 - 1) % 2 ^ 32 })
          (answered (some value))

pub data Takes {A : Type 0} (q : Queue A) (p : TakePc A) : Queue A → TakePc A → Type 0 where
  not_yet : Takes q p q p
  then_take :
      {q1 q2 : Queue A} {p1 p2 : TakePc A} → Takes q p q1 p1 → Take q1 p1 q2 p2 → Takes q p q2 p2
