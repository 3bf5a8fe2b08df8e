-- ===== src/Queue/Shared/TakeSound.antt =====
-- An access of `dequeue` keeps what holds of the queue.
use everyfile.Prelude.{
  ℕ, ◌+◌, ◌≡◌, refl, sym, ◌∙◌, ap, Bool, true, false, List, [], ◌∷◌, ◌++◌, arith, append_assoc,
  append-nil,
}
use everyfile.Queue.{Pointer, Queue, cas}
use everyfile.Queue.Fifo.{values}
use everyfile.Queue.Shared.{Pc}
use everyfile.Queue.Shared.Take.{
  TakePc, begun, head_copied, unlinked, after, Take, read_head, read_end, read_link, same_head,
  other_head, no_value, copy_end, write_end, read_value, copy_head, write_head, rewrite_head,
  delete_head, count_down, bad_link, bad_value, bad_delete,
}
use everyfile.Queue.Shared.Linked.{cas_won, cas_lost, has-cas, IsSound-tail, IsSound-size}
use everyfile.Queue.Shared.Sound.{unsent, in_hand, Distinct, IsSound, Puts, IsFirst, Gets, Holds}
use everyfile.Queue.Shared.Shifted.{
  IsNext-link, IsFirst-value, IsSound-shift, IsSound-free, Puts-free,
}

module _ {A : Type 0} where
  module _ (jobs : List (ℕ × A)) (p : Pc) (all out : List A) where
    -- A step that changes neither the queue nor what is in hand.
    stays :
        (q : Queue A) (g g' : TakePc A) (k : Holds q jobs p g all out)
        → in_hand g' ≡ in_hand g
        → Gets q.head (unsent p jobs) k.cells g'
        → Holds q jobs p g' all out
    stays q g g' k same getting = record {
      cells = k.cells;
      sound = k.sound;
      distinct = k.distinct;
      putting = k.putting;
      getting = getting;
      account = rw same k.account;
    }

    shift-cells :
        (q : Queue A) (head next : Pointer) (value : A) (cells : List (ℕ × A))
        → IsSound q (unsent p jobs) cells
        → Distinct jobs
        → Puts q.heap jobs p
        → head ≡ q.head
        → IsFirst cells next.ptr value
        → all ≡ (out ++ []) ++ (values cells ++ values (unsent p jobs))
        → Holds (record q { head = after head next }) jobs p (unlinked head value) all out
    unfolding values
    shift-cells q head next value [] s distinct putting here first account = absurd first
    shift-cells q head next value ((b, w) ∷ cells) s distinct putting here (at, is) account =
        let moved : (out ++ []) ++ (w ∷ (values cells ++ values (unsent p jobs)))
            ≡ (out ++ w ∷ []) ++ (values cells ++ values (unsent p jobs)) =
          rw (append-nil out, append_assoc out (w ∷ []) (values cells ++ values (unsent p jobs))) in
        rw (here, at, is)
          (record {
            cells = cells;
            sound = IsSound-shift q (unsent p jobs) b w cells (q.head.counter + 1) s;
            distinct = distinct;
            putting = putting;
            getting = (s.head_in, ground (arith, s.chain.2), ground (arith, s.chain.2));
            account = account ∙ moved;
          })

    shift-Holds :
        (q : Queue A) (head next atom : Pointer) (value : A) (weak : Bool)
        → (cas weak atom head (after head next)).0 ≡ true
        → Holds q jobs p (head_copied head next value atom) all out
        → Holds
            (record q { head = (cas weak atom head (after head next)).1 })
            jobs
            p
            (unlinked head value)
            all
            out
    shift-Holds q head next atom value weak won k =
        let (found, wrote) = cas_won weak atom head (after head next) won in
        rw wrote (
          shift-cells q head next value k.cells k.sound k.distinct k.putting k.getting.0 k.getting.1
            k.account)

    unshift-Holds :
        (q : Queue A) (head next atom : Pointer) (value : A) (weak : Bool)
        → (cas weak atom head (after head next)).0 ≡ false
        → Holds q jobs p (head_copied head next value atom) all out
        → Holds (record q { head = (cas weak atom head (after head next)).1 }) jobs p begun all out
    unshift-Holds q head next atom value weak lost k =
        let same : (cas weak atom head (after head next)).1 ≡ q.head =
          cas_lost weak atom head (after head next) lost ∙ k.getting.2 in
        rw same (stays q (head_copied head next value atom) begun k refl tt)

    pub Take-Holds :
        (q q' : Queue A) (g g' : TakePc A)
        → Take q g q' g'
        → Holds q jobs p g all out
        → Holds q' jobs p g' all out
    Take-Holds q _ _ _ read_head k = stays q _ _ k refl refl
    Take-Holds q _ _ _ read_end k = stays q _ _ k refl k.getting
    Take-Holds q _ _ _ (read_link e at) k = stays q _ _ k refl (
      k.getting,
      k.sound.links _ e at,
      IsNext-link q.heap q.head.ptr k.cells k.sound.last e k.sound.chain
          (ap (λ p. q.heap p.ptr) (sym k.getting) ∙ at),
    )
    Take-Holds q _ _ _ (same_head same) k = stays q _ _ k refl k.getting
    Take-Holds q _ _ _ (other_head other) k = stays q _ _ k refl tt
    Take-Holds q _ _ _ (no_value same end) k = stays q _ _ k refl tt
    Take-Holds q _ _ _ (copy_end same more) k = stays q _ _ k refl (k.getting.1, k.sound.tail_in)
    Take-Holds q _ _ _ (write_end weak) k = record {
      cells = k.cells;
      sound =
          IsSound-tail q _ (unsent p jobs) k.cells
            (has-cas weak _ _ _ (unsent p jobs) k.getting.1 k.getting.0) k.sound;
      distinct = k.distinct;
      putting = k.putting;
      getting = tt;
      account = k.account;
    }
    Take-Holds q _ _ _ (read_value n apart there) k = stays q _ _ k refl (
      k.getting.0,
      IsFirst-value q.heap q.head.ptr k.cells k.sound.last _ n k.sound.chain k.sound.null_free
          k.getting.2 there,
    )
    Take-Holds q _ _ _ copy_head k = stays q _ _ k refl (k.getting.0, k.getting.1, refl)
    Take-Holds q _ _ _ (write_head weak won) k = shift-Holds q _ _ _ _ weak won k
    Take-Holds q _ _ _ (rewrite_head weak lost) k = unshift-Holds q _ _ _ _ weak lost k
    Take-Holds q _ _ _ (delete_head e at) k = record {
      cells = k.cells;
      sound = IsSound-free q (unsent p jobs) k.cells _ k.getting.1 k.getting.2 k.sound;
      distinct = k.distinct;
      putting = Puts-free q.heap jobs p _ k.getting.0 k.putting;
      getting = tt;
      account = k.account;
    }
    Take-Holds q _ _ _ (bad_link gone) k = stays q _ _ k refl tt
    Take-Holds q _ _ _ (bad_value apart gone) k = stays q _ _ k refl tt
    Take-Holds q _ _ _ (bad_delete gone) k = stays q _ _ k refl tt
    Take-Holds q _ _ _ count_down k = record {
      cells = k.cells;
      sound = IsSound-size q _ (unsent p jobs) k.cells k.sound;
      distinct = k.distinct;
      putting = k.putting;
      getting = tt;
      account = k.account;
    }
