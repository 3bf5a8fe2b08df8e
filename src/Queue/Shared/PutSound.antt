-- ===== src/Queue/Shared/PutSound.antt =====
-- An access of `enqueue` keeps what holds of the queue.
use mathlib.Core.Path.{subst}
use everyfile.Prelude.{
  ℕ, ◌+◌, ◌≡◌, refl, sym, ◌∙◌, ap, Bool, true, false, some, List, [], ◌∷◌, ◌++◌, arith,
  append_assoc,
}
use everyfile.Queue.{Pointer, pointer, Entry, Queue, cas, set_next}
use everyfile.Queue.Fifo.{values, values-snoc}
use everyfile.Queue.Shared.{
  Pc, looping, link_copied, linked, Move, allocate, read_tail, read_next, same_tail, other_tail,
  copy_next, write_next, rewrite_next, copy_behind, write_behind, copy_tail, write_tail, count,
  bad_tail, bad_copy, bad_write,
}
use everyfile.Queue.Shared.Alone.{write_same}
use everyfile.Queue.Shared.Take.{TakePc}
use everyfile.Queue.Shared.Linked.{
  some-injective, cas_won, cas_lost, has-cas, IsSound-tail, IsSound-size, IsSound-allocate,
  IsSound-link, Gets-link,
}
use everyfile.Queue.Shared.Sound.{unsent, in_hand, Puts, Holds}

module _ {A : Type 0} where
  module _ (node : ℕ) (v : A) (rest : List (ℕ × A)) (g : TakePc A) (all out : List A) where
    -- A step that changes neither the queue nor what is on its way.
    stays :
        (q : Queue A) (p p' : Pc)
        → unsent p' ((node, v) ∷ rest) ≡ unsent p ((node, v) ∷ rest)
        → Puts q.heap ((node, v) ∷ rest) p'
        → Holds q ((node, v) ∷ rest) p g all out
        → Holds q ((node, v) ∷ rest) p' g all out
    stays q p p' same putting k = record {
      cells = k.cells;
      sound = rw same k.sound;
      distinct = k.distinct;
      putting = putting;
      getting = rw same k.getting;
      account = rw same k.account;
    }

    link-Holds :
        (q : Queue A) (tail next atom : Pointer) (weak : Bool) (e : Entry A)
        → q.heap tail.ptr ≡ some e
        → (cas weak atom next (pointer node (next.counter + 1))).0 ≡ true
        → Holds q ((node, v) ∷ rest) (link_copied tail next atom) g all out
        → Holds
            (set_next q tail.ptr e (cas weak atom next (pointer node (next.counter + 1))).1)
            ((node, v) ∷ rest)
            (linked tail)
            g
            all
            out
    unfolding values
    link-Holds q tail next atom weak e at won k =
        let (found, wrote) = cas_won weak atom next (pointer node (next.counter + 1)) won in
        let end : e.next.ptr ≡ 0 = ap (λ p. p.ptr) (k.putting.3 e at) ∙ (found ∙ k.putting.2) in
        let moved : values k.cells ++ (v ∷ values rest)
            ≡ values (k.cells ++ (node, v) ∷ []) ++ values rest =
          rw (values-snoc k.cells node v, append_assoc (values k.cells) (v ∷ []) (values rest)) in
        rw wrote (record {
          cells = k.cells ++ (node, v) ∷ [];
          sound =
              IsSound-link node v rest q k.cells e (next.counter + 1) tail.ptr at end k.putting.1
                k.putting.0 k.distinct.0 k.distinct.1 k.sound;
          distinct = k.distinct;
          putting = tt;
          getting = Gets-link node v rest q.head k.cells g k.getting;
          account = k.account ∙ ap (λ vs. (out ++ in_hand g) ++ vs) moved;
        })

    relink-Holds :
        (q : Queue A) (tail next atom : Pointer) (weak : Bool) (e : Entry A)
        → q.heap tail.ptr ≡ some e
        → (cas weak atom next (pointer node (next.counter + 1))).0 ≡ false
        → Holds q ((node, v) ∷ rest) (link_copied tail next atom) g all out
        → Holds
            (set_next q tail.ptr e (cas weak atom next (pointer node (next.counter + 1))).1)
            ((node, v) ∷ rest)
            looping
            g
            all
            out
    relink-Holds q tail next atom weak e at lost k =
        let same : (cas weak atom next (pointer node (next.counter + 1))).1 ≡ e.next =
          cas_lost weak atom next (pointer node (next.counter + 1)) lost ∙ sym (k.putting.3 e at) in
        rw same (
          subst (λ h. Holds (record q { heap = h }) ((node, v) ∷ rest) looping g all out)
            (sym (write_same q.heap tail.ptr e at))
            (stays q (link_copied tail next atom) looping refl k.putting.0 k))

    pub Move-Holds :
        (q q' : Queue A) (p p' : Pc)
        → Move node v q p q' p'
        → Holds q ((node, v) ∷ rest) p g all out
        → Holds q' ((node, v) ∷ rest) p' g all out
    Move-Holds q _ _ _ (allocate free) k = record {
      cells = k.cells;
      sound = IsSound-allocate node v rest q k.cells free k.distinct.0 k.sound;
      distinct = k.distinct;
      putting = ground arith;
      getting = k.getting;
      account = k.account;
    }
    Move-Holds q _ _ _ read_tail k = stays q _ _ refl ((k.putting, k.sound.tail_in)) k
    Move-Holds q _ _ _ (read_next e at) k =
        stays q _ _ refl ((k.putting.0, k.putting.1, k.sound.links _ e at)) k
    Move-Holds q _ _ _ (same_tail same) k = stays q _ _ refl (k.putting) k
    Move-Holds q _ _ _ (other_tail other) k = stays q _ _ refl (k.putting.0) k
    Move-Holds q _ _ _ (copy_next e end at) k =
        stays q _ _ refl
          ((
            k.putting.0,
            k.putting.1,
            end,
            λ f there. ap (λ f. f.next) (some-injective f e (sym there ∙ at)),
          ))
          k
    Move-Holds q _ _ _ (write_next weak e at won) k = link-Holds q _ _ _ weak e at won k
    Move-Holds q _ _ _ (rewrite_next weak e at lost) k = relink-Holds q _ _ _ weak e at lost k
    Move-Holds q _ _ _ (copy_behind more) k =
        stays q _ _ refl ((k.putting.0, k.putting.2, k.sound.tail_in)) k
    Move-Holds q _ _ _ (write_behind weak) k = record {
      cells = k.cells;
      sound =
          IsSound-tail q _ ((node, v) ∷ rest) k.cells
            (has-cas weak _ _ _ ((node, v) ∷ rest) k.putting.2 k.putting.1) k.sound;
      distinct = k.distinct;
      putting = k.putting.0;
      getting = k.getting;
      account = k.account;
    }
    Move-Holds q _ _ _ copy_tail k = stays q _ _ refl (k.sound.tail_in) k
    Move-Holds q _ _ _ (write_tail weak) k = record {
      cells = k.cells;
      sound =
          IsSound-tail q _ rest k.cells (has-cas weak _ _ _ rest k.putting k.distinct.1) k.sound;
      distinct = k.distinct;
      putting = tt;
      getting = k.getting;
      account = k.account;
    }
    Move-Holds q _ _ _ (bad_tail gone) k = stays q _ _ refl tt k
    Move-Holds q _ _ _ (bad_copy end gone) k = stays q _ _ refl tt k
    Move-Holds q _ _ _ (bad_write gone) k = stays q _ _ refl tt k
    Move-Holds q _ _ _ count k = record {
      cells = k.cells;
      sound = IsSound-size q _ rest k.cells k.sound;
      distinct = k.distinct;
      putting = tt;
      getting = k.getting;
      account = k.account;
    }
