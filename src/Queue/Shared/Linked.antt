-- ===== src/Queue/Shared/Linked.antt =====
-- A new entry, a new link and a new tail keep the queue sound.
use mathlib.Core.Path.{subst}
use everyfile.Prelude.{
  ℕ, ◌≡◌, ◌≢◌, refl, sym, ◌∙◌, ap, ◌⊎◌, inl, inr, Bool, true, false, Option, none, some, List, [],
  ◌∷◌, ◌++◌, ◌==◌, arith, Bool-cases,
}
use everyfile.Queue.{Pointer, pointer, Entry, Queue, cas, write, set_next}
use everyfile.Queue.Chain.{has, has_ne, has-snoc, Chain, Chain-frame, Chain-linked, not_has_of_none}
use everyfile.Queue.Shared.{new_entry}
use everyfile.Queue.Shared.Alone.{write_same}
use everyfile.Queue.Shared.Take.{
  TakePc, begun, got_head, got_ends, got_link, compared, tail_copied, got_value, head_copied,
  unlinked, freed, answered, faulted,
}
use everyfile.Queue.Shared.Sound.{IsSound, IsNext, IsFirst, Gets}

pub some-injective : {B : Type 0} (a b : B) → some a ≡ some b → a ≡ b
some-injective a b h = cc

-- An exchange that succeeds had found the old pointer; one that fails writes what it has copied.
pub cas_won :
    (weak : Bool) (atom old new : Pointer)
    → (cas weak atom old new).0 ≡ true
    → (atom.ptr ≡ old.ptr) × ((cas weak atom old new).1 ≡ new)
cas_won weak atom old new won = ground arith

pub cas_lost :
    (weak : Bool) (atom old new : Pointer)
    → (cas weak atom old new).0 ≡ false
    → (cas weak atom old new).1 ≡ atom
cas_lost weak atom old new lost = ground arith

module _ {A : Type 0} where
  -- What stands at an address behind a write.
  pub written :
      (h : ℕ → Option (Entry A)) (p : ℕ) (x : Entry A) (a : ℕ) (e : Entry A)
      → write h p (some x) a ≡ some e
      → ((a ≡ p) × (x ≡ e)) ⊎ (((a == p) ≡ false) × (h a ≡ some e))
  written h p x a e at = elim (Bool-cases (a == p)) [
    | inl same ↦ inl (ground (arith, same), some-injective x e (rw same at at))
    | inr other ↦ inr (other, rw other at at)
  ]

  pub free_ne :
      (h : ℕ → Option (Entry A)) (a b : ℕ) (e : Entry A)
      → h a ≡ none
      → h b ≡ some e
      → (a == b) ≡ false
  free_ne h a b e free at = elim (Bool-cases (a == b)) [
    | inl same ↦
        let here : a ≡ b = ground (arith, same) in
        absurd (some≢none e (sym at ∙ (ap h (sym here) ∙ free)))
    | inr other ↦ other
  ]
    where
      some≢none : (e : Entry A) → ¬ (some e ≡ none)
      some≢none e g = cc

  absurd_has : {P : Type 0} (a : ℕ) (xs : List (ℕ × A)) → has a xs ≡ true → has a xs ≡ false → P
  absurd_has a xs h g = cc

  pub IsSound-tail :
      (q : Queue A) (t : Pointer) (ahead cells : List (ℕ × A))
      → has t.ptr ahead ≡ false
      → IsSound q ahead cells
      → IsSound (record q { tail = t }) ahead cells
  IsSound-tail q t ahead cells in_t s = record {
    last = s.last;
    chain = s.chain;
    ends = s.ends;
    links = s.links;
    cells_in = s.cells_in;
    head_in = s.head_in;
    tail_in = in_t;
    null_in = s.null_in;
    null_free = s.null_free;
  }

  pub IsSound-size :
      (q : Queue A) (n : ℕ) (ahead cells : List (ℕ × A))
      → IsSound q ahead cells
      → IsSound (record q { size = n }) ahead cells
  IsSound-size q n ahead cells s = record {
    last = s.last;
    chain = s.chain;
    ends = s.ends;
    links = s.links;
    cells_in = s.cells_in;
    head_in = s.head_in;
    tail_in = s.tail_in;
    null_in = s.null_in;
    null_free = s.null_free;
  }

  IsNext-snoc :
      (cells : List (ℕ × A)) (job : ℕ × A) (a : ℕ) → IsNext cells a → IsNext (cells ++ job ∷ []) a
  IsNext-snoc [] job a h = inl h
  IsNext-snoc (cell ∷ cells) job a h = h

  IsFirst-snoc :
      (cells : List (ℕ × A)) (job : ℕ × A) (a : ℕ) (w : A)
      → IsFirst cells a w
      → IsFirst (cells ++ job ∷ []) a w
  IsFirst-snoc [] job a w h = absurd h
  IsFirst-snoc (cell ∷ cells) job a w h = h

  module _ (node : ℕ) (v : A) (rest : List (ℕ × A)) (at : Pointer) (cells : List (ℕ × A)) where
    later : (a : ℕ) → has a ((node, v) ∷ rest) ≡ false → has a rest ≡ false
    later a h = ground arith

    -- The thread that takes does not notice the new entry.
    pub Gets-link :
        (g : TakePc A)
        → Gets at ((node, v) ∷ rest) cells g
        → Gets at rest (cells ++ (node, v) ∷ []) g
    Gets-link begun h = tt
    Gets-link (got_head head) h = h
    Gets-link (got_ends head tail) h = h
    Gets-link (got_link head tail next) h =
        (h.0, later next.ptr h.1, IsNext-snoc cells (node, v) next.ptr h.2)
    Gets-link (compared head tail next) h =
        (h.0, later next.ptr h.1, IsNext-snoc cells (node, v) next.ptr h.2)
    Gets-link (tail_copied tail next atom) h = (later next.ptr h.0, later atom.ptr h.1)
    Gets-link (got_value head next value) h = (h.0, IsFirst-snoc cells (node, v) next.ptr value h.1)
    Gets-link (head_copied head next value atom) h =
        (h.0, IsFirst-snoc cells (node, v) next.ptr value h.1, h.2)
    Gets-link (unlinked head value) h =
        (later head.ptr h.0, h.1, ground (arith, has-snoc head.ptr cells node v, h.0, h.2))
    Gets-link (freed value) h = tt
    Gets-link (answered o) h = tt
    Gets-link (faulted o) h = tt

  module _ (node : ℕ) (v : A) (rest : List (ℕ × A)) (q : Queue A) (cells : List (ℕ × A)) where
    pub IsSound-allocate :
        q.heap node ≡ none
        → node ≢ 0
        → IsSound q ((node, v) ∷ rest) cells
        → IsSound
            (record q { heap = write q.heap node (some (new_entry v)) })
            ((node, v) ∷ rest)
            cells
    IsSound-allocate free ne s =
        let (not_head, not_cells) =
          not_has_of_none q.heap node q.head.ptr cells s.last s.chain free in
        record {
          last = s.last;
          chain =
              Chain-frame q.heap (write q.heap node (some (new_entry v))) q.head.ptr cells s.last
                s.chain (ground arith) (λ a i. ground (arith, has_ne a node cells i not_cells));
          ends = λ a e at zero. elim (written q.heap node (new_entry v) a e at) [
            | inl (same, is) ↦ inr (ground (arith, same))
            | inr (other, old) ↦ s.ends a e old zero
          ];
          links = λ a e at. elim (written q.heap node (new_entry v) a e at) [
            | inl (same, is) ↦ ap (λ e. has e.next.ptr ((node, v) ∷ rest)) (sym is) ∙ s.null_in
            | inr (other, old) ↦ s.links a e old
          ];
          cells_in = s.cells_in;
          head_in = s.head_in;
          tail_in = s.tail_in;
          null_in = s.null_in;
          null_free = ground (arith, s.null_free);
        }

    -- The entry behind the last one.
    pub IsSound-link :
        (e : Entry A) (n : ℕ) (tail : ℕ)
        → q.heap tail ≡ some e
        → e.next.ptr ≡ 0
        → has tail ((node, v) ∷ rest) ≡ false
        → q.heap node ≡ some (new_entry v)
        → node ≢ 0
        → has node rest ≡ false
        → IsSound q ((node, v) ∷ rest) cells
        → IsSound (set_next q tail e (pointer node n)) rest (cells ++ (node, v) ∷ [])
    IsSound-link e n tail at zero in_tail made ne once s =
        let is_last : tail ≡ s.last = elim (s.ends tail e at zero) [
          | inl here ↦ here
          | inr there ↦ absurd_has tail ((node, v) ∷ rest) there in_tail
        ] in
        let not_cell : has node cells ≡ false = elim (Bool-cases (has node cells)) [
          | inl there ↦ absurd (ground (arith, s.cells_in node there))
          | inr apart ↦ apart
        ] in
        let longer =
          Chain-linked q.heap q.head.ptr cells s.last node v (new_entry v) e (pointer node n)
            s.chain (ap q.heap (sym is_last) ∙ at) ne (ground (arith, s.head_in)) not_cell refl refl
            refl in
        record {
          last = node;
          chain =
              subst
                (λ h.
                  Chain (write h tail (some (record e { next = pointer node n }))) q.head.ptr
                    (cells ++ (node, v) ∷ []) node)
                (write_same q.heap node (new_entry v) made) (rw (sym is_last) at longer);
          ends = λ a f there nil. elim (written q.heap tail _ a f there) [
            | inl (same, is) ↦ absurd (ne (ap (λ f. f.next.ptr) is ∙ nil))
            | inr (other, old) ↦ elim (s.ends a f old nil) [
              | inl here ↦ absurd (ground (arith, here, is_last))
              | inr ahead ↦ elim (Bool-cases (a == node)) [
                | inl same ↦ inl (ground (arith, same))
                | inr apart ↦ inr (ground (arith, ahead))
              ]
            ]
          ];
          links = λ a f there. elim (written q.heap tail _ a f there) [
            | inl (same, is) ↦ ap (λ f. has f.next.ptr rest) (sym is) ∙ once
            | inr (other, old) ↦ ground (arith, s.links a f old)
          ];
          cells_in = λ a i. elim (Bool-cases (has a cells)) [
            | inl old ↦ ground (arith, s.cells_in a old)
            | inr new ↦ ground (arith, has-snoc a cells node v, once)
          ];
          head_in = ground (arith, s.head_in);
          tail_in = ground (arith, s.tail_in);
          null_in = ground (arith, s.null_in);
          null_free = ground (arith, free_ne q.heap 0 tail e s.null_free at, s.null_free);
        }

  pub has-cas :
      (weak : Bool) (atom old new : Pointer) (xs : List (ℕ × A))
      → has atom.ptr xs ≡ false
      → has new.ptr xs ≡ false
      → has (cas weak atom old new).1.ptr xs ≡ false
  has-cas weak atom old new xs h g = elim (Bool-cases (cas weak atom old new).0) [
    | inl won ↦ rw (cas_won weak atom old new won).1 g
    | inr lost ↦ rw (cas_lost weak atom old new lost) h
  ]
