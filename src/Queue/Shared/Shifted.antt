-- ===== src/Queue/Shared/Shifted.antt =====
-- A new head and a deleted entry keep the queue sound.
use everyfile.Prelude.{
  ℕ, ◌≡◌, sym, ◌∙◌, ap, inl, inr, false, Option, none, some, List, [], ◌∷◌, ◌==◌, arith, Bool-cases,
}
use everyfile.Queue.{pointer, Entry, Queue, write}
use everyfile.Queue.Chain.{has, has_ne, Chain, Chain-frame}
use everyfile.Queue.Shared.{
  Pc, called, looping, got_tail, got_next, checked, link_copied, help_copied, linked, swing_copied,
  swung, returned, faulted,
}
use everyfile.Queue.Shared.Linked.{some-injective, free_ne}
use everyfile.Queue.Shared.Sound.{unsent, IsSound, IsMade, Puts, IsNext, IsFirst}

module _ {A : Type 0} where
  -- The link of the head's entry.
  pub IsNext-link :
      (h : ℕ → Option (Entry A)) (p : ℕ) (cells : List (ℕ × A)) (l : ℕ) (e : Entry A)
      → Chain h p cells l
      → h p ≡ some e
      → IsNext cells e.next.ptr
  IsNext-link h p [] l e (ne, (f, at', to), eq) at =
      ap (λ f. f.next.ptr) (some-injective e f (sym at ∙ at')) ∙ to
  IsNext-link h p ((b, v) ∷ cells) l e c at =
      let (f, at', to) = c.1 in inr (ap (λ f. f.next.ptr) (some-injective e f (sym at ∙ at')) ∙ to)

  -- The value behind a link that is not NULL.
  pub IsFirst-value :
      (h : ℕ → Option (Entry A)) (p : ℕ) (cells : List (ℕ × A)) (l a : ℕ) (n : Entry A)
      → Chain h p cells l
      → h 0 ≡ none
      → IsNext cells a
      → h a ≡ some n
      → IsFirst cells a n.value
  IsFirst-value h p [] l a n c free is at = absurd (ground (arith, free_ne h 0 a n free at, is))
  IsFirst-value h p ((b, v) ∷ cells) l a n c free (inl zero) at =
      absurd (ground (arith, free_ne h 0 a n free at, zero))
  IsFirst-value h p ((b, v) ∷ cells) l a n c free (inr is) at =
      let (f, at', val) = c.3 in
      (is, ap (λ f. f.value) (some-injective n f (sym at ∙ (ap h is ∙ at'))) ∙ val)

  -- The head moves to the first entry.
  pub IsSound-shift :
      (q : Queue A) (ahead : List (ℕ × A)) (b : ℕ) (v : A) (cells : List (ℕ × A)) (m : ℕ)
      → IsSound q ahead ((b, v) ∷ cells)
      → IsSound (record q { head = pointer b m }) ahead cells
  IsSound-shift q ahead b v cells m s = record {
    last = s.last;
    chain = s.chain.4;
    ends = s.ends;
    links = s.links;
    cells_in = λ a i. s.cells_in a (ground arith);
    head_in = s.cells_in b (ground arith);
    tail_in = s.tail_in;
    null_in = s.null_in;
    null_free = s.null_free;
  }

  freed_at :
      (h : ℕ → Option (Entry A)) (p a : ℕ) (e : Entry A) → write h p none a ≡ some e → h a ≡ some e
  freed_at h p a e at = elim (Bool-cases (a == p)) [
    | inl same ↦ absurd (none≢some e (rw same at at))
    | inr other ↦ rw other at at
  ]
    where
      none≢some : (e : Entry A) → ¬ (none ≡ some e)
      none≢some e g = cc

  pub IsSound-free :
      (q : Queue A) (ahead cells : List (ℕ × A)) (p : ℕ)
      → (p == q.head.ptr) ≡ false
      → has p cells ≡ false
      → IsSound q ahead cells
      → IsSound (record q { heap = write q.heap p none }) ahead cells
  IsSound-free q ahead cells p not_head not_cell s = record {
    last = s.last;
    chain =
        Chain-frame q.heap (write q.heap p none) q.head.ptr cells s.last s.chain (ground arith)
          (λ a i. ground (arith, has_ne a p cells i not_cell));
    ends = λ a e at zero. s.ends a e (freed_at q.heap p a e at) zero;
    links = λ a e at. s.links a e (freed_at q.heap p a e at);
    cells_in = s.cells_in;
    head_in = s.head_in;
    tail_in = s.tail_in;
    null_in = s.null_in;
    null_free = ground (arith, s.null_free);
  }

  IsMade-free :
      (h : ℕ → Option (Entry A)) (jobs : List (ℕ × A)) (p : ℕ)
      → has p jobs ≡ false
      → IsMade h jobs
      → IsMade (write h p none) jobs
  IsMade-free h [] p apart made = tt
  IsMade-free h ((b, v) ∷ jobs) p apart made = ground arith

  pub Puts-free :
      (h : ℕ → Option (Entry A)) (jobs : List (ℕ × A)) (pc : Pc) (p : ℕ)
      → has p (unsent pc jobs) ≡ false
      → Puts h jobs pc
      → Puts (write h p none) jobs pc
  Puts-free h (job ∷ jobs) called p apart k = tt
  Puts-free h (job ∷ jobs) looping p apart k = IsMade-free h (job ∷ jobs) p apart k
  Puts-free h (job ∷ jobs) (got_tail tail) p apart k = (IsMade-free h (job ∷ jobs) p apart k.0, k.1)
  Puts-free h (job ∷ jobs) (got_next tail next) p apart k =
      (IsMade-free h (job ∷ jobs) p apart k.0, k.1, k.2)
  Puts-free h (job ∷ jobs) (checked tail next) p apart k =
      (IsMade-free h (job ∷ jobs) p apart k.0, k.1, k.2)
  Puts-free h (job ∷ jobs) (link_copied tail next atom) p apart k =
      (IsMade-free h (job ∷ jobs) p apart k.0, k.1, k.2, λ e at. k.3 e (freed_at h p tail.ptr e at))
  Puts-free h (job ∷ jobs) (help_copied tail next atom) p apart k =
      (IsMade-free h (job ∷ jobs) p apart k.0, k.1, k.2)
  Puts-free h (job ∷ jobs) (linked tail) p apart k = tt
  Puts-free h (job ∷ jobs) (swing_copied tail atom) p apart k = k
  Puts-free h (job ∷ jobs) swung p apart k = tt
  Puts-free h (job ∷ jobs) returned p apart k = tt
  Puts-free h (job ∷ jobs) faulted p apart k = tt
  Puts-free h [] called p apart k = tt
  Puts-free h [] looping p apart k = tt
  Puts-free h [] (got_tail tail) p apart k = (tt, k.1)
  Puts-free h [] (got_next tail next) p apart k = (tt, k.1, k.2)
  Puts-free h [] (checked tail next) p apart k = (tt, k.1, k.2)
  Puts-free h [] (link_copied tail next atom) p apart k =
      (tt, k.1, k.2, λ e at. k.3 e (freed_at h p tail.ptr e at))
  Puts-free h [] (help_copied tail next atom) p apart k = (tt, k.1, k.2)
  Puts-free h [] (linked tail) p apart k = tt
  Puts-free h [] (swing_copied tail atom) p apart k = tt
  Puts-free h [] swung p apart k = tt
  Puts-free h [] returned p apart k = tt
  Puts-free h [] faulted p apart k = tt
