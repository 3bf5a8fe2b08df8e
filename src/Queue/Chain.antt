-- ===== src/Queue/Chain.antt =====
-- What a queue on the heap stands for: the entries behind its head, in order.
use everyfile.Prelude.{
  ℕ, ◌≡◌, ◌≢◌, refl, sym, ◌∙◌, ap, ◌⊎◌, inl, inr, Bool, true, false, ◌||◌, Option, none, some, List,
  [], ◌∷◌, ◌++◌, arith, length, ◌==◌, Bool-cases, ==_iff,
}
use everyfile.Queue.{Pointer, Entry, Queue, write}

module _ {A : Type 0} where
  abbrev pub has : ℕ → List (ℕ × A) → Bool
  has a [] = false
  has a ((b, v) ∷ xs) = (a == b) || has a xs

  -- The address `p` holds an entry whose next pointer leads to `b`.
  abbrev pub Leads : (ℕ → Option (Entry A)) → ℕ → ℕ → Type 0
  Leads h p b = (e : Entry A) × (h p ≡ some e) × (e.next.ptr ≡ b)

  abbrev pub Stores : (ℕ → Option (Entry A)) → ℕ → A → Type 0
  Stores h p v = (e : Entry A) × (h p ≡ some e) × (e.value ≡ v)

  -- What is free in `h`, but for the address `n`, is free in `g`.
  abbrev pub SparesBut : ℕ → (ℕ → Option (Entry A)) → (ℕ → Option (Entry A)) → Type 0
  SparesBut n h g = (a : ℕ) → h a ≡ none → (a == n) ≡ false → g a ≡ none

  abbrev pub Spares : (ℕ → Option (Entry A)) → (ℕ → Option (Entry A)) → Type 0
  Spares h g = (a : ℕ) → h a ≡ none → g a ≡ none

  -- From the entry at `p` the pointers lead through the entries `xs`, all different, to NULL; the
  -- last entry is at `l`.
  abbrev pub Chain : (ℕ → Option (Entry A)) → ℕ → List (ℕ × A) → ℕ → Type 0
  Chain h p [] l = (p ≢ 0) × Leads h p 0 × (l ≡ p)
  Chain h p ((b, v) ∷ xs) l =
      (p ≢ 0) × Leads h p b × (has p ((b, v) ∷ xs) ≡ false) × Stores h b v × Chain h b xs l

  -- The tail is the last entry, or the one before it.
  abbrev pub IsTail : ℕ → List (ℕ × A) → ℕ → Type 0
  IsTail p [] t = t ≡ p
  IsTail p ((b, v) ∷ []) t = (t ≡ p) ⊎ (t ≡ b)
  IsTail p ((b, v) ∷ c ∷ xs) t = IsTail b (c ∷ xs) t

  pub record IsQueue (q : Queue A) (cells : List (ℕ × A)) : Type 0 where
    pub last : ℕ
    pub chain : Chain q.heap q.head.ptr cells last
    pub tail : IsTail q.head.ptr cells q.tail.ptr
    pub counted : q.size ≡ length cells

  -- The last entry.
  pub last_entry :
      (h : ℕ → Option (Entry A)) (p : ℕ) (xs : List (ℕ × A)) (l : ℕ)
      → Chain h p xs l
      → (l ≢ 0) × Leads h l 0
  last_entry h p [] l (ne, leads, e) = rw e (ne, leads)
  last_entry h p ((b, v) ∷ xs) l c = last_entry h b xs l c.4

  -- A chain survives any change that spares its own addresses.
  pub Chain-frame :
      (h g : ℕ → Option (Entry A)) (p : ℕ) (xs : List (ℕ × A)) (l : ℕ)
      → Chain h p xs l
      → g p ≡ h p
      → ((a : ℕ) → has a xs ≡ true → g a ≡ h a)
      → Chain g p xs l
  Chain-frame h g p [] l (ne, (e, at, to), last) same others = (ne, (e, same ∙ at, to), last)
  Chain-frame h g p ((b, v) ∷ xs) l (ne, (e, at, to), new, (f, at', val), c) same others =
      let here : g b ≡ h b = others b (ground arith) in
      (
        ne,
        (e, same ∙ at, to),
        new,
        (f, here ∙ at', val),
        Chain-frame h g b xs l c here (λ a i. others a (ground arith)),
      )

  -- Nothing of a chain stands at a free address.
  pub not_has_of_none :
      (h : ℕ → Option (Entry A)) (a p : ℕ) (xs : List (ℕ × A)) (l : ℕ)
      → Chain h p xs l
      → h a ≡ none
      → ((a == p) ≡ false) × (has a xs ≡ false)
  not_has_of_none h a p [] l (ne, (e, at, to), last) free = (ground arith, refl)
  not_has_of_none h a p ((b, v) ∷ xs) l (ne, (e, at, to), new, s, c) free =
      let (not_b, not_xs) = not_has_of_none h a b xs l c free in
      (ground arith, ground (arith, not_b, not_xs))

  -- Where the tail points: at the last entry, or at one that leads to it.
  pub tail_entry :
      (h : ℕ → Option (Entry A)) (p : ℕ) (xs : List (ℕ × A)) (l t : ℕ)
      → Chain h p xs l
      → IsTail p xs t
      → (t ≡ l) ⊎ Leads h t l
  tail_entry h p [] l t (ne, leads, e) i = inl (i ∙ sym e)
  tail_entry h p ((b, v) ∷ []) l t (ne, leads, new, s, (_, _, e)) (inl i) = inr (rw (i, e) leads)
  tail_entry h p ((b, v) ∷ []) l t (ne, leads, new, s, (_, _, e)) (inr i) = inl (i ∙ sym e)
  tail_entry h p ((b, v) ∷ x ∷ xs) l t c i = tail_entry h b (x ∷ xs) l t c.4 i

  -- The last entry may always be the tail.
  pub IsTail-last :
      (h : ℕ → Option (Entry A)) (p : ℕ) (xs : List (ℕ × A)) (l : ℕ)
      → Chain h p xs l
      → IsTail p xs l
  IsTail-last h p [] l c = c.2
  IsTail-last h p ((b, v) ∷ []) l c = inr c.4.2
  IsTail-last h p ((b, v) ∷ x ∷ xs) l c = IsTail-last h b (x ∷ xs) l c.4

  -- After an entry is added behind the last one, that one or the new one may be the tail.
  pub IsTail-append :
      (h : ℕ → Option (Entry A)) (p : ℕ) (xs : List (ℕ × A)) (l n t : ℕ) (v : A)
      → Chain h p xs l
      → (t ≡ l) ⊎ (t ≡ n)
      → IsTail p (xs ++ (n, v) ∷ []) t
  IsTail-append h p [] l n t v c i = elim i [ inl e ↦ inl (e ∙ c.2) | inr e ↦ inr e ]
  IsTail-append h p ((b, w) ∷ []) l n t v c i = elim i [ inl e ↦ inl (e ∙ c.4.2) | inr e ↦ inr e ]
  IsTail-append h p ((b, w) ∷ x ∷ xs) l n t v c i = IsTail-append h b (x ∷ xs) l n t v c.4 i

  not_both : (a b : ℕ) (xs : List (ℕ × A)) → has a xs ≡ true → has b xs ≡ false → ¬ (b ≡ a)
  not_both a b xs h g e = true≢false (sym h ∙ (ap (λ t. has t xs) (sym e) ∙ g))
    where
      true≢false : ¬ (true ≡ false)
      true≢false e = cc

  pub has_ne : (a b : ℕ) (xs : List (ℕ × A)) → has a xs ≡ true → has b xs ≡ false → (b == a) ≡ false
  has_ne a b xs h g = elim (Bool-cases (b == a)) [
    | inl same ↦ absurd (not_both a b xs h g ((==_iff b a).0 same))
    | inr other ↦ other
  ]

  pub has-snoc :
      (a : ℕ) (xs : List (ℕ × A)) (n : ℕ) (v : A)
      → has a (xs ++ (n, v) ∷ []) ≡ (has a xs || (a == n))
  has-snoc a [] n v = ground arith
  has-snoc a ((b, w) ∷ xs) n v = ground (arith, has-snoc a xs n v)

  has_last :
      (h : ℕ → Option (Entry A)) (p b : ℕ) (v : A) (xs : List (ℕ × A)) (l : ℕ)
      → Chain h p ((b, v) ∷ xs) l
      → has l ((b, v) ∷ xs) ≡ true
  has_last h p b v [] l c = ground (arith, c.4.2)
  has_last h p b v ((d, w) ∷ xs) l c = ground (arith, has_last h b d w xs l c.4)

  -- The heap with a new entry at `n` behind the entry `e` at `l`.
  abbrev pub linked :
      (ℕ → Option (Entry A)) → ℕ → Entry A → ℕ → Entry A → Pointer → ℕ → Option (Entry A)
  linked h n new l e next = write (write h n (some new)) l (some (record e { next = next }))

  Stores-linked :
      (h : ℕ → Option (Entry A)) (n : ℕ) (new : Entry A) (l : ℕ) (e : Entry A) (next : Pointer)
      (b : ℕ) (v : A)
      → h l ≡ some e
      → (n == b) ≡ false
      → Stores h b v
      → Stores (linked h n new l e next) b v
  Stores-linked h n new l e next b v at apart (f, at', val) = elim (Bool-cases (b == l)) [
    | inl last ↦ (record e { next = next }, ground arith, ground arith)
    | inr other ↦ (f, ground arith, val)
  ]

  Leads-linked :
      (h : ℕ → Option (Entry A)) (n : ℕ) (new : Entry A) (l : ℕ) (e : Entry A) (next : Pointer)
      (p b : ℕ)
      → (n == p) ≡ false
      → (p == l) ≡ false
      → Leads h p b
      → Leads (linked h n new l e next) p b
  Leads-linked h n new l e next p b apart other (f, at, to) = (f, ground arith, to)

  -- The chain grows by the new entry at its end.
  pub Chain-linked :
      (h : ℕ → Option (Entry A)) (p : ℕ) (xs : List (ℕ × A)) (l n : ℕ) (v : A) (new e : Entry A)
      (next : Pointer)
      → Chain h p xs l
      → h l ≡ some e
      → n ≢ 0
      → (n == p) ≡ false
      → has n xs ≡ false
      → new.value ≡ v
      → new.next.ptr ≡ 0
      → next.ptr ≡ n
      → Chain (linked h n new l e next) p (xs ++ (n, v) ∷ []) n
  Chain-linked h p [] l n v new e next (ne, leads, eq) at ne' not_p not_xs val zero_next to = (
    ne,
    (record e { next = next }, ground arith, to),
    ground arith,
    (new, ground (arith, last_entry h p [] l (ne, leads, eq)), val),
    (ne', (new, ground arith, zero_next), refl),
  )
  Chain-linked h p ((b, w) ∷ xs) l n v new e next c at ne' not_p not_xs val zero_next to =
      let last_in = has_last h p b w xs l c in
      let not_b : (n == b) ≡ false = ground arith in
      (
        c.0,
        Leads-linked h n new l e next p b not_p (has_ne l p ((b, w) ∷ xs) last_in c.2) c.1,
        ground (arith, has-snoc p xs n v, c.2),
        Stores-linked h n new l e next b w at not_b c.3,
        Chain-linked h b xs l n v new e next c.4 at ne' not_b (ground arith) val zero_next to,
      )

  pub linked-SparesBut :
      (h : ℕ → Option (Entry A)) (n : ℕ) (new : Entry A) (l : ℕ) (e : Entry A) (next : Pointer)
      → h l ≡ some e
      → SparesBut n h (linked h n new l e next)
  linked-SparesBut h n new l e next at a free other =
      let not_l : (a == l) ≡ false = ground arith in ground arith

  pub freed-Spares : (h : ℕ → Option (Entry A)) (p : ℕ) → Spares h (write h p none)
  freed-Spares h p a free = ground arith
