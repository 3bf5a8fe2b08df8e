-- ===== src/Scan/Walk/Entries.antt =====
-- The loop of a walk over the names of a directory.
use everyfile.Prelude.{
  ◌≡◌, refl, sym, ◌∙◌, ◌⊎◌, inl, inr, true, false, Option, none, some, List, [], ◌∷◌, ◌++◌, Bytes,
  arith, Bool-cases,
}
use mathlib.Core.Path.{subst}
use everyfile.Scan.Info.{FileInfo}
use everyfile.Scan.Walk.{Code, Walk, is_dot, below, both, walk_entries}

-- Membership by recursion.
abbrev pub In : {A : Type 0} → A → List A → Type 0
In a [] = ⊥
In a (x ∷ xs) = (a ≡ x) ⊎ In a xs

module _ {A : Type 0} (a : A) where
  pub In-left : (xs ys : List A) → In a xs → In a (xs ++ ys)
  In-left [] ys h = absurd h
  In-left (x ∷ xs) ys (inl e) = inl e
  In-left (x ∷ xs) ys (inr h) = inr (In-left xs ys h)

  pub In-right : (xs ys : List A) → In a ys → In a (xs ++ ys)
  In-right [] ys h = h
  In-right (x ∷ xs) ys h = inr (In-right xs ys h)

  pub In-split : (xs ys : List A) → In a (xs ++ ys) → In a xs ⊎ In a ys
  In-split [] ys h = inr h
  In-split (x ∷ xs) ys (inl e) = inl (inl e)
  In-split (x ∷ xs) ys (inr h) = elim (In-split xs ys h) [
    | inl front ↦ inl (inr front)
    | inr back ↦ inr back
  ]

pub both-some :
    (r : Walk) (later : Option (List FileInfo)) (out : List FileInfo)
    → both r later ≡ some out
    → (front : List FileInfo) × (code : Code) × (back : List FileInfo) × (r ≡ some (front, code))
      × (later ≡ some back)
      × (out ≡ front ++ back)
both-some none later out h = cc
both-some (some (front, code)) none out h = cc
both-some (some (front, code)) (some back) out h = (front, code, back, refl, refl, ground arith)

-- An entry of `names` whose path satisfies `P`.
abbrev pub Entry : (Bytes → Type 0) → Bytes → List Bytes → Type 0
Entry P root names = (name : Bytes) × In name names × (is_dot name ≡ false) × P (below root name)

module _ (visit : Bytes → Walk) (root : Bytes) where
  pub walk_entries-nil : (out : List FileInfo) → walk_entries visit root [] ≡ some out → out ≡ []
  unfolding walk_entries
  walk_entries-nil out h = ground arith

  walk_entries-dot :
      (name : Bytes) (names : List Bytes)
      → is_dot name ≡ true
      → walk_entries visit root (name ∷ names) ≡ walk_entries visit root names
  unfolding walk_entries
  walk_entries-dot name names h = rw h

  walk_entries-plain :
      (name : Bytes) (names : List Bytes)
      → is_dot name ≡ false
      → walk_entries visit root (name ∷ names)
        ≡ both (visit (below root name)) (walk_entries visit root names)
  unfolding walk_entries
  walk_entries-plain name names h = rw h

  weaken-Entry :
      (P : Bytes → Type 0) (name : Bytes) (names : List Bytes)
      → Entry P root names
      → Entry P root (name ∷ names)
  weaken-Entry P name names (n, i, d, p) = (n, inr i, d, p)

  pub entries_sound :
      (info : FileInfo) (P : Bytes → Type 0)
      → ((p : Bytes) (o : List FileInfo) (c : Code) → visit p ≡ some (o, c) → In info o → P p)
      → (names : List Bytes) (out : List FileInfo) → walk_entries visit root names ≡ some out
      → In info out
      → Entry P root names
  entries_sound info P known [] out h i = absurd (subst (λ t. In info t) (walk_entries-nil out h) i)
  entries_sound info P known (name ∷ names) out h i = elim (Bool-cases (is_dot name)) [
    | inl dot ↦
        weaken-Entry P name names
          (entries_sound info P known names out (sym (walk_entries-dot name names dot) ∙ h) i)
    | inr plain ↦
        let (front, code, back, e, f, g) =
          both-some (visit (below root name)) (walk_entries visit root names) out
            (sym (walk_entries-plain name names plain) ∙ h) in
        elim (In-split info front back (subst (λ t. In info t) g i)) [
          | inl first ↦ (name, inl refl, plain, known _ front code e first)
          | inr later ↦ weaken-Entry P name names (entries_sound info P known names back f later)
        ]
  ]

  pub entries_complete :
      (info : FileInfo) (names : List Bytes) (out : List FileInfo) (name : Bytes)
      → walk_entries visit root names ≡ some out
      → In name names
      → is_dot name ≡ false
      → ((o : List FileInfo) (c : Code) → visit (below root name) ≡ some (o, c) → In info o)
      → In info out
  entries_complete info [] out name h i plain reached = absurd i
  entries_complete info (n ∷ names) out name h i plain reached = elim (Bool-cases (is_dot n)) [
    | inl dot ↦ elim i [
      | inl e ↦ absurd (ground (arith, subst (λ t. is_dot t ≡ false) e plain))
      | inr later ↦
          entries_complete info names out name (sym (walk_entries-dot n names dot) ∙ h) later plain
            reached
    ]
    | inr shown ↦
        let (front, code, back, e, f, g) =
          both-some (visit (below root n)) (walk_entries visit root names) out
            (sym (walk_entries-plain n names shown) ∙ h) in
        subst (λ t. In info t) (sym g)
          (elim i [
            | inl same ↦ In-left info front back (
                reached front code
                  (subst (λ t. visit (below root t) ≡ some (front, code)) (sym same) e))
            | inr later ↦
                In-right info front back
                  (entries_complete info names back name f later plain reached)
          ])
  ]
