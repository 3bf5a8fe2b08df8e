-- ===== src/Db/Quote.antt =====
-- How the statements of src/ef_db.cpp read to SQLite: the name stands between double quotes as it is.
use everyfile.Prelude.{
  ℕ, ◌+◌, ◌≤◌, ◌<◌, ◌⊎◌, length-append, ◌≡◌, ◌≢◌, ◌↔◌, sym, ◌∙◌, ap, inl, inr, Option, none, some,
  [], ◌∷◌, ◌++◌, Bytes, IsText, All, arith, length, ◌==◌, Bool-cases,
}
use mathlib.Core.Option
use mathlib.Core.Option.{some-injective}
use everyfile.Db.{query_size, delete_sql, qry_exact}
use everyfile.Db.Text.{
  delete_front, delete_text, delete_sql_lem, exact_front, exact_text, qry_exact_lem,
}

abbrev pub prepend : ℕ → Bytes × Bytes → Bytes × Bytes
prepend c (s, rest) = (c ∷ s, rest)

-- How SQLite is documented to read the rest of a quoted text behind its opening quote: two quotes stand
-- for one, and a single one ends the text.
pub record IsLiteral (literal : Bytes → Option (Bytes × Bytes)) : Type 0 where
  pub unclosed : literal [] ≡ none
  pub plain : (c : ℕ) (s : Bytes) → c ≢ b'"' → literal (c ∷ s) ≡ Option.map (prepend c) (literal s)
  pub doubled : (s : Bytes) → literal (b'"' ∷ b'"' ∷ s) ≡ Option.map (prepend b'"') (literal s)
  pub last : literal (b'"' ∷ []) ≡ some ([], [])
  pub closed : (c : ℕ) (s : Bytes) → c ≢ b'"' → literal (b'"' ∷ c ∷ s) ≡ some ([], c ∷ s)

abbrev pub HasNoQuote : Bytes → Type 0
HasNoQuote = All (λ c. c ≢ b'"')

module _ (literal : Bytes → Option (Bytes × Bytes)) (is : IsLiteral literal) where
  -- A name without quotes is read as it is.
  literal-plain : (s : Bytes) → HasNoQuote s → literal (s ++ b'"' ∷ []) ≡ some (s, [])
  literal-plain [] h = is.last
  literal-plain (c ∷ s) (h, hs) =
      is.plain c (s ++ b'"' ∷ []) h ∙ ap (Option.map (prepend c)) (literal-plain s hs)

  -- What `Option.map` gives comes from what it is given.
  map-some :
      (c : ℕ) (o : Option (Bytes × Bytes)) (t r : Bytes)
      → Option.map (prepend c) o ≡ some (t, r)
      → (u : Bytes) × (o ≡ some (u, r)) × (c ∷ u ≡ t)
  map-some c none t r h = cc
  map-some c (some (u, rest)) t r h =
      let both = some-injective _ _ h in
      (u, ap (λ x. some (u, x)) (ap (λ p. p.1) both), ap (λ p. p.0) both)

  -- What a byte may be: one of the text, or a quote, the first of two or the last.
  abbrev Reads : ℕ → Bytes → Bytes → Bytes → Type 0
  Reads c s t r = (u : Bytes) × (literal s ≡ some (u, r)) × (c ∷ u ≡ t)

  abbrev Behind : Bytes → Bytes → Bytes → Type 0
  Behind [] t r = (t ≡ []) × (r ≡ [])
  Behind (d ∷ s) t r = ((d ≡ b'"') × Reads b'"' s t r) ⊎ ((t ≡ []) × (r ≡ d ∷ s))

  Behind-quote : (s t r : Bytes) → literal (b'"' ∷ s) ≡ some (t, r) → Behind s t r
  Behind-quote [] t r h =
      let both = some-injective _ _ (sym is.last ∙ h) in
      (sym (ap (λ p. p.0) both), sym (ap (λ p. p.1) both))
  Behind-quote (d ∷ s) t r h = elim (Bool-cases (d == b'"')) [
    | inl quote ↦
        let e : d ≡ b'"' = ground (arith, quote) in
        inl (e, map-some b'"' (literal s) t r (sym (is.doubled s) ∙ (rw e at h)))
    | inr other ↦
        let both = some-injective _ _ (sym (is.closed d s (ground (arith, other))) ∙ h) in
        inr (sym (ap (λ p. p.0) both), sym (ap (λ p. p.1) both))
  ]

  Reads-cases :
      (c : ℕ) (s t r : Bytes)
      → literal (c ∷ s) ≡ some (t, r)
      → ((c ≢ b'"') × Reads c s t r) ⊎ ((c ≡ b'"') × Behind s t r)
  Reads-cases c s t r h = elim (Bool-cases (c == b'"')) [
    | inl quote ↦
        let e : c ≡ b'"' = ground (arith, quote) in inr (e, Behind-quote s t r (rw e at h))
    | inr other ↦
        let ne : c ≢ b'"' = ground (arith, other) in
        inl (ne, map-some c (literal s) t r (sym (is.plain c s ne) ∙ h))
  ]

  -- What is read, and what is left, is shorter than the text.
  literal-shorter : (s t r : Bytes) → literal s ≡ some (t, r) → length t + length r < length s
  literal-shorter [] t r h = cc (is.unclosed, h)
  literal-shorter (c ∷ []) t r h = elim (Reads-cases c [] t r h) [
    | inl (ne, (u, e, at)) ↦ cc (is.unclosed, e)
    | inr (quote, (e, f)) ↦ omega (arith, ap length e, ap length f)
  ]
  literal-shorter (c ∷ d ∷ s) t r h = elim (Reads-cases c (d ∷ s) t r h) [
    | inl (ne, (u, e, at)) ↦ omega (arith, literal-shorter (d ∷ s) u r e, ap length at)
    | inr (quote, inl (q, (u, e, at))) ↦ omega (arith, literal-shorter s u r e, ap length at)
    | inr (quote, inr (e, f)) ↦ omega (arith, ap length e, ap length f)
  ]

  cons-tail : (c d : ℕ) (s t : Bytes) → c ∷ s ≡ d ∷ t → t ≡ s
  cons-tail c d s t h = cc

  -- Only a name without quotes is read as it is.
  HasNoQuote-literal : (s : Bytes) → literal (s ++ b'"' ∷ []) ≡ some (s, []) → HasNoQuote s
  HasNoQuote-literal [] h = tt
  HasNoQuote-literal (c ∷ []) h = elim (Reads-cases c (b'"' ∷ []) (c ∷ []) [] h) [
    | inl (ne, found) ↦ (ne, tt)
    | inr (quote, inl (q, (u, e, at))) ↦ cc (is.unclosed, e)
    | inr (quote, inr (e, f)) ↦ cc
  ]
  HasNoQuote-literal (c ∷ d ∷ s) h = elim (Reads-cases c (d ∷ s ++ b'"' ∷ []) (c ∷ d ∷ s) [] h) [
    | inl (ne, (u, e, at)) ↦ (
      ne,
      HasNoQuote-literal (d ∷ s) (e ∙ ap (λ x. some (x, [])) (cons-tail c c (d ∷ s) u (sym at))),
    )
    | inr (quote, inl (q, (u, e, at))) ↦ absurd (
        omega (
          arith,
          literal-shorter (s ++ b'"' ∷ []) u [] e,
          length-append s (b'"' ∷ []),
          ap length at,
        ))
    | inr (quote, inr (e, f)) ↦ cc
  ]

  -- If SQLite reads quoted texts as documented, then for a name without terminator that leaves
  -- room in the query the statements of rm and of the exact search end in the name and a quote,
  -- and what SQLite reads behind their opening quote is the name, with nothing left, exactly if
  -- the name has no double quote in it.
  pub statements-name_iff :
      (name : Bytes)
      → IsText name
      → length (exact_text name) ≤ query_size
      → (delete_sql name ≡ some (delete_front ++ (name ++ b'"' ∷ [])))
        × (qry_exact name ≡ some (exact_front ++ (name ++ b'"' ∷ [])))
        × ((literal (name ++ b'"' ∷ []) ≡ some (name, [])) ↔ HasNoQuote name)
  statements-name_iff name clean short =
      let quoted = name ++ b'"' ∷ [] in
      let shorter : length (delete_text name) ≤ query_size =
        omega (arith, length-append delete_front quoted, length-append exact_front quoted) in
      (
        delete_sql_lem name clean shorter,
        qry_exact_lem name clean short,
        (HasNoQuote-literal name, literal-plain name),
      )
