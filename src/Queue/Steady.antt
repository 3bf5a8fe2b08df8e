-- ===== src/Queue/Steady.antt =====
-- How often the compare-and-swap of the queue may fail.
use everyfile.Prelude.{
  ℕ, ◌≤◌, ◌<◌, ◌≡◌, sym, ◌∙◌, inl, inr, Bool, true, false, arith, leb, ==_refl, Bool-cases,
}
use everyfile.Queue.{Pointer, same_pointer}

-- From round `k` on the compare-and-swap does not fail without a reason.
abbrev pub IsSteady : (ℕ → Bool) → ℕ → Type 0
IsSteady weak k = (j : ℕ) → k ≤ j → weak j ≡ false

true≢false : ¬ (true ≡ false)
true≢false h = cc

pub same_pointer_refl : (p : Pointer) → same_pointer p p ≡ true
same_pointer_refl p = ground (arith, ==_refl p.ptr, ==_refl p.counter)

module _ (weak : ℕ → Bool) (k : ℕ) (steady : IsSteady weak k) where
  pub early : (i : ℕ) → weak i ≡ true → i < k
  early i h = elim (Bool-cases (leb k i)) [
    | inl late ↦ absurd (true≢false (sym h ∙ steady i (ground arith)))
    | inr before ↦ ground arith
  ]
