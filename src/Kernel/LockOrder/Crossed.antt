-- ===== src/Kernel/LockOrder/Crossed.antt =====
-- When the two threads wait for each other.
use everyfile.Prelude.{
  suc, ◌-◌, ◌≡◌, ◌≤◌, ◌⊎◌, inl, inr, refl, sym, ◌∙◌, true, false, ◌==◌, leb, Bool-cases, arith,
}
use everyfile.Kernel.Buffer.{max_msg_buf_len}
use everyfile.Kernel.LockOrder.{
  Sender, resting, in_file, in_both, closing, Adder, out, in_buf, overflown, spilling, spilled,
  State, Step, lock_file, notice, lock_buf, unlock_buf, unlock_file, enter, overflow, spill,
  spill_end, leave_full, leave, Steps, done, more,
}
use everyfile.Kernel.LockOrder.Sound.{IsSound, flags, Steps-IsSound}

-- The sender has `sl_file` and waits for `sl_buf`; the other thread has `sl_buf`, has made
-- room in the buffer, and waits for `sl_file`.
pub record IsCrossed (s : State) : Type 0 where
  pub waits_buf : s.sender ≡ in_file
  pub off : s.file_on ≡ 0
  pub waits_file : s.adder ≡ overflown

true≢false : ¬ (true ≡ false)
true≢false h = cc

pub crossed_stuck : (s t : State) → IsSound s → IsCrossed s → ¬ (Step s t)
crossed_stuck s _ is c (lock_file e free) = absurd (resting≢ (sym e ∙ c.waits_buf))
  where
    resting≢ : ¬ (resting ≡ in_file)
    resting≢ h = cc
crossed_stuck s _ is c (notice e on) = absurd (on c.off)
crossed_stuck s _ is c (lock_buf e off free) =
    absurd (true≢false (sym (flags s is in_file overflown c.waits_buf c.waits_file).1 ∙ free))
crossed_stuck s _ is c (unlock_buf e) = absurd (in_both≢ (sym e ∙ c.waits_buf))
  where
    in_both≢ : ¬ (in_both ≡ in_file)
    in_both≢ h = cc
crossed_stuck s _ is c (unlock_file e) = absurd (closing≢ (sym e ∙ c.waits_buf))
  where
    closing≢ : ¬ (closing ≡ in_file)
    closing≢ h = cc
crossed_stuck s _ is c (enter e free) = absurd (out≢ (sym e ∙ c.waits_file))
  where
    out≢ : ¬ (out ≡ overflown)
    out≢ h = cc
crossed_stuck s _ is c (spill e free) =
    absurd (true≢false (sym (flags s is in_file overflown c.waits_buf c.waits_file).0 ∙ free))
crossed_stuck s _ is c (spill_end e) = absurd (spilling≢ (sym e ∙ c.waits_file))
  where
    spilling≢ : ¬ (spilling ≡ overflown)
    spilling≢ h = cc
crossed_stuck s _ is c (leave_full e) = absurd (spilled≢ (sym e ∙ c.waits_file))
  where
    spilled≢ : ¬ (spilled ≡ overflown)
    spilled≢ h = cc
crossed_stuck s _ is c (overflow e full) = absurd (in_buf≢ (sym e ∙ c.waits_file))
  where
    in_buf≢ : ¬ (in_buf ≡ overflown)
    in_buf≢ h = cc
crossed_stuck s _ is c (leave e few) = absurd (in_buf≢ (sym e ∙ c.waits_file))
  where
    in_buf≢ : ¬ (in_buf ≡ overflown)
    in_buf≢ h = cc

abbrev pub CanMove : State → Type 0
CanMove s = ((t : State) × Step s t) ⊎ IsCrossed s

module _ (s : State) (is : IsSound s) where
  CanMove-file : (a : Adder) → s.sender ≡ in_file → s.adder ≡ a → s.file_on ≡ 0 → CanMove s
  CanMove-file out e f off = inl (_, lock_buf e off (flags s is in_file out e f).1)
  CanMove-file in_buf e f off = elim (Bool-cases (leb s.msg_buf_size max_msg_buf_len)) [
    | inl few ↦ inl (_, leave f (ground (arith, few)))
    | inr full ↦ inl (_, overflow f (ground (arith, full)))
  ]
  CanMove-file overflown e f off = inr (record { waits_buf = e; off = off; waits_file = f })
  CanMove-file spilling e f off = inl (_, spill_end f)
  CanMove-file spilled e f off = inl (_, leave_full f)

  CanMove-rest : (a : Adder) → s.sender ≡ resting → s.adder ≡ a → CanMove s
  CanMove-rest out e f = inl (_, lock_file e (flags s is resting out e f).0)
  CanMove-rest in_buf e f = inl (_, lock_file e (flags s is resting in_buf e f).0)
  CanMove-rest overflown e f = inl (_, lock_file e (flags s is resting overflown e f).0)
  CanMove-rest spilling e f = inl (_, spill_end f)
  CanMove-rest spilled e f = inl (_, leave_full f)

  pub CanMove-any : (p : Sender) → s.sender ≡ p → CanMove s
  CanMove-any resting e = CanMove-rest s.adder e refl
  CanMove-any in_file e = elim (Bool-cases (s.file_on == 0)) [
    | inl off ↦ CanMove-file s.adder e refl (ground (arith, off))
    | inr on ↦ inl (_, notice e (ground (arith, on)))
  ]
  CanMove-any in_both e = inl (_, unlock_buf e)
  CanMove-any closing e = inl (_, unlock_file e)

-- With a full buffer and file_on reset, both threads outside their locks, three steps lead to a
-- state in which they wait for each other.
pub full-crosses :
    (s : State)
    → IsSound s
    → s.sender ≡ resting
    → s.adder ≡ out
    → s.file_on ≡ 0
    → max_msg_buf_len ≤ s.msg_buf_size
    → (t : State) × Steps s t × IsCrossed t × ((u : State) → ¬ (Step t u))
full-crosses s is e f off full =
    let t1 = record s { sender = in_file; sl_file = true } in
    let t2 = record t1 { adder = in_buf; sl_buf = true; msg_buf_size = suc s.msg_buf_size } in
    let first : Step s t1 = lock_file e (flags s is resting out e f).0 in
    let second : Step t1 t2 = enter f (flags s is resting out e f).1 in
    let t3 = record t2 { adder = overflown; msg_buf_size = t2.msg_buf_size - 1 } in
    let third : Step t2 t3 = overflow refl (omega (arith, full)) in
    let crossed : IsCrossed t3 = record { waits_buf = refl; off = off; waits_file = refl } in
    let run : Steps s t3 = more (more (more done first) second) third in
    (t3, run, crossed, λ u step. crossed_stuck t3 u (Steps-IsSound s t3 is run) crossed step)
