-- ===== src/Kernel/LockOrder/Together.antt =====
-- Any number of reporting threads: which states are reached, and when no thread can go on.
use everyfile.Prelude.{◌≡◌, ◌≤◌, ◌↔◌, ◌⊎◌, inl, inr, refl, sym, ◌∙◌, false, arith}
use mathlib.Core.Path.{subst}
use everyfile.Kernel.Buffer.{max_msg_buf_len}
use everyfile.Kernel.LockOrder.{
  resting, Adder, out, in_buf, overflown, spilling, spilled, State, Step, lock_file, notice,
  lock_buf, unlock_buf, unlock_file, enter, overflow, spill, spill_end, leave_full, leave, Steps,
  done, more,
}
use everyfile.Kernel.LockOrder.Sound.{IsSound, there, Step-IsSound, Steps-IsSound}
use everyfile.Kernel.LockOrder.Crossed.{IsCrossed, crossed_stuck, CanMove-any, full-crosses}
use everyfile.Kernel.LockOrder.Crowd.{
  Crowd, view, crowd, CrowdStep, one, CrowdSteps, no_step, then_step, Alone, IsOrderly,
  Change-Moved, Change-any,
}

-- Only one thread has the lock of the buffer.
out_of_free : (s : State) (a : Adder) → IsSound s → s.adder ≡ a → s.sl_buf ≡ false → a ≡ out
out_of_free s out is e free = refl
out_of_free s in_buf is e free = let (_, b, _, _) = there s is in_buf e in ground (arith, b, free)
out_of_free s overflown is e free =
    let (_, b, _, _) = there s is overflown e in ground (arith, b, free)
out_of_free s spilling is e free =
    let (_, b, _, _) = there s is spilling e in ground (arith, b, free)
out_of_free s spilled is e free = let (_, b, _, _) = there s is spilled e in ground (arith, b, free)

-- What a step with a thread that is out means for the thread inside.
abbrev Aside : Adder → State → State → Type 0
Aside a s t = ((t.adder ≡ out) × Step (record s { adder = a }) (record t { adder = a })) ⊎ (a ≡ out)

Step-Aside :
    (a : Adder) (s t : State)
    → s.adder ≡ out
    → IsSound (record s { adder = a })
    → Step s t
    → Aside a s t
Step-Aside a s _ o is (lock_file e free) = inl (o, lock_file e free)
Step-Aside a s _ o is (notice e on) = inl (o, notice e on)
Step-Aside a s _ o is (lock_buf e off free) = inl (o, lock_buf e off free)
Step-Aside a s _ o is (unlock_buf e) = inl (o, unlock_buf e)
Step-Aside a s _ o is (unlock_file e) = inl (o, unlock_file e)
Step-Aside a s _ o is (enter e free) = inr (out_of_free (record s { adder = a }) a is refl free)
Step-Aside a s _ o is (overflow e full) = cc
Step-Aside a s _ o is (spill e free) = cc
Step-Aside a s _ o is (spill_end e) = cc
Step-Aside a s _ o is (leave_full e) = cc
Step-Aside a s _ o is (leave e few) = cc

module _ (s : Crowd) (o : IsOrderly s) where
  CrowdStep-Inside :
      {t : Crowd}
      → CrowdStep s t
      → (b : Adder) × Step (view o.inside s) (view b t) × Alone b t.adders
  CrowdStep-Inside (one {a = c} {t = t} ch step) = elim (Change-Moved ch o.alone) [
    | inl (e, alone) ↦ (t.adder, subst (λ a. Step (view a s) t) e step, alone)
    | inr (c_out, stays, enters) ↦ elim (Step-Aside o.inside (view c s) t c_out o.sound step) [
      | inl (b_out, aside) ↦ (o.inside, aside, stays b_out)
      | inr a_out ↦ (t.adder, subst (λ a. Step (view a s) t) (c_out ∙ sym a_out) step, enters a_out)
    ]
  ]

  CrowdStep-IsOrderly : {t : Crowd} → CrowdStep s t → IsOrderly t
  CrowdStep-IsOrderly {t} step =
      let (b, inside, alone) = CrowdStep-Inside step in
      record {
        inside = b;
        alone = alone;
        sound = Step-IsSound (view o.inside s) (view b t) o.sound inside;
      }

  crossed_stops : IsCrossed (view o.inside s) → (t : Crowd) → ¬ (CrowdStep s t)
  crossed_stops crossed t step =
      let (b, inside, alone) = CrowdStep-Inside step in
      crossed_stuck (view o.inside s) (view b t) o.sound crossed inside

  -- In an orderly state of the sending thread and any number of reporting threads no step is left
  -- exactly if the sending thread has sl_file and waits for sl_buf, while the thread inside has
  -- sl_buf and waits for sl_file.
  pub crowd_stuck_iff : ((t : Crowd) → ¬ (CrowdStep s t)) ↔ IsCrossed (view o.inside s)
  crowd_stuck_iff = (crossed_of_stuck, crossed_stops)
    where
      crossed_of_stuck : ((t : Crowd) → ¬ (CrowdStep s t)) → IsCrossed (view o.inside s)
      crossed_of_stuck stuck = elim (CanMove-any (view o.inside s) o.sound s.sender refl) [
        | inl (t, step) ↦
            let (ys, ch, alone) = Change-any t.adder o.alone in
            absurd (stuck (crowd t ys) (one ch step))
        | inr c ↦ c
      ]

-- Steps of the thread inside are steps of the crowd.
Steps-crowd :
    (s : Crowd) (a : Adder) {t : State}
    → Alone a s.adders
    → Steps (view a s) t
    → (ys : _) × CrowdSteps s (crowd t ys) × Alone t.adder ys
Steps-crowd s a alone done = (s.adders, no_step, alone)
Steps-crowd s a alone (more {t} {u} before step) =
    let (ys, run, inside) = Steps-crowd s a alone before in
    let (zs, ch, next) = Change-any u.adder inside in (zs, then_step run (one ch step), next)

CrowdSteps-IsOrderly : {s t : Crowd} → IsOrderly s → CrowdSteps s t → IsOrderly t
CrowdSteps-IsOrderly o no_step = o
CrowdSteps-IsOrderly o (then_step {t} before step) =
    CrowdStep-IsOrderly t (CrowdSteps-IsOrderly o before) step

-- From an orderly state in which the sending thread and all reporting threads are outside their
-- locks, the buffer is full and file_on is reset, a state is reached in which the sending thread
-- and a reporting one wait for each other, and no thread has a step left.
pub crowd_crosses :
    (s : Crowd) (o : IsOrderly s)
    → s.sender ≡ resting
    → o.inside ≡ out
    → s.file_on ≡ 0
    → max_msg_buf_len ≤ s.msg_buf_size
    → (t : Crowd) × CrowdSteps s t
      × (o' : IsOrderly t) × IsCrossed (view o'.inside t)
      × ((u : Crowd) → ¬ (CrowdStep t u))
crowd_crosses s o e f off full =
    let (t, run, crossed, stuck) = full-crosses (view o.inside s) o.sound e f off full in
    let (ys, crowd_run, alone) = Steps-crowd s o.inside o.alone run in
    let here : IsOrderly (crowd t ys) = record {
      inside = t.adder;
      alone = alone;
      sound = Steps-IsSound (view o.inside s) t o.sound run;
    } in
    (crowd t ys, crowd_run, here, crossed, crossed_stops (crowd t ys) here crossed)
