-- ===== src/Kernel/MsgLock/Exclusion.antt =====
-- When `sl_msg` keeps the two threads apart.
use everyfile.Prelude.{ℕ, zero, suc, ◌≡◌, ◌≢◌, ◌<◌, ◌↔◌, refl, Bool, true, false, ◌&&◌, ◌||◌, arith}
use everyfile.Kernel.MsgLock.{
  Sender, at_top, testing, taken, dozing, serving, Callback, outside, counting, counted, State,
  Step, lock, take, unlock, rouse, serve, call, count, leave, doze, Steps, done, more, idle,
}

abbrev pub sends : Sender → Bool
sends at_top = false
sends testing = true
sends taken = true
sends dozing = false
sends serving = false

abbrev pub counts : Callback → Bool
counts outside = false
counts counting = true
counts counted = true

-- Both threads are between their lock and their unlock.
abbrev pub IsShared : State → Type 0
IsShared s = (sends s.sender ≡ true) × (counts s.callback ≡ true)

-- The flag says whether a thread is inside, at most one is, and the sending thread does not sleep.
abbrev Sound : Bool → Sender → Callback → Type 0
Sound sl_msg p c = (sl_msg ≡ (sends p || counts c)) × ((sends p && counts c) ≡ false) × (p ≢ dozing)

abbrev IsSound : State → Type 0
IsSound s = Sound s.sl_msg s.sender s.callback

-- The two threads outside, and no request.
abbrev pub start : State
start = record { sender = at_top; callback = outside; sl_msg = false; msg_ready = 0 }

IsSound-Step : (s t : State) → IsSound s → Step s t → IsSound t
IsSound-Step s _ is (lock h g) = ground arith
IsSound-Step s _ is (take h g) = ground arith
IsSound-Step s _ is (unlock h) = ground arith
IsSound-Step s _ is (rouse h) = ground arith
IsSound-Step s _ is (serve h) = ground arith
IsSound-Step s _ is (call h g) = ground arith
IsSound-Step s _ is (count h) = ground arith
IsSound-Step s _ is (leave h) = ground arith

IsSound-Steps : (n : ℕ) (t : State) → Steps start n t → n ≡ 0 → IsSound t
IsSound-Steps _ _ done none = (refl, refl, λ h. cc)
IsSound-Steps n t (more steps step) none = IsSound-Step _ t (IsSound-Steps n _ steps none) step
IsSound-Steps _ t (idle steps step) none = absurd (omega arith)

-- Rounds without a request, one after the other.
idle_rounds : (n : ℕ) → Steps start n start
idle_rounds zero = done
idle_rounds (suc n) =
    more (more (idle (more (idle_rounds n) (lock refl refl)) (doze refl refl)) (rouse refl))
      (serve refl)

abbrev both_in : State
both_in = record { sender = testing; callback = counting; sl_msg = true; msg_ready = 0 }

crossing : (n : ℕ) → Steps start (suc n) both_in
crossing n =
    more
      (more
        (more
          (more (idle (more (idle_rounds n) (lock refl refl)) (doze refl refl)) (call refl refl))
          (rouse refl))
        (serve refl))
      (lock refl refl)

-- From the state in which the sending thread and the callback are outside sl_msg and no request
-- waits, there is a run with n rounds without a request at whose end both are between their lock
-- and their unlock of sl_msg, exactly if n is not 0.
pub both_inside_iff : (n : ℕ) → ((t : State) × Steps start n t × IsShared t) ↔ (0 < n)
both_inside_iff zero = (
  (λ (t, steps, (sends_in, counts_in)).
      let (flag, one, awake) = IsSound-Steps 0 t steps refl in ground arith),
  λ h. absurd (omega arith),
)
both_inside_iff (suc n) = ((λ h. omega arith), (λ h. (both_in, crossing n, (refl, refl))))
