-- ===== src/Kernel/LockOrder/Sound.antt =====
-- The flags of the locks say which thread is between a lock and its unlock.
use everyfile.Prelude.{◌≡◌, refl, sym, Bool, true, false, ◌&&◌, ◌||◌, arith}
use everyfile.Kernel.LockOrder.{
  Sender, resting, in_file, in_both, closing, Adder, out, in_buf, overflown, spilling, spilled,
  State, Step, lock_file, notice, lock_buf, unlock_buf, unlock_file, enter, overflow, spill,
  spill_end, leave_full, leave, Steps, done, more,
}

abbrev pub sends_file : Sender → Bool
sends_file resting = false
sends_file in_file = true
sends_file in_both = true
sends_file closing = true

abbrev pub sends_buf : Sender → Bool
sends_buf resting = false
sends_buf in_file = false
sends_buf in_both = true
sends_buf closing = false

abbrev pub adds_file : Adder → Bool
adds_file out = false
adds_file in_buf = false
adds_file overflown = false
adds_file spilling = true
adds_file spilled = false

abbrev pub adds_buf : Adder → Bool
adds_buf out = false
adds_buf in_buf = true
adds_buf overflown = true
adds_buf spilling = true
adds_buf spilled = true

-- Each lock is held by one thread, and its flag says whether one holds it.
pub record IsSound (s : State) : Type 0 where
  pub file_flag : s.sl_file ≡ (sends_file s.sender || adds_file s.adder)
  pub buf_flag : s.sl_buf ≡ (sends_buf s.sender || adds_buf s.adder)
  pub file_one : (sends_file s.sender && adds_file s.adder) ≡ false
  pub buf_one : (sends_buf s.sender && adds_buf s.adder) ≡ false

-- The same, of the four parts.
abbrev Flags : Bool → Bool → Sender → Adder → Type 0
Flags file buf s a =
    (file ≡ (sends_file s || adds_file a))
    × (buf ≡ (sends_buf s || adds_buf a))
    × ((sends_file s && adds_file a) ≡ false)
    × ((sends_buf s && adds_buf a) ≡ false)

sound : (s : State) → Flags s.sl_file s.sl_buf s.sender s.adder → IsSound s
sound s (a, b, c, d) = record { file_flag = a; buf_flag = b; file_one = c; buf_one = d }

module _ (s : State) (is : IsSound s) where
  pub flags : (p : Sender) (a : Adder) → s.sender ≡ p → s.adder ≡ a → Flags s.sl_file s.sl_buf p a
  flags p a e f = rw (sym e, sym f) (is.file_flag, is.buf_flag, is.file_one, is.buf_one)

  pub here : (p : Sender) → s.sender ≡ p → Flags s.sl_file s.sl_buf p s.adder
  here p e = flags p s.adder e refl

  pub there : (a : Adder) → s.adder ≡ a → Flags s.sl_file s.sl_buf s.sender a
  there a e = flags s.sender a refl e

pub Step-IsSound : (s t : State) → IsSound s → Step s t → IsSound t
Step-IsSound s t is (lock_file e free) =
    let (a, b, c, d) = here s is resting e in sound t (ground (arith, a, b, c, d, free))
Step-IsSound s t is (notice e on) =
    let (a, b, c, d) = here s is in_file e in sound t (ground (arith, a, b, c, d))
Step-IsSound s t is (lock_buf e off free) =
    let (a, b, c, d) = here s is in_file e in sound t (ground (arith, a, b, c, d, free))
Step-IsSound s t is (unlock_buf e) =
    let (a, b, c, d) = here s is in_both e in sound t (ground (arith, a, b, c, d))
Step-IsSound s t is (unlock_file e) =
    let (a, b, c, d) = here s is closing e in sound t (ground (arith, a, b, c, d))
Step-IsSound s t is (enter e free) =
    let (a, b, c, d) = there s is out e in sound t (ground (arith, a, b, c, d, free))
Step-IsSound s t is (overflow e full) =
    let (a, b, c, d) = there s is in_buf e in sound t (ground (arith, a, b, c, d))
Step-IsSound s t is (spill e free) =
    let (a, b, c, d) = there s is overflown e in sound t (ground (arith, a, b, c, d, free))
Step-IsSound s t is (spill_end e) =
    let (a, b, c, d) = there s is spilling e in sound t (ground (arith, a, b, c, d))
Step-IsSound s t is (leave_full e) =
    let (a, b, c, d) = there s is spilled e in sound t (ground (arith, a, b, c, d))
Step-IsSound s t is (leave e few) =
    let (a, b, c, d) = there s is in_buf e in sound t (ground (arith, a, b, c, d))

-- From a sound state every run keeps to it: no two threads hold one lock.
pub Steps-IsSound : (s t : State) → IsSound s → Steps s t → IsSound t
Steps-IsSound s _ is done = is
Steps-IsSound s u is (more {t} before step) = Step-IsSound t u (Steps-IsSound s t is before) step
