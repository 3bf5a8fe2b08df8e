-- ===== src/Kernel/MsgLock.antt =====
-- kernelmod/vfs_kprobe.c: the spin lock `sl_msg` of `send_func` and of `rcv_msg` when they run at the
-- same time on two processors. A `spin_unlock` clears the flag, whichever thread has set it and also if
-- none has, as the spin locks of x86 do.
pub mod Exclusion
use everyfile.Prelude.{ℕ, zero, suc, ◌≡◌, ◌≢◌, Bool, true, false}
use everyfile.Kernel.State.{inc32}

-- `send_func` at the head of its loop, before the test of `msg_ready`, behind the test where there
-- is a request, in `schedule_timeout`, and behind its last `spin_unlock` of `sl_msg`.
pub data Sender : Type 0 where
  at_top : Sender
  testing : Sender
  taken : Sender
  dozing : Sender
  serving : Sender

-- `rcv_msg` outside the lock, before `msg_ready++`, and behind it.
pub data Callback : Type 0 where
  outside : Callback
  counting : Callback
  counted : Callback

pub record State : Type 0 where
  pub sender : Sender
  pub callback : Callback
  pub sl_msg : Bool
  pub msg_ready : ℕ

pub data Step (s : State) : State → Type 0 where
  lock :
      s.sender ≡ at_top → s.sl_msg ≡ false → Step s (record s { sender = testing; sl_msg = true })
  take : s.sender ≡ testing → s.msg_ready ≢ 0 → Step s (record s { sender = taken; msg_ready = 0 })
  unlock : s.sender ≡ taken → Step s (record s { sender = serving; sl_msg = false })
  -- `schedule_timeout` returns, and the lock is released again.
  rouse : s.sender ≡ dozing → Step s (record s { sender = serving; sl_msg = false })
  -- The rest of the round.
  serve : s.sender ≡ serving → Step s (record s { sender = at_top })
  call :
      s.callback ≡ outside
      → s.sl_msg ≡ false
      → Step s (record s { callback = counting; sl_msg = true })
  count :
      s.callback ≡ counting
      → Step s (record s { callback = counted; msg_ready = inc32 s.msg_ready })
  leave : s.callback ≡ counted → Step s (record s { callback = outside; sl_msg = false })

-- Without a request the lock is released before the sleep.
pub data Doze (s : State) : State → Type 0 where
  doze :
      s.sender ≡ testing → s.msg_ready ≡ 0 → Doze s (record s { sender = dozing; sl_msg = false })

-- Steps, with the number of rounds without a request.
pub data Steps (s : State) : ℕ → State → Type 0 where
  done : Steps s 0 s
  more : {n : ℕ} {t u : State} → Steps s n t → Step t u → Steps s n u
  idle : {n : ℕ} {t u : State} → Steps s n t → Doze t u → Steps s (suc n) u
