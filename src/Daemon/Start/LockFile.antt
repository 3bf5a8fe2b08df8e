-- ===== src/Daemon/Start/LockFile.antt =====
-- The lock file, and what stands between the start of the daemon and its message loop.
use everyfile.Prelude.{
  ℕ, zero, suc, ◌≡◌, ◌≢◌, ◌<◌, refl, ap, Bool, true, false, [], ◌∷◌, ◌++◌, append-nil,
  length-append, take_of_le, length-decimal, ten_to, Bytes, arith, drop, length, ltb, ◌==◌,
  if◌then◌else◌, decimal,
}
use everyfile.Daemon.Start.{
  Files, Calls, Started, returned, exited, start_daemon, Lock, granted, busy, broken, LockCalls,
  locked, gone, ef_init_lockfile_to_unique, SocketCalls, serving, left_with, overrun_buf, main,
  on_lock, after_lock, after_start,
}

abbrev pub pid_text : ℕ → Bytes
pid_text pid = decimal pid ++ 0 ∷ []

-- Every call for the lock file succeeds, and the number is written as a whole.
pub record Writes (calls : LockCalls) (pid : ℕ) : Type 0 where
  pub lock_open : calls.lock_open ≡ true
  pub lock : calls.lock ≡ granted
  pub truncated : calls.truncated ≡ true
  pub written : calls.written ≡ length (pid_text pid)

drop-nil : (n : ℕ) → drop {A = ℕ} n [] ≡ []
drop-nil zero = refl
drop-nil (suc n) = refl

-- A process number below 10 ^ 7 fits in the buffer; if it is written as a whole, it is all that
-- the lock file holds afterwards, with a terminator.
pub init_lockfile-pid :
    (calls : LockCalls) (pid : ℕ) (contents : Bytes)
    → Writes calls pid
    → pid < 10000000
    → ef_init_lockfile_to_unique calls pid contents ≡ locked 0 (pid_text pid)
unfolding ef_init_lockfile_to_unique
init_lockfile-pid calls pid contents w small =
    let fits : ltb 16 (length (pid_text pid)) ≡ false = ground (
      arith,
      length-append (decimal pid) (0 ∷ []),
      length-decimal pid 6 (unfold ten_to in omega (arith, small)),
    ) in
    rw
      (
        w.lock_open,
        w.lock,
        w.truncated,
        fits,
        w.written,
        take_of_le (length (pid_text pid)) (pid_text pid) (omega arith),
        drop-nil (length (pid_text pid)),
      )
      (ap (locked 0) (append-nil (pid_text pid)))

not_serving :
    (status : ℕ) (files : Files) (text : Bytes) → ¬ (left_with status ≡ serving files text)
not_serving status files text h = cc

not_serving_overrun : (files : Files) (text : Bytes) → ¬ (overrun_buf ≡ serving files text)
not_serving_overrun files text h = cc

module _ (calls : LockCalls) (socket : SocketCalls) (pid : ℕ) (contents : Bytes) (files : Files)
    (text : Bytes) where
  granted_of_lock :
      (before : Files) (lock : Lock)
      → after_lock socket before (on_lock calls pid contents lock) ≡ serving files text
      → lock ≡ granted
  granted_of_lock before granted e = refl
  granted_of_lock before busy e = absurd (not_serving 1 files text e)
  granted_of_lock before broken e = absurd (not_serving 1 files text e)

  granted_of_open :
      (before : Files) (lock : Lock) (opened : Bool)
      → after_lock socket before (if opened then on_lock calls pid contents lock else gone 1)
        ≡ serving files text
      → lock ≡ granted
  granted_of_open before lock true e = granted_of_lock before lock e
  granted_of_open before lock false e = absurd (not_serving 1 files text e)

  granted_of_start :
      (started : Started)
      → after_start calls socket pid contents started ≡ serving files text
      → calls.lock ≡ granted
  unfolding ef_init_lockfile_to_unique
  granted_of_start (returned ok before) e = granted_of_open before calls.lock calls.lock_open e
  granted_of_start (exited status) e = absurd (not_serving status files text e)

-- Only a process that has the lock gets to the message loop.
pub main-granted :
    (calls : Calls) (lock : LockCalls) (socket : SocketCalls) (pid : ℕ) (before files : Files)
    (contents text : Bytes)
    → main calls lock socket pid before contents ≡ serving files text
    → lock.lock ≡ granted
unfolding main
main-granted calls lock socket pid before files contents text e =
    granted_of_start lock socket pid contents files text (start_daemon calls before) e

-- The socket is there, and `sendto` does not give 0.
pub record Connects (calls : SocketCalls) : Type 0 where
  pub socket : calls.socket ≡ true
  pub bound : calls.bound ≡ true
  pub sent : calls.sent ≢ 0

-- Whatever start_daemon returns, true or false, a process with a number below 10 ^ 7 that gets the
-- lock, writes its number and has a socket goes on to the message loop, also if sendto gives the
-- -1 of an error.
pub main-serving :
    (calls : Calls) (lock : LockCalls) (socket : SocketCalls) (pid : ℕ) (before files : Files)
    (contents : Bytes) (ok : Bool)
    → start_daemon calls before ≡ returned ok files
    → Writes lock pid
    → Connects socket
    → pid < 10000000
    → main calls lock socket pid before contents ≡ serving files (pid_text pid)
unfolding main
main-serving calls lock socket pid before files contents ok e w c small =
    let some_sent : (socket.sent == 0) ≡ false = ground (arith, c.sent) in
    rw (e, init_lockfile-pid lock pid contents w small, c.socket, c.bound, some_sent)
