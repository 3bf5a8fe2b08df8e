-- ===== src/Tests/StartRuns.antt =====
-- The start of src/daemon/efd.cpp at concrete answers of the system.
use everyfile.Prelude.{
  ℕ, ◌≡◌, ◌≢◌, ◌⊎◌, inl, inr, refl, ap, true, false, Option, some, none, [], ◌∷◌, arith, codes,
  length, ◌==◌, ==_iff, ==_refl, Bool-cases, if◌then◌else◌,
}
use mathlib.Core.Option.{some-injective}
use everyfile.Daemon.FileLock.{
  LockCommand, Flock, Fcntl, IsLawful, whole_file, write_unlock_whole_file, Attempt, run_attempts,
}
use everyfile.Daemon.FileLock.Unique.{IsOne, write_unlock-keeps, run_attempts-IsOne}
use everyfile.Daemon.Start.{
  in_child, Files, set, Calls, returned, start_daemon, Lock, granted, busy, LockCalls, SocketCalls,
  serving, main,
}
use everyfile.Daemon.Start.Detach.{Succeeds, IsDetached, start_daemon_lem}
use everyfile.Daemon.Start.LockFile.{pid_text, Writes, Connects, main-serving}

abbrev calls : Calls
calls = record {
  fork_1 = in_child;
  setsid = true;
  fork_2 = in_child;
  opened = some 3;
  dup_in = true;
  dup_out = true;
  dup_err = true;
  closed = true;
}

-- Three descriptors of a terminal.
abbrev terminal : Files
terminal =
    set (set (set (λ n. none) 0 (some (codes "/dev/tty"))) 1 (some (codes "/dev/tty"))) 2
      (some (codes "/dev/tty"))

calls-Succeeds : Succeeds calls 3
calls-Succeeds = record {
  first = refl;
  session = refl;
  second = refl;
  null = refl;
  input = refl;
  output = refl;
  errors = refl;
  close = λ h. refl;
}

start_daemon_lem_example :
    (after : Files) × (start_daemon calls terminal ≡ returned true after)
    × IsDetached terminal after
start_daemon_lem_example = start_daemon_lem calls terminal 3 calls-Succeeds refl

abbrev lock_calls : LockCalls
lock_calls = record {
  lock_open = true;
  lock = granted;
  truncated = true;
  written = length (pid_text 1234);
}

lock_calls-Writes : Writes lock_calls 1234
lock_calls-Writes = record { lock_open = refl; lock = refl; truncated = refl; written = refl }

-- `sendto` gives -1.
abbrev socket_calls : SocketCalls
socket_calls = record { socket = true; bound = true; sent = 4294967295 }

socket_calls-Connects : Connects socket_calls
socket_calls-Connects = record { socket = refl; bound = refl; sent = omega arith }

-- `setsid` fails.
abbrev half : Calls
half = record calls { setsid = false }

half_runs : start_daemon half terminal ≡ returned false terminal
unfolding start_daemon
half_runs = refl

main-serving_example :
    main half lock_calls socket_calls 1234 terminal [] ≡ serving terminal (pid_text 1234)
main-serving_example =
    main-serving half lock_calls socket_calls 1234 terminal terminal [] false half_runs
      lock_calls-Writes socket_calls-Connects (omega arith)

-- One lock, which is free or has an owner.
lock_call : (pid fd : ℕ) → LockCommand → Flock → Option ℕ → Lock × Option ℕ
lock_call pid fd cmd lock none = (granted, some pid)
lock_call pid fd cmd lock (some q) = if q == pid then (granted, some q) else (busy, some q)

lock_exit : ℕ → Option ℕ → Option ℕ
lock_exit pid none = none
lock_exit pid (some q) = if q == pid then none else some q

abbrev one_lock : Fcntl
one_lock = record { State = Option ℕ; fcntl = lock_call; exit = lock_exit; owner = λ s. s }

free_or_own :
    (pid fd : ℕ) (cmd : LockCommand) (s : Option ℕ)
    → (lock_call pid fd cmd whole_file s).0 ≡ granted
    → (s ≡ none) ⊎ (s ≡ some pid)
unfolding lock_call
free_or_own pid fd cmd none h = inl refl
free_or_own pid fd cmd (some q) h = elim (Bool-cases (q == pid)) [
  | inl same ↦ inr (ap (λ x. some x) ((==_iff q pid).0 same))
  | inr other ↦ cc (rw other at h)
]

owner_then :
    (pid fd : ℕ) (cmd : LockCommand) (s : Option ℕ)
    → (lock_call pid fd cmd whole_file s).0 ≡ granted
    → (lock_call pid fd cmd whole_file s).1 ≡ some pid
unfolding lock_call
owner_then pid fd cmd none h = refl
owner_then pid fd cmd (some q) h = ground arith

owner_still :
    (pid fd : ℕ) (cmd : LockCommand) (s : Option ℕ)
    → (lock_call pid fd cmd whole_file s).0 ≢ granted
    → (lock_call pid fd cmd whole_file s).1 ≡ s
unfolding lock_call
owner_still pid fd cmd none h = absurd (h refl)
owner_still pid fd cmd (some q) h = ground arith

exit_own : (pid : ℕ) (s : Option ℕ) → s ≡ some pid → lock_exit pid s ≡ none
unfolding lock_exit
exit_own pid none e = cc
exit_own pid (some q) e = rw (some-injective q pid e, ==_refl pid)

exit_other : (pid : ℕ) (s : Option ℕ) → s ≢ some pid → lock_exit pid s ≡ s
unfolding lock_exit
exit_other pid none h = refl
exit_other pid (some q) h = elim (Bool-cases (q == pid)) [
  | inl same ↦ absurd (h (ap (λ x. some x) ((==_iff q pid).0 same)))
  | inr other ↦ rw other
]

one_lock-IsLawful : IsLawful one_lock
one_lock-IsLawful = record {
  granted-free = free_or_own;
  granted-owner = owner_then;
  refused-owner = owner_still;
  exit-own = exit_own;
  exit-other = exit_other;
}

write_unlock-keeps_example : (write_unlock_whole_file one_lock 1234 3 (some 1234)).1 ≡ some 1234
write_unlock-keeps_example = write_unlock-keeps one_lock one_lock-IsLawful 1234 3 (some 1234) refl

abbrev start_of : ℕ → Attempt
start_of pid = record {
  calls = calls;
  lock_open = true;
  fd = 3;
  truncated = true;
  written = 5;
  socket = socket_calls;
  pid = pid;
  files = terminal;
  contents = [];
}

run_attempts-IsOne_example :
    let (servers, t) =
      run_attempts one_lock (start_of 1234 ∷ start_of 1235 ∷ start_of 1236 ∷ []) [] none in
    IsOne one_lock servers t
run_attempts-IsOne_example =
    run_attempts-IsOne one_lock one_lock-IsLawful
      (start_of 1234 ∷ start_of 1235 ∷ start_of 1236 ∷ []) none refl (omega arith)
