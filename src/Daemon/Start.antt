-- ===== src/Daemon/Start.antt =====
-- src/daemon/efd.cpp up to the message loop: `start_daemon`, `ef_init_lockfile_to_unique`, `main` and
-- the socket of `ef_kernel_conn`. The answers of the system calls are arguments.
pub mod Detach
pub mod LockFile
use everyfile.Prelude.{
  ℕ, ◌+◌, Bool, true, false, Option, none, some, List, [], ◌∷◌, ◌++◌, Bytes, codes, take, drop,
  length, ltb, ◌==◌, if◌then◌else◌, decimal,
}

-- What `fork` gives: an error, 0, or the number of the child.
pub data Fork : Type 0 where
  failed : Fork
  in_child : Fork
  in_parent : Fork

-- The files behind the descriptors, by name.
abbrev pub Files : Type 0
Files = ℕ → Option Bytes

abbrev pub set : Files → ℕ → Option Bytes → Files
set files fd file n = if n == fd then file else files n

pub record Calls : Type 0 where
  pub fork_1 : Fork
  pub setsid : Bool
  pub fork_2 : Fork
  pub opened : Option ℕ
  pub dup_in : Bool
  pub dup_out : Bool
  pub dup_err : Bool
  pub closed : Bool

pub data Started : Type 0 where
  returned : Bool → Files → Started
  exited : ℕ → Started

abbrev after_fork : Fork → Files → Started → Started
after_fork failed files child = returned false files
after_fork in_child files child = child
after_fork in_parent files child = exited 0

abbrev pub dev_null : Bytes
dev_null = codes "/dev/null"

-- `dup2(fd, n)`
abbrev dup2 : Bool → ℕ → ℕ → Files → (Files → Started) → Started
dup2 done fd n files next = if done then next (set files n (files fd)) else returned false files

-- The last lines: `STDERR_FILENO` is 2.
abbrev close_fd : Bool → ℕ → Files → Started
close_fd closed fd files =
    if ltb 2 fd
    then (if closed then returned true (set files fd none) else returned false files)
    else returned true files

abbrev redirect : Calls → Files → Option ℕ → Started
redirect calls files none = returned false files
redirect calls files (some fd) = dup2 calls.dup_in fd 0 (set files fd (some dev_null)) λ f0.
    dup2 calls.dup_out fd 1 f0 λ f1. dup2 calls.dup_err fd 2 f1 λ f2. close_fd calls.closed fd f2

unfoldable pub start_daemon : Calls → Files → Started
start_daemon calls files = after_fork calls.fork_1 files (
    if calls.setsid
    then after_fork calls.fork_2 files (redirect calls files calls.opened)
    else returned false files)

-- What the lock says: `busy` is the error EACCES or EAGAIN.
pub data Lock : Type 0 where
  granted : Lock
  busy : Lock
  broken : Lock

-- `written` is the number of bytes that `write` takes, 0 on an error.
pub record LockCalls : Type 0 where
  pub lock_open : Bool
  pub lock : Lock
  pub truncated : Bool
  pub written : ℕ

-- The result, and what stands in the lock file.
pub data Locked : Type 0 where
  locked : ℕ → Bytes → Locked
  gone : ℕ → Locked
  overrun : Locked

-- The text of the process number has to fit in 16 bytes with its terminator.
abbrev write_pid : LockCalls → (pid : ℕ) → Bytes → Locked
write_pid calls pid contents =
    let text = decimal pid ++ 0 ∷ [] in
    let old : Bytes = if calls.truncated then [] else contents in
    if ltb 16 (length text)
    then overrun
    else locked 0 (take calls.written text ++ drop (length (take calls.written text)) old)

abbrev pub on_lock : LockCalls → (pid : ℕ) → Bytes → Lock → Locked
on_lock calls pid contents granted = write_pid calls pid contents
on_lock calls pid contents busy = locked 1 contents
on_lock calls pid contents broken = gone 1

unfoldable pub ef_init_lockfile_to_unique : LockCalls → (pid : ℕ) → Bytes → Locked
ef_init_lockfile_to_unique calls pid contents =
    if calls.lock_open then on_lock calls pid contents calls.lock else gone 1

-- The result of `sendto` is an `int` as its bit pattern.
pub record SocketCalls : Type 0 where
  pub socket : Bool
  pub bound : Bool
  pub sent : ℕ

-- The process is in the message loop, has left with a status, or has written past the end of `buf`.
pub data Outcome : Type 0 where
  serving : Files → Bytes → Outcome
  left_with : ℕ → Outcome
  overrun_buf : Outcome

-- The first part of `ef_kernel_conn`; the status -1 is seen as 255.
abbrev connect : SocketCalls → Files → Bytes → Outcome
connect calls files contents =
    if calls.socket
    then (if calls.bound
        then (if calls.sent == 0 then left_with 255 else serving files contents)
        else left_with 255)
    else left_with 255

abbrev pub after_lock : SocketCalls → Files → Locked → Outcome
after_lock calls files (locked code contents) =
    if code == 0 then connect calls files contents else left_with 1
after_lock calls files (gone status) = left_with status
after_lock calls files overrun = overrun_buf

abbrev pub after_start : LockCalls → SocketCalls → (pid : ℕ) → Bytes → Started → Outcome
after_start lock socket pid contents (returned ok files) =
    after_lock socket files (ef_init_lockfile_to_unique lock pid contents)
after_start lock socket pid contents (exited status) = left_with status

unfoldable pub main : Calls → LockCalls → SocketCalls → (pid : ℕ) → Files → Bytes → Outcome
unfolding start_daemon ef_init_lockfile_to_unique
main calls lock socket pid files contents =
    after_start lock socket pid contents (start_daemon calls files)
