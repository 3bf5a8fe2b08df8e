-- ===== src/Daemon/FileLock.antt =====
-- src/daemon/lock_file.h, and the processes that ask for the lock of src/daemon/efd.cpp. `fcntl` is an
-- argument.
pub mod Unique
use everyfile.Prelude.{
  ℕ, ◌≡◌, ◌≢◌, ◌⊎◌, Bool, true, false, ◌&&◌, Option, none, some, List, [], ◌∷◌, Bytes,
  if◌then◌else◌,
}
use everyfile.Daemon.Start.{
  Files, Calls, Started, returned, exited, start_daemon, Lock, granted, LockCalls, SocketCalls,
  Outcome, serving, left_with, overrun_buf, main,
}

pub data LockType : Type 0 where
  f_rdlck f_wrlck f_unlck : LockType

pub data LockCommand : Type 0 where
  f_setlk f_setlkw : LockCommand

pub data Whence : Type 0 where
  seek_set seek_cur seek_end : Whence

-- `struct flock`
pub record Flock : Type 0 where
  pub l_type : LockType
  pub l_start : ℕ
  pub l_whence : Whence
  pub l_len : ℕ

-- The locks of the kernel on the lock file, and the process that has the write lock of it all.
pub record Fcntl : Type 1 where
  pub State : Type 0
  pub fcntl : (pid fd : ℕ) → LockCommand → Flock → State → Lock × State
  pub exit : (pid : ℕ) → State → State
  pub owner : State → Option ℕ

-- A write lock from the start of the file to its end, wherever that is.
abbrev pub whole_file : Flock
whole_file = record { l_type = f_wrlck; l_start = 0; l_whence = seek_set; l_len = 0 }

module _ (F : Fcntl) where
  -- What POSIX says of such locks: one is granted only where no other process has it, is kept where
  -- another is refused, and goes with its process.
  pub record IsLawful : Type 0 where
    pub granted-free :
        (pid fd : ℕ) (cmd : LockCommand) (s : F.State)
        → (F.fcntl pid fd cmd whole_file s).0 ≡ granted
        → (F.owner s ≡ none) ⊎ (F.owner s ≡ some pid)
    pub granted-owner :
        (pid fd : ℕ) (cmd : LockCommand) (s : F.State)
        → (F.fcntl pid fd cmd whole_file s).0 ≡ granted
        → F.owner (F.fcntl pid fd cmd whole_file s).1 ≡ some pid
    pub refused-owner :
        (pid fd : ℕ) (cmd : LockCommand) (s : F.State)
        → (F.fcntl pid fd cmd whole_file s).0 ≢ granted
        → F.owner (F.fcntl pid fd cmd whole_file s).1 ≡ F.owner s
    pub exit-own : (pid : ℕ) (s : F.State) → F.owner s ≡ some pid → F.owner (F.exit pid s) ≡ none
    pub exit-other :
        (pid : ℕ) (s : F.State) → F.owner s ≢ some pid → F.owner (F.exit pid s) ≡ F.owner s

  unfoldable pub lock_file :
      (pid fd : ℕ)
      → LockCommand
      → LockType
      → (offset : ℕ) → Whence
      → (len : ℕ) → F.State
      → Lock × F.State
  lock_file pid fd cmd type offset whence len =
      F.fcntl pid fd cmd
        (record { l_type = type; l_start = offset; l_whence = whence; l_len = len })

  unfoldable pub write_lock_whole_file : (pid fd : ℕ) → F.State → Lock × F.State
  unfolding lock_file
  write_lock_whole_file pid fd = lock_file pid fd f_setlk f_wrlck 0 seek_set 0

  unfoldable pub write_unlock_whole_file : (pid fd : ℕ) → F.State → Lock × F.State
  unfolding lock_file
  write_unlock_whole_file pid fd = lock_file pid fd f_setlkw f_wrlck 0 seek_set 0

-- A process that is started: the answers of its system calls but that for the lock.
pub record Attempt : Type 0 where
  pub calls : Calls
  pub lock_open : Bool
  pub fd : ℕ
  pub truncated : Bool
  pub written : ℕ
  pub socket : SocketCalls
  pub pid : ℕ
  pub files : Files
  pub contents : Bytes

abbrev pub lock_calls : Attempt → Lock → LockCalls
lock_calls a answer = record {
  lock_open = a.lock_open;
  lock = answer;
  truncated = a.truncated;
  written = a.written;
}

abbrev pub outcome : Attempt → Lock → Outcome
outcome a answer = main a.calls (lock_calls a answer) a.socket a.pid a.files a.contents

-- The process comes as far as the call for the lock.
abbrev pub asks : Attempt → Started → Bool
asks a (returned ok files) = a.lock_open
asks a (exited status) = false

abbrev pub is_serving : Outcome → Bool
is_serving (serving files text) = true
is_serving (left_with status) = false
is_serving overrun_buf = false

module _ (F : Fcntl) where
  -- The outcome, and the locks behind the call.
  unfoldable pub attempt : Attempt → F.State → Bool × F.State
  unfolding main start_daemon write_lock_whole_file
  attempt a s =
      let (answer, s') = write_lock_whole_file F a.pid a.fd s in
      (is_serving (outcome a answer), if asks a (start_daemon a.calls a.files) then s' else s)

  -- The processes that serve, when these are started one after another: one that does not serve is
  -- gone, with its lock.
  unfoldable pub run_attempts : List Attempt → List ℕ → F.State → List ℕ × F.State
  unfolding attempt
  run_attempts [] servers s = (servers, s)
  run_attempts (a ∷ later) servers s =
      let (serves, s') = attempt a s in
      run_attempts later (if serves then a.pid ∷ servers else servers)
        (if serves then s' else F.exit a.pid s')
