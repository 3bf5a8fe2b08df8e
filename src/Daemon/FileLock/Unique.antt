-- ===== src/Daemon/FileLock/Unique.antt =====
-- At most one daemon serves.
use everyfile.Prelude.{
  ℕ, ◌≡◌, ◌≢◌, ◌⊎◌, refl, sym, ◌∙◌, inl, inr, Bool, true, false, none, some, List, [], ◌∷◌, Bytes,
  All, arith, if◌then◌else◌,
}
use mathlib.Core.Option.{some-injective}
use everyfile.Daemon.Start.{
  Started, returned, exited, start_daemon, Lock, granted, busy, broken, after_start,
  ef_init_lockfile_to_unique, LockCalls, gone, Outcome, serving, left_with, overrun_buf, main,
}
use everyfile.Daemon.Start.LockFile.{main-granted}
use everyfile.Daemon.FileLock.{
  Fcntl, whole_file, IsLawful, lock_file, write_lock_whole_file, write_unlock_whole_file, f_setlk,
  f_setlkw, Attempt, lock_calls, outcome, asks, is_serving, attempt, run_attempts,
}

-- Nobody serves and nobody has the lock, or one process does both.
abbrev pub IsOne : (F : Fcntl) → List ℕ → F.State → Type 0
IsOne F [] s = F.owner s ≡ none
IsOne F (p ∷ []) s = F.owner s ≡ some p
IsOne F (p ∷ q ∷ rest) s = ⊥

-- A process that serves has asked for the lock, and has got it.
served_granted :
    (a : Attempt) (answer : Lock) → is_serving (outcome a answer) ≡ true → answer ≡ granted
served_granted a answer h = of_outcome (outcome a answer) refl h
  where
    of_outcome : (o : Outcome) → outcome a answer ≡ o → is_serving o ≡ true → answer ≡ granted
    of_outcome (serving files text) e h =
        main-granted a.calls (lock_calls a answer) a.socket a.pid a.files files a.contents text e
    of_outcome (left_with status) e h = cc
    of_outcome overrun_buf e h = cc

ef_init_closed :
    (calls : LockCalls) (pid : ℕ) (contents : Bytes)
    → calls.lock_open ≡ false
    → ef_init_lockfile_to_unique calls pid contents ≡ gone 1
unfolding ef_init_lockfile_to_unique
ef_init_closed calls pid contents e = rw e

served_asks :
    (a : Attempt) (answer : Lock)
    → is_serving (outcome a answer) ≡ true
    → asks a (start_daemon a.calls a.files) ≡ true
unfolding main
served_asks a answer h = of_start (start_daemon a.calls a.files) a.lock_open refl h
  where
    of_start :
        (st : Started) (opened : Bool)
        → a.lock_open ≡ opened
        → is_serving (after_start (lock_calls a answer) a.socket a.pid a.contents st) ≡ true
        → asks a st ≡ true
    of_start (returned ok files) true e h = e
    of_start (returned ok files) false e h =
        ground (arith, h, ef_init_closed (lock_calls a answer) a.pid a.contents e)
    of_start (exited status) opened e h = cc

Lock-cases : (l : Lock) → (l ≡ granted) ⊎ (l ≢ granted)
Lock-cases granted = inl refl
Lock-cases busy = inr λ h. cc
Lock-cases broken = inr λ h. cc

module _ (F : Fcntl) (L : IsLawful F) where
  -- If a lock of the whole file goes to the process that it is granted to, and stays as it was
  -- where a call is refused, write_unlock_whole_file leaves the lock with the process that has it.
  pub write_unlock-keeps :
      (pid fd : ℕ) (s : F.State)
      → F.owner s ≡ some pid
      → F.owner (write_unlock_whole_file F pid fd s).1 ≡ some pid
  unfolding write_unlock_whole_file lock_file
  write_unlock-keeps pid fd s mine = elim (Lock-cases (F.fcntl pid fd f_setlkw whole_file s).0) [
    | inl got ↦ L.granted-owner pid fd f_setlkw s got
    | inr not_got ↦ L.refused-owner pid fd f_setlkw s not_got ∙ mine
  ]

  module _ (pid fd : ℕ) (s : F.State) where
    abbrev called : Lock × F.State
    called = F.fcntl pid fd f_setlk whole_file s

    -- A process that gets the lock is the only one.
    granted-IsOne :
        (servers : List ℕ)
        → IsOne F servers s
        → All (λ p. p ≢ pid) servers
        → called.0 ≡ granted
        → IsOne F (pid ∷ servers) called.1
    granted-IsOne [] one others got = L.granted-owner pid fd f_setlk s got
    granted-IsOne (p ∷ []) one others got = elim (L.granted-free pid fd f_setlk s got) [
      | inl free ↦ cc
      | inr mine ↦ absurd (others.0 (some-injective p pid (sym one ∙ mine)))
    ]
    granted-IsOne (p ∷ q ∷ rest) one others got = one

    exit-none : (t : F.State) → F.owner t ≡ none → F.owner (F.exit pid t) ≡ none
    exit-none t free = L.exit-other pid t (λ h. cc) ∙ free

    -- One that goes leaves the others as they were.
    exit-IsOne :
        (servers : List ℕ) (b : Bool)
        → IsOne F servers s
        → All (λ p. p ≢ pid) servers
        → IsOne F servers (F.exit pid (if b then called.1 else s))
    exit-IsOne [] true one others = elim (Lock-cases called.0) [
      | inl got ↦ L.exit-own pid called.1 (L.granted-owner pid fd f_setlk s got)
      | inr not_got ↦ exit-none called.1 (L.refused-owner pid fd f_setlk s not_got ∙ one)
    ]
    exit-IsOne [] false one others = exit-none s one
    exit-IsOne (p ∷ []) true one others = elim (Lock-cases called.0) [
      | inl got ↦ absurd (granted-IsOne (p ∷ []) one others got)
      | inr not_got ↦
          let kept = L.refused-owner pid fd f_setlk s not_got ∙ one in
          L.exit-other pid called.1 (λ h. others.0 (some-injective p pid (sym kept ∙ h))) ∙ kept
    ]
    exit-IsOne (p ∷ []) false one others =
        L.exit-other pid s (λ h. others.0 (some-injective p pid (sym one ∙ h))) ∙ one
    exit-IsOne (p ∷ q ∷ rest) b one others = absurd one

  -- Processes that are there at once have different numbers.
  abbrev pub Apart : List Attempt → Type 0
  Apart [] = Unit {0}
  Apart (a ∷ later) = All (λ b. a.pid ≢ b.pid) later × Apart later

  abbrev Others : List ℕ → List Attempt → Type 0
  Others servers = All (λ b. All (λ p. p ≢ b.pid) servers)

  Others-cons :
      (p : ℕ) (servers : List ℕ) (later : List Attempt)
      → All (λ b. p ≢ b.pid) later
      → Others servers later
      → Others (p ∷ servers) later
  Others-cons p servers [] h o = tt
  Others-cons p servers (b ∷ later) (h, hs) (o, os) = ((h, o), Others-cons p servers later hs os)

  Others-none : (later : List Attempt) → Others [] later
  Others-none [] = tt
  Others-none (b ∷ later) = (tt, Others-none later)

  -- The rest of the processes, when this one serves or is gone.
  abbrev Ends : List Attempt → List ℕ → F.State → Type 0
  Ends attempts servers s = let (left, t) = run_attempts F attempts servers s in IsOne F left t

  after_attempt :
      (a : Attempt) (later : List Attempt) (servers : List ℕ) (s : F.State)
      → ((now : List ℕ) (t : F.State) → IsOne F now t → Others now later → Ends later now t)
      → IsOne F servers s
      → All (λ p. p ≢ a.pid) servers
      → Others servers later
      → All (λ b. a.pid ≢ b.pid) later
      → (serves asked : Bool) → is_serving (outcome a (called a.pid a.fd s).0) ≡ serves
      → asks a (start_daemon a.calls a.files) ≡ asked
      → Ends later (if serves then a.pid ∷ servers else servers) (
          if serves
          then (if asked then (called a.pid a.fd s).1 else s)
          else F.exit a.pid (if asked then (called a.pid a.fd s).1 else s))
  after_attempt a later servers s more one o os apart true true e f =
      more (a.pid ∷ servers) (called a.pid a.fd s).1
        (granted-IsOne a.pid a.fd s servers one o (served_granted a (called a.pid a.fd s).0 e))
        (Others-cons a.pid servers later apart os)
  after_attempt a later servers s more one o os apart true false e f =
      cc (f, served_asks a (called a.pid a.fd s).0 e)
  after_attempt a later servers s more one o os apart false asked e f =
      more servers (F.exit a.pid (if asked then (called a.pid a.fd s).1 else s))
        (exit-IsOne a.pid a.fd s servers asked one o) os

  run_attempts-from :
      (attempts : List Attempt) (servers : List ℕ) (s : F.State)
      → IsOne F servers s
      → Others servers attempts
      → Apart attempts
      → Ends attempts servers s
  unfolding run_attempts attempt write_lock_whole_file lock_file
  run_attempts-from [] servers s one o apart = one
  run_attempts-from (a ∷ later) servers s one (o, os) (apart, rest) =
      after_attempt a later servers s
        (λ now t one' os'. run_attempts-from later now t one' os' rest) one o os apart
        (is_serving (outcome a (called a.pid a.fd s).0)) (asks a (start_daemon a.calls a.files))
        refl refl

  -- If a lock of the whole file is granted only where no other process has it, is left by a
  -- refused call, and goes with its process, then of any daemons with different numbers that are
  -- started one after another while nobody has the lock, at most one serves in the end, and if one
  -- does it has the lock.
  pub run_attempts-IsOne :
      (attempts : List Attempt) (s : F.State)
      → F.owner s ≡ none
      → Apart attempts
      → let (servers, t) = run_attempts F attempts [] s in IsOne F servers t
  run_attempts-IsOne attempts s free apart =
      run_attempts-from attempts [] s free (Others-none attempts) apart
