-- ===== src/Daemon/Start/Detach.antt =====
-- When `start_daemon` succeeds, and what it leaves of the descriptors.
use everyfile.Prelude.{
  ℕ, ◌≡◌, ◌<◌, ◌≤◌, ◌∙◌, inl, inr, true, false, Option, none, some, Bytes, arith, ltb, ◌==◌,
  Bool-cases,
}
use everyfile.Daemon.Start.{in_child, Files, set, Calls, returned, dev_null, start_daemon}

-- Every call succeeds, in the process that both forks leave; `close` is called above descriptor 2.
pub record Succeeds (calls : Calls) (fd : ℕ) : Type 0 where
  pub first : calls.fork_1 ≡ in_child
  pub session : calls.setsid ≡ true
  pub second : calls.fork_2 ≡ in_child
  pub null : calls.opened ≡ some fd
  pub input : calls.dup_in ≡ true
  pub output : calls.dup_out ≡ true
  pub errors : calls.dup_err ≡ true
  pub close : 2 < fd → calls.closed ≡ true

-- The three standard descriptors lead to /dev/null, and the others are what they were.
pub record IsDetached (before after : Files) : Type 0 where
  pub standard : (n : ℕ) → n ≤ 2 → after n ≡ some dev_null
  pub others : (n : ℕ) → 2 < n → after n ≡ before n

-- Below 3 nothing is closed.
abbrev standard_set : Files → ℕ → Files
standard_set files fd =
    let f0 : Files = set files fd (some dev_null) in
    let f1 : Files = set f0 0 (f0 fd) in let f2 : Files = set f1 1 (f1 fd) in set f2 2 (f2 fd)

standard_low : (files : Files) (fd n : ℕ) → n ≤ 2 → standard_set files fd n ≡ some dev_null
standard_low files fd n h = ground (arith, h)

standard_high :
    (files : Files) (fd n : ℕ) → 2 < n → (n == fd) ≡ false → standard_set files fd n ≡ files n
standard_high files fd n h other = ground (arith, h)

set_other :
    (files : Files) (fd : ℕ) (file : Option Bytes) (n : ℕ)
    → (n == fd) ≡ false
    → set files fd file n ≡ files n
set_other files fd file n h = rw h

-- If every call succeeds and open gives a free descriptor, start_daemon returns true; the three
-- standard descriptors then lead to /dev/null, and every other descriptor is what it was.
pub start_daemon_lem :
    (calls : Calls) (files : Files) (fd : ℕ)
    → Succeeds calls fd
    → files fd ≡ none
    → (after : Files) × (start_daemon calls files ≡ returned true after) × IsDetached files after
unfolding start_daemon
start_daemon_lem calls files fd s free = elim (Bool-cases (ltb 2 fd)) [
  | inl high ↦ (
    set (standard_set files fd) fd none,
    rw (
      s.first,
      s.session,
      s.second,
      s.null,
      s.input,
      s.output,
      s.errors,
      high,
      s.close (ground arith),
    ),
    record {
      standard = λ n h.
          (let apart : (n == fd) ≡ false = ground arith in
            set_other (standard_set files fd) fd none n apart ∙ standard_low files fd n h);
      others = λ n h. elim (Bool-cases (n == fd)) [
        | inl same ↦ ground arith
        | inr other ↦
            set_other (standard_set files fd) fd none n other ∙ standard_high files fd n h other
      ];
    },
  )
  | inr low ↦ (
    standard_set files fd,
    rw (s.first, s.session, s.second, s.null, s.input, s.output, s.errors, low),
    record {
      standard = standard_low files fd;
      others = λ n h. standard_high files fd n h (ground arith);
    },
  )
]
