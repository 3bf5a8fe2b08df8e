-- ===== src/Tests/SearchRuns.antt =====
-- The calls of src/ef_db.cpp and the search of src/main.cpp on a table.
use everyfile.Prelude.{
  ℕ, ◌<◌, ◌≡◌, refl, true, false, Bool, none, some, List, [], ◌∷◌, Bytes, arith, codes, decimal,
}
use everyfile.Kernel.State.{Partition, Kernel, ok}
use everyfile.Kernel.Buffer.History.{Event, to_msg}
use everyfile.Kernel.Mounts.{find_root, is_special_mp, mounted_at}
use everyfile.Kernel.Probe.{Regs, Probe, vfs_create, vfs_unlink, act, full_path}
use everyfile.Scan.Info.{ereg, type_number}
use everyfile.Daemon.Message.{Call, add, rm}
use everyfile.Db.Sqlite.{IsPlain}
use everyfile.Db.Table.{run_calls, replay, run_calls-replay}
use everyfile.Kernel.Buffer.Sound.{IsSound}
use everyfile.Session
use everyfile.Session.{Turn, report, run}
use everyfile.Session.Delivery.{IsReadable, Matches}
use everyfile.Session.Schedule.{Fits}
use everyfile.Kernel.Probe.{null}
use everyfile.Kernel.Probe.Operation.{Operation, is_reported, event, appended}
use everyfile.Kernel.Probe.Entry.{pre, post, run_handlers, run_handlers-overwrites}
use everyfile.Session.Operations.{Deed, operate, send, listen, run_deeds, turns_of, run_deeds-turns}
use everyfile.Tests.DaemonRuns.{holding, awake, empty_view, appender}
use everyfile.Tests.SqlTable.{Table, table, table-IsLawful}

abbrev empty : Table
empty n = none

tmp_a-IsPlain : IsPlain (codes "/tmp/a")
tmp_a-IsPlain = record { clean = omega arith; unquoted = omega arith; absolute = refl }

abbrev calls : List Call
calls =
    add (record { file_name = codes "/tmp/a"; file_type = ereg; file_time = 5 })
    ∷ rm (codes "/tmp/a")
    ∷ []

run_calls-replay_example :
    (t : Table) × (run_calls table calls empty ≡ some t)
    × ((n : Bytes) → t n ≡ replay table calls empty n)
unfolding decimal type_number
run_calls-replay_example =
    run_calls-replay table table-IsLawful calls empty
      ((tmp_a-IsPlain, (omega arith), (omega arith)), ((tmp_a-IsPlain, (omega arith)), tt))

abbrev regs : Regs
regs = record { di = 0; si = 4096; dx = 0; cx = 0; r8 = 0; r9 = 0 }

abbrev pub at_home : ℕ → Event
at_home flags = record { fl_path = codes "/home/a"; path_len = 7; flags = flags }

abbrev pub on_home : Probe → Bool → Operation
on_home probe passes = record {
  probe = probe;
  regs = regs;
  major = 8;
  minor = 1;
  path = codes "/a";
  passes = passes;
}

abbrev home : Partition
home = record { major = 8; minor = 1; root = codes "/home" }

-- A file is made, and the message of it read; an operation whose test fails; then the file is removed,
-- and the message of it is not read.
abbrev deeds : List Deed
deeds =
    operate (on_home vfs_create true)
    ∷ send
    ∷ listen
    ∷ operate (on_home vfs_unlink false)
    ∷ send
    ∷ listen
    ∷ operate (on_home vfs_unlink true)
    ∷ []

abbrev mounted : Kernel
mounted = record (holding []) { partitions = home ∷ [] }

mounted-IsSound : IsSound mounted
mounted-IsSound = record {
  unlocked = record { parts_free = refl; buf_free = refl; file_free = refl; msg_free = refl };
  counted = refl;
  bounded = omega arith;
}

mounted-Matches : Matches (awake mounted) empty_view
mounted-Matches = record {
  sound = record {
    unlocked = record { parts_free = refl; buf_free = refl; file_free = refl; msg_free = refl };
    counted = refl;
    bounded = omega arith;
  };
  no_notice = refl;
  asleep = refl;
  ready = refl;
  sent = refl;
  waiting = refl;
  sent_readable = tt;
  waiting_readable = tt;
}

abbrev home_run : List Turn
home_run =
    report (at_home 1)
    ∷ Session.send
    ∷ Session.listen
    ∷ Session.send
    ∷ Session.listen
    ∷ report (at_home 2)
    ∷ []

home_turns : turns_of (home ∷ []) deeds ≡ home_run
unfolding find_root is_special_mp mounted_at full_path act
home_turns = refl

pub home-IsReadable : (flags : ℕ) → flags < 10 → IsReadable (to_msg (at_home flags))
home-IsReadable flags small = record {
  whole = refl;
  clean = omega arith;
  fits = omega arith;
  one_digit = small;
}

deeds-Fits : Fits empty_view (turns_of (home ∷ []) deeds)
unfolding Fits
deeds-Fits = rw home_turns (
  (omega arith, home-IsReadable 1 (omega arith)),
  (tt, (tt, (tt, (tt, ((omega arith, home-IsReadable 2 (omega arith)), tt))))),
)

run_deeds-turns_example :
    run_deeds appender (codes "!") (λ i. 5) 0 deeds (awake mounted)
    ≡ run appender (codes "!") (λ i. 5) 0 (turns_of (home ∷ []) deeds) (awake mounted)
run_deeds-turns_example =
    run_deeds-turns appender (codes "!") (λ i. 5) (home ∷ []) 0 deeds (awake mounted) empty_view
      mounted-Matches refl deeds-Fits

abbrev make_a : Operation
make_a = on_home vfs_create true

abbrev make_b : Operation
make_b = record make_a { path = codes "/b" }

home-is_reported : is_reported (home ∷ []) make_a ≡ true
unfolding find_root is_special_mp mounted_at
home-is_reported = refl

run_handlers-overwrites_example :
    (run_handlers appender vfs_create
        (pre make_a ∷ post make_a ∷ pre make_b ∷ post make_b ∷ [])
        null
        mounted
      ≡ ok tt (appended (event (home ∷ []) make_b) (appended (event (home ∷ []) make_a) mounted)))
    × (run_handlers appender vfs_create
          (pre make_a ∷ pre make_b ∷ post make_a ∷ post make_b ∷ [])
          null
          mounted
        ≡ ok tt (appended (event (home ∷ []) make_b) (appended (event (home ∷ []) make_b) mounted)))
run_handlers-overwrites_example =
    run_handlers-overwrites appender (home ∷ []) mounted mounted-IsSound refl make_a make_b refl
      home-is_reported home-is_reported (omega arith)
