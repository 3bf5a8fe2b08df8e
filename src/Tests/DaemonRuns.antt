-- ===== src/Tests/DaemonRuns.antt =====
-- src/daemon/efd.cpp and src/ef_db.cpp at concrete inputs.
use everyfile.Prelude.{
  Bytes, Option, ◌==◌, ◌↔◌, ◌≢◌, if◌then◌else◌, ℕ, ◌%◌, ◌≡◌, refl, false, some, none, List, [], ◌∷◌,
  ◌++◌, arith, take, length, codes,
}
use everyfile.Kernel.State.{Msg, Kernel}
use everyfile.Kernel.Buffer.{encode, Writer}
use everyfile.Kernel.Buffer.History.{Event}
use everyfile.Scan.Info.{ereg}
use everyfile.Db.{qry_exact, delete_sql}
use everyfile.Db.Quote.{prepend, IsLiteral, HasNoQuote, statements-name_iff}
use mathlib.Core.Option
use everyfile.Db.Text.{delete_front, exact_front}
use everyfile.Daemon.Message.{fill, kind, name_of}
use everyfile.Daemon.Message.Decode.{path_room, decode-encode}
use everyfile.Daemon.Loop.{Daemon}
use everyfile.Session.{World, run, Turn, report, send, listen}
use everyfile.Session.Delivery.{IsReadable, View, Matches}
use everyfile.Session.Drained.{drain, drain-delivers}
use everyfile.Session.Schedule.{Fits, Serves, calls_said, heard, at_end, reported, run-Serves}

abbrev created : Msg
created = record { flags = 1; len = 6; path = codes "/tmp/a" }

abbrev removed : Msg
removed = record { flags = 2; len = 6; path = codes "/tmp/a" }

pub created-IsReadable : IsReadable created
created-IsReadable = record {
  whole = refl;
  clean = omega arith;
  fits = omega arith;
  one_digit = omega arith;
}

pub removed-IsReadable : IsReadable removed
removed-IsReadable = record {
  whole = refl;
  clean = omega arith;
  fits = omega arith;
  one_digit = omega arith;
}

decode-encode_example :
    (kind (fill (encode created)) ≡ 1 % 10)
    × (name_of (fill (encode created)) ≡ take path_room (codes "/tmp/a"))
decode-encode_example = decode-encode created refl (omega arith)

abbrev pub holding : List Msg → Kernel
holding ms = record {
  partitions = [];
  sl_parts = false;
  sl_buf = false;
  sl_file = false;
  sl_msg = false;
  msg_buf = ms;
  msg_buf_size = length ms;
  file_on = 0;
  msg_ready = 0;
  log_file = [];
  pos = 0;
  outbox = [];
  running = false;
}

abbrev pub started : Daemon
started = record {
  info = record { file_name = []; file_type = ereg; file_time = 0 };
  calls = [];
  requests = 1;
}

-- The thread is at the head of its loop, and the first request has come.
abbrev pub awake : Kernel → World
awake k = record { asleep = false; kernel = record k { msg_ready = 1 }; daemon = started }

abbrev pub empty_view : View
empty_view = record { asleep = false; ready = 1; sent = []; waiting = [] }

pub awake-Matches : Matches (awake (holding [])) empty_view
awake-Matches = record {
  sound = record {
    unlocked = record { parts_free = refl; buf_free = refl; file_free = refl; msg_free = refl };
    counted = refl;
    bounded = omega arith;
  };
  no_notice = refl;
  asleep = refl;
  ready = refl;
  sent = refl;
  waiting = refl;
  sent_readable = tt;
  waiting_readable = tt;
}

abbrev pub appender : Writer
appender file text pos = (file ++ text, pos)

abbrev pub at_tmp : ℕ → Event
at_tmp flags = record { fl_path = codes "/tmp/a"; path_len = 6; flags = flags }

-- The thread serves the first request, with nothing to send; sleeps; wakes with no request there and
-- sends the first message; the daemon reads it; the thread serves the request behind it.
abbrev turns : List Turn
turns =
    send
    ∷ report (at_tmp 1)
    ∷ send
    ∷ report (at_tmp 2)
    ∷ send
    ∷ listen
    ∷ send
    ∷ report (at_tmp 1)
    ∷ listen
    ∷ []

turns-Fits : Fits empty_view turns
unfolding Fits
turns-Fits = (
  tt,
  (
    (omega arith, created-IsReadable),
    (
      tt,
      (
        (omega arith, removed-IsReadable),
        (tt, (tt, (tt, ((omega arith, created-IsReadable), (tt, tt))))),
      ),
    ),
  ),
)

run-Serves_example :
    Serves appender (codes "!") (λ i. i) 0 turns (awake (holding [])) empty_view
    × (heard empty_view turns
          ++ ((at_end empty_view turns).sent ++ (at_end empty_view turns).waiting)
        ≡ [] ++ reported turns)
run-Serves_example =
    run-Serves appender (codes "!") (λ i. i) turns (awake (holding [])) empty_view awake-Matches
      turns-Fits

-- Two messages wait, and no request has come.
abbrev two_waiting : World
two_waiting = record { asleep = false; kernel = holding (created ∷ removed ∷ []); daemon = started }

abbrev two_view : View
two_view = record { asleep = false; ready = 0; sent = []; waiting = created ∷ removed ∷ [] }

two-Matches : Matches two_waiting two_view
two-Matches = record {
  sound = record {
    unlocked = record { parts_free = refl; buf_free = refl; file_free = refl; msg_free = refl };
    counted = refl;
    bounded = omega arith;
  };
  no_notice = refl;
  asleep = refl;
  ready = refl;
  sent = refl;
  waiting = refl;
  sent_readable = tt;
  waiting_readable = (created-IsReadable, (removed-IsReadable, tt));
}

drain-delivers_example :
    (u : World) × (run appender (codes "!") (λ i. i) 0 (drain 2) two_waiting ≡ some u)
    × (u.daemon.calls ≡ [] ++ calls_said (λ i. i) 0 two_view (drain 2))
    × (heard two_view (drain 2) ≡ created ∷ removed ∷ [])
    × (u.kernel.msg_buf ≡ [])
    × (u.kernel.outbox ≡ [])
drain-delivers_example =
    drain-delivers appender (codes "!") (λ i. i) 2 two_waiting two_view two-Matches (omega arith)

-- Reads a quoted text behind its opening quote.
read_literal : Bytes → Option (Bytes × Bytes)
read_literal [] = none
read_literal (c ∷ []) = if c == b'"' then some ([], []) else none
read_literal (c ∷ d ∷ s) =
    let next = read_literal (d ∷ s) in
    let behind = read_literal s in
    if c == b'"'
    then (if d == b'"' then Option.map (prepend b'"') behind else some ([], d ∷ s))
    else Option.map (prepend c) next

read_literal-plain :
    (c : ℕ) (s : Bytes) → c ≢ b'"' → read_literal (c ∷ s) ≡ Option.map (prepend c) (read_literal s)
unfolding read_literal
read_literal-plain c [] h = ground arith
read_literal-plain c (d ∷ s) h = ground arith

read_literal-closed :
    (c : ℕ) (s : Bytes) → c ≢ b'"' → read_literal (b'"' ∷ c ∷ s) ≡ some ([], c ∷ s)
unfolding read_literal
read_literal-closed c s h = ground arith

read_literal-IsLiteral : IsLiteral read_literal
unfolding read_literal
read_literal-IsLiteral = record {
  unclosed = refl;
  plain = read_literal-plain;
  doubled = λ s. refl;
  last = refl;
  closed = read_literal-closed;
}

abbrev quoted_name : Bytes
quoted_name = codes "/tmp/a\"b"

statements-name_iff_example :
    (delete_sql quoted_name ≡ some (delete_front ++ (quoted_name ++ b'"' ∷ [])))
    × (qry_exact quoted_name ≡ some (exact_front ++ (quoted_name ++ b'"' ∷ [])))
    × ((read_literal (quoted_name ++ b'"' ∷ []) ≡ some (quoted_name, [])) ↔ HasNoQuote quoted_name)
statements-name_iff_example =
    statements-name_iff read_literal read_literal-IsLiteral quoted_name (omega arith) (omega arith)
