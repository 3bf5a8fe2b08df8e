-- ===== src/Daemon/Loop.antt =====
-- src/daemon/efd.cpp: the loop of `ef_kernel_conn`, an event at a time.
use everyfile.Prelude.{ℕ, ◌+◌, Bool, Option, none, some, List, [], ◌∷◌, ◌++◌, Bytes, if◌then◌else◌}
use everyfile.Scan.Info.{FileInfo}
use everyfile.Daemon.Message.{Call, fill, handle}

-- What the daemon has done: the calls of the database, and the number of requests sent.
pub record Daemon : Type 0 where
  pub info : FileInfo
  pub calls : List Call
  pub requests : ℕ

-- How `recvfrom` answers: an empty packet (its result is 0), an error (-1, and the field stays
-- zero), or a packet.
pub data Received : Type 0 where
  closed broken : Received
  packet : Bytes → Received

-- How `select` answers; `unset` is a positive answer for which `FD_ISSET` is false.
pub data Event : Type 0 where
  failed timeout unset : Event
  readable : Received → Event

-- After a round: the loop goes on, is left by `break`, or the process ends.
pub data Outcome : Type 0 where
  going left exited : Daemon → Outcome

abbrev note : Option Call → List Call → List Call
note none calls = calls
note (some c) calls = calls ++ c ∷ []

unfoldable pub receive : (now : ℕ) → Bytes → Daemon → Daemon
receive now payload d =
    let (info, call) = handle now (fill payload) d.info in
    record d { info = info; calls = note call d.calls }

-- `sendto` of the request; the code takes only the result 0 for a failure.
abbrev send_request : (zero_sent : Bool) → Daemon → Outcome
send_request zero_sent d =
    if zero_sent then exited d else going (record d { requests = d.requests + 1 })

unfoldable pub round : (now : ℕ) (zero_sent : Bool) → Event → Daemon → Outcome
round now zero_sent failed d = left d
round now zero_sent timeout d = send_request zero_sent d
round now zero_sent unset d = send_request zero_sent d
round now zero_sent (readable closed) d = exited d
round now zero_sent (readable broken) d = send_request zero_sent (receive now [] d)
round now zero_sent (readable (packet p)) d = send_request zero_sent (receive now p d)
