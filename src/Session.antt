-- ===== src/Session.antt =====
-- The kernel module and the daemon together: kernelmod/vfs_kprobe.c answers the requests of
-- src/daemon/efd.cpp over the netlink socket. A turn is a report of a probe, what the sending thread
-- does up to or behind `schedule_timeout`, or a round of the daemon; between two turns any time passes,
-- so the thread may run again before or behind a request.
pub mod Delivery
pub mod Overflow
pub mod Schedule
pub mod Drained
pub mod Sending
pub mod Turns
pub mod Mirror
pub mod Search
pub mod Operations
pub mod System
use everyfile.Prelude.{
  ℕ, suc, Bool, true, false, Option, none, some, List, [], ◌∷◌, ◌++◌, Bytes, codes,
}
use everyfile.Kernel.State.{Kernel, Run, ok, undefined, deadlock}
use everyfile.Kernel.Buffer.{Writer, add_vfs_changed}
use everyfile.Kernel.Buffer.History.{Event}
use everyfile.Kernel.Sender.{
  Answers, Place, stopped, requested, sleeping, rcv_msg, send_begin, go_on,
}
use everyfile.Daemon.Loop.{Daemon, timeout, readable, packet, Outcome, going, left, exited, round}
use everyfile.Daemon.Loop

-- Memory is there, and the socket takes the message.
abbrev pub all_well : Answers
all_well = record { skb = true; header = true; flag = true; accepted = true; ret = 0 }

-- `asleep` is whether the sending thread is in `schedule_timeout`; otherwise it is at the head of its
-- loop. It has been woken for the first time before the turns begin.
pub record World : Type 0 where
  pub asleep : Bool
  pub kernel : Kernel
  pub daemon : Daemon

pub data Turn : Type 0 where
  report : Event → Turn
  send : Turn
  listen : Turn

abbrev pub settle : {A : Type 0} → Bool → Daemon → Run A → Option World
settle asleep d (ok _ k) = some (record { asleep = asleep; kernel = k; daemon = d })
settle asleep d undefined = none
settle asleep d deadlock = none

-- Behind the test of `msg_ready`: a thread that sleeps goes on in a later turn.
abbrev pub behind_test : Daemon → Run Place → Option World
behind_test d (ok stopped k) = none
behind_test d (ok requested k) = settle false d (go_on all_well requested k)
behind_test d (ok sleeping k) = some (record { asleep = true; kernel = k; daemon = d })
behind_test d undefined = none
behind_test d deadlock = none

abbrev pub send_turn : (asleep : Bool) → Kernel → Daemon → Option World
send_turn true k d = settle false d (go_on all_well sleeping k)
send_turn false k d = behind_test d (send_begin false k)

-- The daemon's round ends in a request: its text, and behind it, with no zero between them, `junk`, the
-- rest of memory that `malloc` gave and nothing has cleared.
abbrev pub ask : (junk : Bytes) → Bool → Kernel → Outcome → Option World
ask junk asleep k (going d) = settle asleep d (rcv_msg true (codes "ACK" ++ junk) k)
ask junk asleep k (left d) = none
ask junk asleep k (exited d) = none

-- It reads the oldest packet, or its `select` times out.
abbrev pub listen_turn :
    (junk : Bytes) → (now : ℕ) → Bool → Kernel → Daemon → (on_way : List Bytes) → Option World
listen_turn junk now asleep k d [] = ask junk asleep k (round now false timeout d)
listen_turn junk now asleep k d (p ∷ rest) =
    ask junk asleep (record k { outbox = rest }) (round now false (readable (packet p)) d)

-- A turn at time `now`, while `kmalloc` gives memory and the sockets take what is sent.
unfoldable pub step : Writer → (junk : Bytes) → (now : ℕ) → Turn → World → Option World
unfolding send_begin rcv_msg round add_vfs_changed
step w junk now (report e) s =
    settle s.asleep s.daemon (add_vfs_changed w true true e.fl_path e.path_len e.flags s.kernel)
step w junk now send s = send_turn s.asleep s.kernel s.daemon
step w junk now listen s = listen_turn junk now s.asleep s.kernel s.daemon s.kernel.outbox

abbrev pub continue : (World → Option World) → Option World → Option World
continue more none = none
continue more (some s) = more s

-- The number of the next round of the daemon.
abbrev pub tick : Turn → ℕ → ℕ
tick (report e) i = i
tick send i = i
tick listen i = suc i

-- The turns, where the next round of the daemon is its round `i`.
unfoldable pub run :
    Writer → (junk : Bytes) → (clock : ℕ → ℕ) → ℕ → List Turn → World → Option World
unfolding step
run w junk clock i [] s = some s
run w junk clock i (t ∷ turns) s =
    continue (run w junk clock (tick t i) turns) (step w junk (clock i) t s)
