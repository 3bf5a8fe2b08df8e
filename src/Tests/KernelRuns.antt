-- ===== src/Tests/KernelRuns.antt =====
-- kernelmod/vfs_kprobe.c at concrete states.
use everyfile.Prelude.{
  ℕ, ◌+◌, ◌≡◌, ◌↔◌, refl, true, false, Option, none, some, List, [], ◌∷◌, ◌++◌, arith, length,
  replicate, codes, ◌==◌, if◌then◌else◌,
}
use everyfile.Kernel.State.{Msg, Partition, Kernel, ok, undefined, Unlocked}
use everyfile.Kernel.Buffer.{Writer}
use everyfile.Kernel.Buffer.Sound.{IsSound}
use everyfile.Kernel.Buffer.History.{Event, add_all, Added, add_all_lem}
use everyfile.Kernel.Sender.{Answers, rcv_msg, send_round}
use everyfile.Kernel.Sender.Rounds.{round_outcome, send_round_lem}
use everyfile.Session.{all_well}
use everyfile.Session.Overflow.{add_all-undefined}
use everyfile.Kernel.Mounts.{mounted_at, is_special_mp}
use everyfile.Kernel.Mounts.Special.{IsReported, is_special_mp_iff}
use everyfile.Kernel.Probe.{Regs, Dentry, pre_handler_common, post_handler_common, full_path}
use everyfile.Kernel.Probe.Report.{enough, whole, handlers-report}

-- Texts are appended to the file, whatever the position.
abbrev appender : Writer
appender file text pos = (file ++ text, pos + length text)

abbrev home : Partition
home = record { major = 8; minor = 1; root = codes "/home" }

abbrev msg_of : ℕ → Msg
msg_of n = record { flags = n; len = 2; path = codes "/a" }

abbrev with_msgs : List Msg → Kernel
with_msgs ms = record {
  partitions = home ∷ [];
  sl_parts = false;
  sl_buf = false;
  sl_file = false;
  sl_msg = false;
  msg_buf = ms;
  msg_buf_size = length ms;
  file_on = 0;
  msg_ready = 1;
  log_file = [];
  pos = 0;
  outbox = [];
  running = false;
}

abbrev two : Kernel
two = with_msgs (msg_of 1 ∷ msg_of 2 ∷ [])

unlocked : (ms : List Msg) → Unlocked (with_msgs ms)
unlocked ms = record { parts_free = refl; buf_free = refl; file_free = refl; msg_free = refl }

two-IsSound : IsSound two
two-IsSound = record { unlocked = unlocked _; counted = refl; bounded = omega arith }

one-IsSound : IsSound (with_msgs (msg_of 1 ∷ []))
one-IsSound = record { unlocked = unlocked _; counted = refl; bounded = omega arith }

abbrev events : List Event
events =
    record { fl_path = codes "/b"; path_len = 2; flags = 3 }
    ∷ record { fl_path = codes "/c"; path_len = 2; flags = 4 }
    ∷ []

add_all_lem_example : Added appender events two
add_all_lem_example = add_all_lem appender events two two-IsSound

-- The socket refuses the message.
abbrev refusing : Answers
refusing = record { skb = true; header = true; flag = true; accepted = false; ret = 245 }

send_round_lem_example :
    send_round false refusing two
    ≡ ok true (record two {
      running = false;
      msg_ready = 0;
      msg_buf = msg_of 2 ∷ [];
      msg_buf_size = 1;
      outbox = [];
    })
unfolding round_outcome
send_round_lem_example = send_round_lem refusing two two-IsSound false

abbrev overflown : Kernel
overflown = record two { file_on = 1 }

overflown-IsSound : IsSound overflown
overflown-IsSound = record {
  unlocked = record { parts_free = refl; buf_free = refl; file_free = refl; msg_free = refl };
  counted = refl;
  bounded = omega arith;
}

-- A longer name with the same beginning is another directory.
runtime_is_other : mounted_at (codes "/runtime") (codes "/run") ≡ false
unfolding mounted_at
runtime_is_other = refl

is_special_mp_iff_example :
    (is_special_mp (some (codes "/home")) ≡ false) ↔ IsReported (codes "/home")
is_special_mp_iff_example = is_special_mp_iff (codes "/home")

home-IsReported : IsReported (codes "/home")
unfolding is_special_mp
home-IsReported = (is_special_mp_iff (codes "/home")).0 refl

abbrev regs : Regs
regs = record { di = 0; si = 4096; dx = 0; cx = 0; r8 = 0; r9 = 0 }

abbrev memory : ℕ → Option Dentry
memory n =
    if n == 4096
    then some (record { device = some (8, 257); raw_path = some (codes "/x") })
    else none

handlers-report_example :
    post_handler_common appender enough true (pre_handler_common true memory regs).0 1 two
    ≡ ok tt (record two {
      msg_buf = two.msg_buf ++ whole (full_path (codes "/home") (codes "/x")) 1 ∷ [];
      msg_buf_size = 3;
    })
handlers-report_example =
    handlers-report appender two two-IsSound memory regs 1 8 257 (codes "/x") [] home [] refl refl
      tt refl refl home-IsReported (unfold full_path in omega arith) (omega arith)

-- A full buffer.
abbrev full : Kernel
full = record (with_msgs (replicate 128 (msg_of 1))) { msg_ready = 0 }

full-IsSound : IsSound full
full-IsSound = record {
  unlocked = record { parts_free = refl; buf_free = refl; file_free = refl; msg_free = refl };
  counted = refl;
  bounded = omega arith;
}

add_all-undefined_example :
    (k1 : Kernel) × (k2 : Kernel) × (add_all appender events full ≡ ok tt k1)
    × (rcv_msg true (codes "ACK") k1 ≡ ok tt k2)
    × (send_round false all_well k2 ≡ undefined)
add_all-undefined_example =
    add_all-undefined appender events full all_well full-IsSound refl (omega arith) refl
