-- ===== src/Kernel/Sender.antt =====
-- kernelmod/vfs_kprobe.c: the thread that sends, and the callback that wakes it.
pub mod Rounds
use everyfile.Prelude.{
  ℕ, ◌+◌, ◌%◌, ◌^◌, Bool, true, false, not, Option, none, some, List, [], ◌∷◌, ◌++◌, Bytes, length,
  ltb, leb, ◌==◌, ◌||◌, if◌then◌else◌, same_text, until_nul, codes,
}
use everyfile.Kernel.State.{
  Msg, Kernel, Run, ok, undefined, M, pure, fail, ◌>>=◌, ◌>>◌, buf, file, msg, spin_lock,
  spin_unlock, inc32, dec32,
}
use everyfile.Kernel.Buffer.{encode, get_msg_from_list, list_del, set_size}

-- What the kernel's allocators and the netlink socket answer in one round: room for the socket
-- buffer, for its header, for the two bytes of the flag, whether the message is accepted, and the
-- number that `netlink_unicast` returns.
pub record Answers : Type 0 where
  pub skb : Bool
  pub header : Bool
  pub flag : Bool
  pub accepted : Bool
  pub ret : ℕ

abbrev post : Bool → Bytes → M (Unit {0})
post accepted text k = ok tt (if accepted then record k { outbox = k.outbox ++ text ∷ [] } else k)

-- `send_msg`, whose result is kept in an `int8_t`; -1 is the bit pattern 255.
unfoldable pub send_msg : Answers → Msg → M ℕ
unfolding encode
send_msg a m =
    if not a.skb
    then pure 255
    else if not a.header
    then pure 255
    else if not a.flag
    then fail
    else do post a.accepted (encode m); pure (a.ret % 2 ^ 8)

-- `send_file_on`: where the socket buffer is given, the text is printed through a pointer that was
-- never set.
unfoldable pub send_file_on : Answers → M ℕ
send_file_on a = if not a.skb then pure 255 else fail

abbrev set_ready : (ℕ → ℕ) → M (Unit {0})
set_ready f k = ok tt (record k { msg_ready = f k.msg_ready })

-- `wake_up_process(send_kthread)`, `set_current_state(TASK_INTERRUPTIBLE)`, and the return of
-- `schedule_timeout`.
abbrev set_running : Bool → M (Unit {0})
set_running b k = ok tt (record k { running = b })

-- `rcv_msg`, the callback of the socket, for a packet whose payload holds `umsg`; `whole` is whether
-- the packet is as long as a header.
unfoldable pub rcv_msg : (whole : Bool) → Bytes → M (Unit {0})
rcv_msg whole umsg =
    if whole
    then (do
      spin_lock msg
      set_ready inc32
      spin_unlock msg
      if same_text (until_nul umsg) (codes "SYN") || same_text (until_nul umsg) (codes "ACK")
          then set_running true
          else pure tt)
    else pure tt

-- Where a round stands behind the test of `msg_ready`: the loop has been left, there was a request, or
-- the thread is in `schedule_timeout`.
pub data Place : Type 0 where
  stopped requested sleeping : Place

-- The test of `msg_ready`; without a request the lock is released, and the thread sleeps.
abbrev take_request : M Place
take_request k =
    if not (k.msg_ready == 0)
    then ok requested (record k { msg_ready = 0 })
    else (do spin_unlock msg; pure sleeping) k

-- A round up to the call of `schedule_timeout` or behind the test.
unfoldable pub send_begin : (stop : Bool) → M Place
send_begin stop = do
  set_running false
  if stop then pure stopped else (do spin_lock msg; take_request)

abbrev send_first : Answers → Option Msg → M (Unit {0})
send_first a none = pure tt
send_first a (some m) = do send_msg a m; list_del; set_size dec32

abbrev if_any : Answers → M (Unit {0})
if_any a k = if ltb 0 k.msg_buf_size then (do m ← get_msg_from_list; send_first a m) k else ok tt k

abbrev reset_file : M (Unit {0})
reset_file k = ok tt (record k { pos = 0; file_on = 0 })

abbrev serve : Answers → M (Unit {0})
serve a k =
    if not (k.file_on == 0)
    then (do send_file_on a; reset_file) k
    else (do spin_lock buf; if_any a; spin_unlock buf) k

-- The rest of the round.
unfoldable pub send_rest : Answers → M (Unit {0})
unfolding send_msg send_file_on get_msg_from_list
send_rest a = do spin_unlock msg; spin_lock file; serve a; spin_unlock file

abbrev pub go_on : Answers → Place → M Bool
go_on a stopped = pure false
go_on a requested = do send_rest a; pure true
go_on a sleeping = do set_running true; send_rest a; pure true

-- One round of the loop of `send_func`, if nothing else happens while the thread sleeps; the result
-- says whether the loop goes on.
unfoldable pub send_round : (stop : Bool) → Answers → M Bool
unfolding send_begin send_rest
send_round stop a = do p ← send_begin stop; go_on a p
