-- ===== src/Session/Overflow.antt =====
-- What the daemon's next request meets when more operations came in than the buffer holds.
use everyfile.Prelude.{
  ◌+◌, ◌<◌, ◌≡◌, ◌∙◌, true, false, List, ◌++◌, arith, length, length-append, length-map, map, codes,
  ltb,
}
use everyfile.Kernel.State.{Kernel, ok, undefined}
use everyfile.Kernel.Buffer.{max_msg_buf_len, Writer}
use everyfile.Kernel.Buffer.Sound.{IsSound}
use everyfile.Kernel.Buffer.History.{Event, to_msg, excess, add_all, add_all_lem}
use everyfile.Kernel.Sender.{Answers, rcv_msg, send_round}
use everyfile.Kernel.Sender.Rounds.{send_round-file_on}

-- A request wakes the sending thread.
abbrev woken : Kernel → Kernel
woken k = record k { msg_ready = 1; running = true }

rcv_msg-woken :
    (k : Kernel) → IsSound k → k.msg_ready ≡ 0 → rcv_msg true (codes "ACK") k ≡ ok tt (woken k)
unfolding rcv_msg
rcv_msg-woken k s none_yet = ground arith

IsSound-woken : (k : Kernel) → IsSound k → IsSound (woken k)
IsSound-woken k s = record {
  unlocked = ground (arith, s.unlocked);
  counted = s.counted;
  bounded = s.bounded;
}

-- If more operations come in than the buffer has room for while memory is given and no request is
-- waiting, they are all taken, and the round that the next request wakes is undefined where the
-- socket buffer is given.
pub add_all-undefined :
    (w : Writer) (es : List Event) (k : Kernel) (a : Answers)
    → IsSound k
    → k.msg_ready ≡ 0
    → max_msg_buf_len < length k.msg_buf + length es
    → a.skb ≡ true
    → (k1 : Kernel) × (k2 : Kernel) × (add_all w es k ≡ ok tt k1)
      × (rcv_msg true (codes "ACK") k1 ≡ ok tt k2)
      × (send_round false a k2 ≡ undefined)
add_all-undefined w es k a s quiet many given =
    let (k1, run, h, out, ready) = add_all_lem w es k s in
    let spilled : ltb 0 (excess (k.msg_buf ++ map to_msg es)) ≡ true =
      ground (arith, length-append k.msg_buf (map to_msg es), length-map es to_msg, many) in
    let due : k1.file_on ≡ 1 = (rw spilled at h.flagged) in
    (
      k1,
      woken k1,
      run,
      rcv_msg-woken k1 h.sound (ready ∙ quiet),
      send_round-file_on a (woken k1) (IsSound-woken k1 h.sound) (omega arith) (omega (arith, due))
          ∙ rw given,
    )
