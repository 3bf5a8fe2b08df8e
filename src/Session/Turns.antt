-- ===== src/Session/Turns.antt =====
-- Every turn goes well, and does what it means for the queues.
use everyfile.Prelude.{
  same_text, until_nul, ◌||◌, if◌then◌else◌, ◌<◌, ℕ, ◌+◌, ◌≡◌, refl, sym, ap, ◌∙◌, true, List, [],
  ◌∷◌, ◌++◌, Bytes, arith, length, length-append, map, append-nil, codes, All, All-append,
}
use everyfile.Kernel.State.{Msg, Kernel, ok, inc32}
use everyfile.Kernel.Buffer.{max_msg_buf_len, encode, Writer}
use everyfile.Kernel.Buffer.Sound.{IsSound, add_vfs_changed-append}
use everyfile.Kernel.Buffer.History.{Event, to_msg}
use everyfile.Kernel.Sender.{rcv_msg}
use everyfile.Daemon.Loop.{Daemon, receive, round}
use everyfile.Session.{World, Turn, report, send, listen, listen_turn, step}
use everyfile.Session.Delivery.{IsReadable, receive-encode, View, Room, Matches, Goes}
use everyfile.Session.Sending.{send-Goes}

-- A request is counted, and wakes the thread if its text is followed by a zero.
abbrev asked : (junk : Bytes) → Kernel → Kernel
asked junk k = record k {
  msg_ready = inc32 k.msg_ready;
  running =
      if same_text (until_nul (codes "ACK" ++ junk)) (codes "SYN")
        || same_text (until_nul (codes "ACK" ++ junk)) (codes "ACK")
      then true
      else k.running;
}

rcv_msg-asked :
    (junk : Bytes) (k : Kernel)
    → IsSound k
    → rcv_msg true (codes "ACK" ++ junk) k ≡ ok tt (asked junk k)
unfolding rcv_msg
rcv_msg-asked junk k s = ground (arith, s.unlocked)

module _ (w : Writer) (junk : Bytes) (now : ℕ) where
  report-Goes :
      (e : Event) (s : World) (v : View)
      → Matches s v
      → Room v (report e)
      → Goes w junk now (report e) s v
  unfolding step
  report-Goes e s v h r =
      let room : length s.kernel.msg_buf < max_msg_buf_len =
        omega (arith, ap length h.waiting, r.0) in
      (
        record s {
          kernel = record s.kernel {
            msg_buf = s.kernel.msg_buf ++ to_msg e ∷ [];
            msg_buf_size = s.kernel.msg_buf_size + 1;
          };
        },
        rw (add_vfs_changed-append w true e.fl_path e.path_len e.flags s.kernel h.sound room) refl,
        record {
          matches = record {
            sound = record {
              unlocked = ground (arith, h.sound.unlocked);
              counted =
                  omega (arith, h.sound.counted, length-append s.kernel.msg_buf (to_msg e ∷ []));
              bounded = omega (arith, room, length-append s.kernel.msg_buf (to_msg e ∷ []));
            };
            no_notice = h.no_notice;
            asleep = h.asleep;
            ready = h.ready;
            sent = h.sent;
            waiting = ap (λ ms. ms ++ to_msg e ∷ []) h.waiting;
            sent_readable = h.sent_readable;
            waiting_readable =
                All-append IsReadable v.waiting (to_msg e ∷ []) h.waiting_readable (r.1, tt);
          };
          same_parts = refl;
          same_log = refl;
          same_pos = refl;
          calls = sym (append-nil s.daemon.calls);
        },
      )

  asked-Matches :
      (s : World) (k : Kernel) (ms : List Msg) (d : Daemon) (v : View) {old : List Msg}
      → Matches s (record v { sent = old })
      → IsSound k
      → k.file_on ≡ s.kernel.file_on
      → k.msg_ready ≡ s.kernel.msg_ready
      → k.msg_buf ≡ s.kernel.msg_buf
      → k.outbox ≡ map encode ms
      → All IsReadable ms
      → Matches
          (record { asleep = s.asleep; kernel = asked junk k; daemon = d })
          (record v { ready = inc32 v.ready; sent = ms })
  asked-Matches s k ms d v h sound quiet ready held on_way readable = record {
    sound = record {
      unlocked = ground (arith, sound.unlocked);
      counted = sound.counted;
      bounded = sound.bounded;
    };
    no_notice = quiet ∙ h.no_notice;
    asleep = h.asleep;
    ready = ap inc32 (ready ∙ h.ready);
    sent = on_way;
    waiting = held ∙ h.waiting;
    sent_readable = readable;
    waiting_readable = h.waiting_readable;
  }

  -- The daemon's round reads the oldest message, and ends in a request.
  listen-Goes :
      (s : World) (v : View) (ms : List Msg)
      → Matches s (record v { sent = ms })
      → Goes w junk now listen s (record v { sent = ms })
  unfolding step round
  listen-Goes s v [] h = (
    record {
      asleep = s.asleep;
      kernel = asked junk s.kernel;
      daemon = record s.daemon { requests = s.daemon.requests + 1 };
    },
    ap (listen_turn junk now s.asleep s.kernel s.daemon) h.sent
        ∙ rw (rcv_msg-asked junk s.kernel h.sound) refl,
    record {
      matches =
          asked-Matches s s.kernel [] (record s.daemon { requests = s.daemon.requests + 1 }) v h
            h.sound refl refl refl h.sent tt;
      same_parts = refl;
      same_log = refl;
      same_pos = refl;
      calls = sym (append-nil s.daemon.calls);
    },
  )
  listen-Goes s v (m ∷ rest) h =
      let got = receive now (encode m) s.daemon in
      let read = record s.kernel { outbox = map encode rest } in
      let d = record got { requests = got.requests + 1 } in
      let sound : IsSound read = record {
        unlocked = ground (arith, h.sound.unlocked);
        counted = h.sound.counted;
        bounded = h.sound.bounded;
      } in
      (
        record { asleep = s.asleep; kernel = asked junk read; daemon = d },
        ap (listen_turn junk now s.asleep s.kernel s.daemon) h.sent
            ∙ rw (rcv_msg-asked junk read sound) refl,
        record {
          matches = asked-Matches s read rest d v h sound refl refl refl refl h.sent_readable.1;
          same_parts = refl;
          same_log = refl;
          same_pos = refl;
          calls = receive-encode now m s.daemon h.sent_readable.0;
        },
      )

  pub step-Goes : (t : Turn) (s : World) (v : View) → Matches s v → Room v t → Goes w junk now t s v
  step-Goes (report e) s v h r = report-Goes e s v h r
  step-Goes send s v h r = send-Goes w junk now s.asleep v.asleep s.kernel s.daemon v h
  step-Goes listen s v h r = listen-Goes s v v.sent h
