-- ===== src/Session/Sending.antt =====
-- A turn of the sending thread goes well, and does what it means for the queues.
use everyfile.Prelude.{
  ◌≢◌, ℕ, ◌≡◌, refl, sym, ap, ◌∙◌, Bool, true, false, inl, inr, Bool-cases, some, List, [], ◌∷◌,
  ◌++◌, Bytes, arith, length, map, append-nil, ◌==◌, All-append,
}
use everyfile.Kernel.State.{Msg, Kernel, ok, pure, ◌>>◌}
use everyfile.Kernel.Buffer.{encode, Writer}
use everyfile.Kernel.Buffer.Sound.{IsSound}
use everyfile.Kernel.Sender.{requested, sleeping, send_begin, send_rest}
use everyfile.Kernel.Sender.Rounds.{rest_outcome, send_rest_lem}
use everyfile.Daemon.Loop.{Daemon}
use everyfile.Session.{all_well, World, send, settle, step}
use everyfile.Session.Delivery.{IsReadable, View, passed, Matches, Follows, Goes}

map-snoc :
    {A B : Type 0} (f : A → B) (xs : List A) (x : A) → map f (xs ++ x ∷ []) ≡ map f xs ++ f x ∷ []
map-snoc f [] x = refl
map-snoc f (y ∷ xs) x = ap (λ ys. f y ∷ ys) (map-snoc f xs x)

send_rest-nil :
    (k : Kernel) → IsSound k → k.file_on ≡ 0 → k.msg_buf ≡ [] → send_rest all_well k ≡ ok tt k
unfolding rest_outcome
send_rest-nil k s quiet e = send_rest_lem all_well k s ∙ rw (quiet, e) refl

send_rest-cons :
    (k : Kernel) (m : Msg) (rest : List Msg)
    → IsSound k
    → k.file_on ≡ 0
    → k.msg_buf ≡ m ∷ rest
    → send_rest all_well k
      ≡ ok tt (record k {
        msg_buf = rest;
        msg_buf_size = length rest;
        outbox = k.outbox ++ encode m ∷ [];
      })
unfolding rest_outcome
send_rest-cons k m rest s quiet e = send_rest_lem all_well k s ∙ rw (quiet, e) refl

send_rest-held :
    (k : Kernel)
    → k.sl_msg ≡ false
    → send_rest all_well (record k { sl_msg = true }) ≡ send_rest all_well k
unfolding send_rest
send_rest-held k free = ap (λ b. send_rest all_well (record k { sl_msg = b })) (sym free)

send_begin-asleep :
    (k : Kernel)
    → IsSound k
    → k.msg_ready ≡ 0
    → send_begin false k ≡ ok sleeping (record k { running = false })
unfolding send_begin
send_begin-asleep k s none_yet = ground (arith, s.unlocked)

send_begin-requested :
    (k : Kernel)
    → IsSound k
    → k.msg_ready ≢ 0
    → send_begin false k ≡ ok requested (record k { running = false; msg_ready = 0; sl_msg = true })
unfolding send_begin
send_begin-requested k s some_came = ground (arith, s.unlocked)

-- The thread serves the oldest message that waits.
serve-Follows :
    (k : Kernel) (d : Daemon) (v : View) (ms : List Msg)
    → Matches (record { asleep = v.asleep; kernel = k; daemon = d }) (record v { waiting = ms })
    → (u : World) × (settle false d ((do send_rest all_well; pure true) k) ≡ some u)
      × Follows
          (record { asleep = v.asleep; kernel = k; daemon = d })
          u
          (passed (record v { waiting = ms }) ms)
          []
serve-Follows k d v [] h = (
  record { asleep = false; kernel = k; daemon = d },
  rw (send_rest-nil k h.sound h.no_notice h.waiting) refl,
  record {
    matches = record {
      sound = h.sound;
      no_notice = h.no_notice;
      asleep = refl;
      ready = h.ready;
      sent = h.sent;
      waiting = h.waiting;
      sent_readable = h.sent_readable;
      waiting_readable = h.waiting_readable;
    };
    same_parts = refl;
    same_log = refl;
    same_pos = refl;
    calls = sym (append-nil d.calls);
  },
)
serve-Follows k d v (m ∷ rest) h = (
  record {
    asleep = false;
    kernel = record k {
      msg_buf = rest;
      msg_buf_size = length rest;
      outbox = k.outbox ++ encode m ∷ [];
    };
    daemon = d;
  },
  rw (send_rest-cons k m rest h.sound h.no_notice h.waiting) refl,
  record {
    matches = record {
      sound = record {
        unlocked = ground (arith, h.sound.unlocked);
        counted = refl;
        bounded = omega (arith, ap length h.waiting, h.sound.bounded);
      };
      no_notice = h.no_notice;
      asleep = refl;
      ready = h.ready;
      sent = ap (λ ts. ts ++ encode m ∷ []) h.sent ∙ sym (map-snoc encode v.sent m);
      waiting = refl;
      sent_readable =
          All-append IsReadable v.sent (m ∷ []) h.sent_readable (h.waiting_readable.0, tt);
      waiting_readable = h.waiting_readable.1;
    };
    same_parts = refl;
    same_log = refl;
    same_pos = refl;
    calls = sym (append-nil d.calls);
  },
)

true≢false : ¬ (true ≡ false)
true≢false h = cc

module _ (w : Writer) (junk : Bytes) (now : ℕ) where
  -- The thread is in `schedule_timeout`, and serves when it wakes.
  woken-Goes :
      (k : Kernel) (d : Daemon) (v : View)
      → Matches (record { asleep = true; kernel = k; daemon = d }) (record v { asleep = true })
      → Goes w junk now send
          (record { asleep = true; kernel = k; daemon = d })
          (record v { asleep = true })
  unfolding step
  woken-Goes k d v h =
      let up = record k { running = true } in
      let (u, went, f) =
        serve-Follows up d (record v { asleep = true }) v.waiting
          (record {
            sound = record {
              unlocked = ground (arith, h.sound.unlocked);
              counted = h.sound.counted;
              bounded = h.sound.bounded;
            };
            no_notice = h.no_notice;
            asleep = refl;
            ready = h.ready;
            sent = h.sent;
            waiting = h.waiting;
            sent_readable = h.sent_readable;
            waiting_readable = h.waiting_readable;
          }) in
      (
        u,
        went,
        record {
          matches = f.matches;
          same_parts = f.same_parts;
          same_log = f.same_log;
          same_pos = f.same_pos;
          calls = f.calls;
        },
      )

  -- The thread is at the head of its loop, where it finds no request.
  idle-Goes :
      (k : Kernel) (d : Daemon) (v : View)
      → Matches (record { asleep = false; kernel = k; daemon = d }) (record v { asleep = false })
      → v.ready ≡ 0
      → Goes w junk now send
          (record { asleep = false; kernel = k; daemon = d })
          (record v { asleep = false })
  unfolding step
  idle-Goes k d v h none_yet = (
    record { asleep = true; kernel = record k { running = false }; daemon = d },
    rw (send_begin-asleep k h.sound (h.ready ∙ none_yet)) refl,
    rw none_yet (record {
      matches = record {
        sound = record {
          unlocked = ground (arith, h.sound.unlocked);
          counted = h.sound.counted;
          bounded = h.sound.bounded;
        };
        no_notice = h.no_notice;
        asleep = refl;
        ready = h.ready ∙ none_yet;
        sent = h.sent;
        waiting = h.waiting;
        sent_readable = h.sent_readable;
        waiting_readable = h.waiting_readable;
      };
      same_parts = refl;
      same_log = refl;
      same_pos = refl;
      calls = sym (append-nil d.calls);
    }),
  )

  -- The thread is at the head of its loop, where it finds a request.
  requested-Goes :
      (k : Kernel) (d : Daemon) (v : View)
      → Matches (record { asleep = false; kernel = k; daemon = d }) (record v { asleep = false })
      → v.ready ≢ 0
      → Goes w junk now send
          (record { asleep = false; kernel = k; daemon = d })
          (record v { asleep = false })
  unfolding step
  requested-Goes k d v h some_came =
      let at = record k { running = false; msg_ready = 0 } in
      let (u, went, f) =
        serve-Follows at d (record v { asleep = false; ready = 0 }) v.waiting
          (record {
            sound = record {
              unlocked = ground (arith, h.sound.unlocked);
              counted = h.sound.counted;
              bounded = h.sound.bounded;
            };
            no_notice = h.no_notice;
            asleep = refl;
            ready = refl;
            sent = h.sent;
            waiting = h.waiting;
            sent_readable = h.sent_readable;
            waiting_readable = h.waiting_readable;
          }) in
      let other : (v.ready == 0) ≡ false = ground (arith, some_came) in
      (
        u,
        rw (send_begin-requested k h.sound (λ none_yet. some_came (sym h.ready ∙ none_yet)))
            (rw (send_rest-held at (ground (arith, h.sound.unlocked))) went),
        rw other (record {
          matches = f.matches;
          same_parts = f.same_parts;
          same_log = f.same_log;
          same_pos = f.same_pos;
          calls = f.calls;
        }),
      )

  pub send-Goes :
      (asleep sleeps : Bool) (k : Kernel) (d : Daemon) (v : View)
      → Matches (record { asleep = asleep; kernel = k; daemon = d }) (record v { asleep = sleeps })
      → Goes w junk now send
          (record { asleep = asleep; kernel = k; daemon = d })
          (record v { asleep = sleeps })
  send-Goes true true k d v h = woken-Goes k d v h
  send-Goes false false k d v h = elim (Bool-cases (v.ready == 0)) [
    | inl zero ↦ idle-Goes k d v h (ground (arith, zero))
    | inr more ↦ requested-Goes k d v h (ground (arith, more))
  ]
  send-Goes true false k d v h = absurd (true≢false h.asleep)
  send-Goes false true k d v h = absurd (true≢false (sym h.asleep))
