-- ===== src/Session/Drained.antt =====
-- That every message that waits reaches the database.
use everyfile.Prelude.{
  ℕ, zero, suc, ◌+◌, ◌≤◌, ◌<◌, ◌≡◌, refl, sym, ap, ◌∙◌, ◌⊎◌, inl, inr, Bool, true, false,
  Bool-cases, some, List, [], ◌∷◌, ◌++◌, Bytes, arith, length, length-append, append-nil, ◌==◌, map,
}
use everyfile.Kernel.State.{Msg}
use everyfile.Kernel.Buffer.{encode, Writer}
use everyfile.Session.{World, Turn, send, listen, run}
use everyfile.Session.Delivery.{View, passed, next, Matches}
use everyfile.Session.Schedule.{
  at_end, calls_said, Fits, reported, first, heard, flow, flow-send, flow-listen, heard-flow,
  run-Follows,
}

-- `n` times two turns of the sending thread and a round of the daemon.
abbrev pub drain : ℕ → List Turn
drain zero = []
drain (suc n) = send ∷ send ∷ listen ∷ drain n

-- All is read, or a message is on its way.
abbrev Served : View → Type 0
Served v = (v.sent ++ v.waiting ≡ []) ⊎ (0 < length v.sent)

served_of : (ms : List Msg) → (ms ++ [] ≡ []) ⊎ (0 < length ms)
served_of [] = inl refl
served_of (m ∷ ms) = inr (omega arith)

passed-Served : (v : View) (ms : List Msg) → Served (passed (record v { waiting = ms }) ms)
passed-Served v [] = served_of v.sent
passed-Served v (m ∷ ms) = inr (omega (arith, length-append v.sent (m ∷ [])))

send-Served :
    (asleep : Bool) (v : View) → Served v → Served (next (record v { asleep = asleep }) send)
send-Served true v h = passed-Served v v.waiting
send-Served false v h = elim (Bool-cases (v.ready == 0)) [
  | inl quiet ↦ rw quiet h
  | inr more ↦ rw more (passed-Served (record v { ready = 0 }) v.waiting)
]

sends-Served :
    (asleep : Bool) (v : View) → Served (next (next (record v { asleep = asleep }) send) send)
sends-Served true v = send-Served _ (passed v v.waiting) (passed-Served v v.waiting)
sends-Served false v = elim (Bool-cases (v.ready == 0)) [
  | inl quiet ↦ rw quiet (passed-Served v v.waiting)
  | inr more ↦ rw more (
      send-Served _ (passed (record v { ready = 0 }) v.waiting)
        (passed-Served (record v { ready = 0 }) v.waiting))
]

length-first : (ms : List Msg) → 0 < length ms → length (first ms) ≡ 1
length-first [] h = absurd (omega (arith, h))
length-first (m ∷ ms) h = omega arith

no_length : (ms : List Msg) → length ms ≤ 0 → ms ≡ []
no_length [] h = refl
no_length (m ∷ ms) h = absurd (omega (arith, h))

-- Three turns read a message.
drain-less :
    (n : ℕ) (v : View)
    → length (v.sent ++ v.waiting) ≤ suc n
    → length (flow [] (next (next (next v send) send) listen)) ≤ n
drain-less n v h =
    let u = next (next v send) send in
    let same : length (u.sent ++ u.waiting) ≡ length (v.sent ++ v.waiting) =
      ap length (flow-send (next v send).asleep (next v send) ∙ flow-send v.asleep v) in
    let parts : length (first u.sent) + length (flow [] (next u listen))
        ≡ length (u.sent ++ u.waiting) =
      sym (length-append (first u.sent) (flow [] (next u listen)))
      ∙ ap length (flow-listen u u.sent) in
    elim (sends-Served v.asleep v) [
      | inl none_left ↦ omega (arith, parts, ap length none_left)
      | inr some_sent ↦ omega (arith, parts, same, h, length-first u.sent some_sent)
    ]

drain-empty :
    (n : ℕ) (v : View) → length (v.sent ++ v.waiting) ≤ n → flow [] (at_end v (drain n)) ≡ []
drain-empty zero v h = no_length (v.sent ++ v.waiting) h
drain-empty (suc n) v h = drain-empty n (next (next (next v send) send) listen) (drain-less n v h)

reported-drain : (n : ℕ) → reported (drain n) ≡ []
reported-drain zero = refl
reported-drain (suc n) = reported-drain n

drain-Fits : (n : ℕ) (v : View) → Fits v (drain n)
unfolding Fits
drain-Fits zero v = tt
drain-Fits (suc n) v = (tt, (tt, (tt, drain-Fits n (next (next (next v send) send) listen))))

both_empty : (ms ns : List Msg) → ms ++ ns ≡ [] → (ms ≡ []) × (ns ≡ [])
both_empty [] ns h = (refl, h)
both_empty (m ∷ ms) ns h = absurd (omega (arith, ap length h))

-- From a state with the locks free, the counter right and no notice of an overflow due, whose
-- messages in the buffer and on the socket are those of v and readable, let two turns of the
-- sending thread and a round of the daemon follow one another n times, with n not less than the
-- number of these messages, while memory is given and the sockets take what is sent, whatever
-- requests wait, whether the thread sleeps, and whatever bytes follow ACK in the memory of a
-- request: every turn goes well, the daemon reads all of the messages, in their order, and has
-- made the calls of them, and nothing is left in the buffer or on the socket.
pub drain-delivers :
    (w : Writer) (junk : Bytes) (clock : ℕ → ℕ) (n : ℕ) (s : World) (v : View)
    → Matches s v
    → length (v.sent ++ v.waiting) ≤ n
    → (u : World) × (run w junk clock 0 (drain n) s ≡ some u)
      × (u.daemon.calls ≡ s.daemon.calls ++ calls_said clock 0 v (drain n))
      × (heard v (drain n) ≡ v.sent ++ v.waiting)
      × (u.kernel.msg_buf ≡ [])
      × (u.kernel.outbox ≡ [])
drain-delivers w junk clock n s v h few =
    let (u, ran, f) = run-Follows w junk clock 0 (drain n) s v h (drain-Fits n v) in
    let over = at_end v (drain n) in
    let none_left = drain-empty n v few in
    let all_heard : heard v (drain n) ≡ v.sent ++ v.waiting =
      sym (append-nil (heard v (drain n)))
      ∙ ap (λ ms. heard v (drain n) ++ ms) (sym none_left)
      ∙ heard-flow v (drain n)
      ∙ ap (λ ms. (v.sent ++ v.waiting) ++ ms) (reported-drain n)
      ∙ append-nil (v.sent ++ v.waiting) in
    let (none_sent, none_waiting) = both_empty over.sent over.waiting none_left in
    (
      u,
      ran,
      f.calls,
      all_heard,
      f.matches.waiting ∙ none_waiting,
      f.matches.sent ∙ ap (map encode) none_sent,
    )
