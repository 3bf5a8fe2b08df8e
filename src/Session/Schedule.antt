-- ===== src/Session/Schedule.antt =====
-- Turns in any order, next to queues of messages.
use everyfile.Prelude.{
  Bool, true, false, inl, inr, Bool-cases, ◌==◌, ℕ, ◌≡◌, refl, sym, ap, ◌∙◌, some, List, [], ◌∷◌,
  ◌++◌, Bytes, append_assoc, append-nil,
}
use everyfile.Kernel.State.{Msg}
use everyfile.Kernel.Buffer.{Writer}
use everyfile.Kernel.Buffer.History.{to_msg}
use everyfile.Daemon.Message.{Call}
use everyfile.Session.{tick, World, Turn, report, send, listen, run}
use everyfile.Session.Delivery.{View, passed, next, said, Room, Matches, Follows}
use everyfile.Session.Turns.{step-Goes}

-- The queues at the end, and the calls of the daemon.
abbrev pub at_end : View → List Turn → View
at_end v [] = v
at_end v (t ∷ turns) = at_end (next v t) turns

abbrev pub calls_said : (clock : ℕ → ℕ) → ℕ → View → List Turn → List Call
calls_said clock i v [] = []
calls_said clock i v (t ∷ turns) =
    said (clock i) v t ++ calls_said clock (tick t i) (next v t) turns

-- Every report is readable, and comes when fewer than 128 messages wait.
unfoldable pub Fits : View → List Turn → Type 0
Fits v [] = Unit {0}
Fits v (t ∷ turns) = Room v t × Fits (next v t) turns

-- The messages of the reports, and those that the daemon reads, in order.
abbrev pub reported : List Turn → List Msg
reported [] = []
reported (report e ∷ turns) = to_msg e ∷ reported turns
reported (send ∷ turns) = reported turns
reported (listen ∷ turns) = reported turns

abbrev pub first : List Msg → List Msg
first [] = []
first (m ∷ ms) = m ∷ []

abbrev pub read_in : View → Turn → List Msg
read_in v (report e) = []
read_in v send = []
read_in v listen = first v.sent

abbrev pub heard : View → List Turn → List Msg
heard v [] = []
heard v (t ∷ turns) = read_in v t ++ heard (next v t) turns

-- What has been read, is on its way, and waits.
abbrev pub flow : List Msg → View → List Msg
flow read v = read ++ (v.sent ++ v.waiting)

flow-passed :
    (v : View) (ms : List Msg)
    → flow [] (passed (record v { waiting = ms }) ms) ≡ flow [] (record v { waiting = ms })
flow-passed v [] = refl
flow-passed v (m ∷ ms) = append_assoc v.sent (m ∷ []) ms

pub flow-send :
    (asleep : Bool) (v : View) → flow [] (next (record v { asleep = asleep }) send) ≡ flow [] v
flow-send true v = flow-passed v v.waiting
flow-send false v = elim (Bool-cases (v.ready == 0)) [
  | inl zero ↦ rw zero refl
  | inr more ↦ rw more (flow-passed (record v { ready = 0 }) v.waiting)
]

pub flow-listen :
    (v : View) (ms : List Msg)
    → flow (first ms) (next (record v { sent = ms }) listen) ≡ flow [] (record v { sent = ms })
flow-listen v [] = refl
flow-listen v (m ∷ ms) = refl

flow-next : (v : View) (t : Turn) → flow (read_in v t) (next v t) ≡ flow [] v ++ reported (t ∷ [])
flow-next v (report e) = sym (append_assoc v.sent v.waiting (to_msg e ∷ []))
flow-next v send = flow-send v.asleep v ∙ sym (append-nil (v.sent ++ v.waiting))
flow-next v listen = flow-listen v v.sent ∙ sym (append-nil (v.sent ++ v.waiting))

reported-cons :
    (t : Turn) (turns : List Turn) → reported (t ∷ turns) ≡ reported (t ∷ []) ++ reported turns
reported-cons (report e) turns = refl
reported-cons send turns = refl
reported-cons listen turns = refl

-- No message is lost, added or moved before another one.
pub heard-flow :
    (v : View) (turns : List Turn)
    → flow (heard v turns) (at_end v turns) ≡ flow [] v ++ reported turns
heard-flow v [] = sym (append-nil (v.sent ++ v.waiting))
heard-flow v (t ∷ turns) =
    let later = at_end (next v t) turns in
    append_assoc (read_in v t) (heard (next v t) turns) (later.sent ++ later.waiting)
    ∙ ap (λ ms. read_in v t ++ ms) (heard-flow (next v t) turns)
    ∙ sym (append_assoc (read_in v t) ((next v t).sent ++ (next v t).waiting) (reported turns))
    ∙ ap (λ ms. ms ++ reported turns) (flow-next v t)
    ∙ append_assoc (v.sent ++ v.waiting) (reported (t ∷ [])) (reported turns)
    ∙ ap (λ ms. (v.sent ++ v.waiting) ++ ms) (sym (reported-cons t turns))

module _ (w : Writer) (junk : Bytes) (clock : ℕ → ℕ) where
  -- The turns go well, and leave the queues and the calls of `v`.
  abbrev pub Serves : ℕ → List Turn → World → View → Type 0
  Serves i turns s v =
      (u : World) × (run w junk clock i turns s ≡ some u)
      × Follows s u (at_end v turns) (calls_said clock i v turns)

  pub run-Follows :
      (i : ℕ) (turns : List Turn) (s : World) (v : View)
      → Matches s v
      → Fits v turns
      → Serves i turns s v
  unfolding run Fits
  run-Follows i [] s v h f = (
    s,
    refl,
    record {
      matches = h;
      same_parts = refl;
      same_log = refl;
      same_pos = refl;
      calls = sym (append-nil s.daemon.calls);
    },
  )
  run-Follows i (t ∷ turns) s v h f =
      let (s1, went, g) = step-Goes w junk (clock i) t s v h f.0 in
      let (u, ran, k) = run-Follows (tick t i) turns s1 (next v t) g.matches f.1 in
      (
        u,
        rw went ran,
        record {
          matches = k.matches;
          same_parts = k.same_parts ∙ g.same_parts;
          same_log = k.same_log ∙ g.same_log;
          same_pos = k.same_pos ∙ g.same_pos;
          calls =
              k.calls
              ∙ ap (λ cs. cs ++ calls_said clock (tick t i) (next v t) turns) g.calls
              ∙ append_assoc s.daemon.calls (said (clock i) v t)
                  (calls_said clock (tick t i) (next v t) turns);
        },
      )

  -- From a state with the locks free, the counter right and no notice of an overflow due, whose
  -- messages in the buffer and on the socket are those of v and readable, let readable reports,
  -- none of them when 128 messages wait, turns of the sending thread and rounds of the daemon come
  -- in any order, one after another: the thread runs with a request or without one and sleeps and
  -- wakes at any time, and any bytes follow ACK in the memory of a request. While memory is given
  -- and the sockets take what is sent, every turn goes well; at the end the state is again such a
  -- one, of the queues that the turns make of v, in which a turn of the thread that finds a
  -- request or wakes moves the oldest waiting message to the socket; the partitions, the log file
  -- and its position are as before, and the database has got exactly the calls of the messages
  -- read, in their order and at the times of their rounds; and those read, those on the socket and
  -- those that wait are together the ones at the start and the reported ones, in order.
  pub run-Serves :
      (turns : List Turn) (s : World) (v : View)
      → Matches s v
      → Fits v turns
      → Serves 0 turns s v
        × (heard v turns ++ ((at_end v turns).sent ++ (at_end v turns).waiting)
            ≡ (v.sent ++ v.waiting) ++ reported turns)
  run-Serves turns s v h f = (run-Follows 0 turns s v h f, heard-flow v turns)
