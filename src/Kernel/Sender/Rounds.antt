-- ===== src/Kernel/Sender/Rounds.antt =====
-- What one round of `send_func` does, on each branch, and what it keeps.
use everyfile.Prelude.{
  ℕ, ◌≤◌, refl, ap, inl, inr, Bool-cases, ◌≡◌, ◌≢◌, Bool, true, false, ◌&&◌, List, [], ◌∷◌, ◌++◌,
  arith, length, not, ◌==◌, if◌then◌else◌,
}
use everyfile.Kernel.State.{Msg, Kernel, Run, ok, undefined, deadlock}
use everyfile.Kernel.Buffer.{encode}
use everyfile.Kernel.Buffer.Sound.{IsSound}
use everyfile.Kernel.Sender.{Answers, send_rest, send_round}

-- Whether the text reaches the socket.
abbrev pub is_sent : Answers → Bool
is_sent a = a.skb && a.header && a.accepted

-- What the buffer's first message leads to.
abbrev first_outcome : Answers → Kernel → List Msg → Run (Unit {0})
first_outcome a k [] = ok tt k
first_outcome a k (m ∷ rest) =
    if a.skb && a.header && not a.flag
    then undefined
    else ok tt (record k {
      msg_buf = rest;
      msg_buf_size = length rest;
      outbox = if is_sent a then k.outbox ++ encode m ∷ [] else k.outbox;
    })

-- What the rest of a round leads to, without its locks and its calls.
unfoldable pub rest_outcome : Answers → Kernel → Run (Unit {0})
rest_outcome a k =
    if k.file_on == 0
    then first_outcome a k k.msg_buf
    else if a.skb
    then undefined
    else ok tt (record k { pos = 0; file_on = 0 })

abbrev goes_on : Run (Unit {0}) → Run Bool
goes_on (ok _ k) = ok true k
goes_on undefined = undefined
goes_on deadlock = deadlock

-- What a round leads to.
unfoldable pub round_outcome : (stop : Bool) → Answers → Kernel → Run Bool
unfolding rest_outcome
round_outcome stop a k =
    if stop
    then ok false (record k { running = false })
    else goes_on (rest_outcome a (record k { running = k.msg_ready == 0; msg_ready = 0 }))

-- A state that a round leads to is sound, and its list is not longer.
abbrev pub LeavesSound : ℕ → Run (Unit {0}) → Type 0
LeavesSound n (ok _ k) = IsSound k × (length k.msg_buf ≤ n)
LeavesSound n undefined = Unit {0}
LeavesSound n deadlock = Unit {0}

LeavesSound-first :
    (a : Answers) (k : Kernel) (ms : List Msg)
    → IsSound k
    → k.msg_buf ≡ ms
    → LeavesSound (length k.msg_buf) (first_outcome a k ms)
LeavesSound-first a k [] s e = (s, omega arith)
LeavesSound-first a k (m ∷ rest) s e = elim (Bool-cases (a.skb && a.header && not a.flag)) [
  | inl starved ↦ rw starved tt
  | inr given ↦ rw given (
    record {
      unlocked = ground (arith, s.unlocked);
      counted = refl;
      bounded = omega (arith, ap length e, s.bounded);
    },
    omega (arith, ap length e),
  )
]

pub LeavesSound-rest :
    (a : Answers) (k : Kernel) → IsSound k → LeavesSound (length k.msg_buf) (rest_outcome a k)
unfolding rest_outcome
LeavesSound-rest a k s = elim (Bool-cases (k.file_on == 0)) [
  | inl quiet ↦ rw quiet (LeavesSound-first a k k.msg_buf s refl)
  | inr due ↦ elim (Bool-cases a.skb) [
    | inl given ↦ rw (due, given) tt
    | inr refused ↦
        rw (due, refused)
          (
            record {
              unlocked = ground (arith, s.unlocked);
              counted = s.counted;
              bounded = s.bounded;
            },
            omega arith,
          )
  ]
]

module _ (a : Answers) (k : Kernel) (s : IsSound k) where
  -- A requested round with a message in the buffer, no notice due and memory for the flag removes
  -- the oldest message whether or not the socket takes it; if it does, its text is the next one
  -- sent.
  pub send_round-cons :
      (m : Msg) (rest : List Msg)
      → k.msg_ready ≢ 0
      → k.file_on ≡ 0
      → k.msg_buf ≡ m ∷ rest
      → a.flag ≡ true
      → send_round false a k
        ≡ ok true (record k {
          running = false;
          msg_ready = 0;
          msg_buf = rest;
          msg_buf_size = length rest;
          outbox = if is_sent a then k.outbox ++ encode m ∷ [] else k.outbox;
        })
  unfolding send_round
  send_round-cons m rest ready quiet e room = ground arith

  pub send_round-nil :
      k.msg_ready ≢ 0
      → k.file_on ≡ 0
      → k.msg_buf ≡ []
      → send_round false a k ≡ ok true (record k { running = false; msg_ready = 0 })
  unfolding send_round
  send_round-nil ready quiet e = ground arith

  -- A requested round with a notice due is undefined where the socket buffer is given; otherwise
  -- it drops the notice and resets the position.
  pub send_round-file_on :
      k.msg_ready ≢ 0
      → k.file_on ≢ 0
      → send_round false a k ≡ (
          if a.skb
          then undefined
          else ok true (record k { running = false; msg_ready = 0; pos = 0; file_on = 0 }))
  unfolding send_round
  send_round-file_on ready due = ground arith

  pub send_rest_lem : send_rest a k ≡ rest_outcome a k
  unfolding send_rest rest_outcome
  send_rest_lem = ground arith

  -- From a sound state, each round of the sending thread in which nothing else runs has the
  -- outcome that round_outcome gives, which has no locks and no calls: a thread that is told to
  -- stop stops; without a request it sleeps and then serves as with one, so that the state behind
  -- differs only in the thread's flag; with a notice due and a socket buffer given, the round is
  -- undefined; with a notice due and no buffer given, the notice and the position are reset; with
  -- no message, only the request is taken; otherwise the oldest message leaves the list whether or
  -- not the socket takes it, its text is sent exactly if every answer allows it, and the round is
  -- undefined if only the memory for the flag is missing.
  pub send_round_lem : (stop : Bool) → send_round stop a k ≡ round_outcome stop a k
  unfolding send_round round_outcome
  send_round_lem stop = ground arith
