-- ===== src/Session/Delivery.antt =====
-- One turn of the session, next to what it means for queues of messages.
use everyfile.Prelude.{
  ℕ, ◌≤◌, ◌<◌, ◌≡◌, ◌∙◌, Bool, true, false, some, List, [], ◌∷◌, ◌++◌, Bytes, arith, length, map,
  take_of_le, IsText, append-nil, ◌==◌, if◌then◌else◌, All,
}
use everyfile.Kernel.State.{Msg, inc32}
use everyfile.Kernel.Buffer.{max_msg_buf_len, encode, Writer}
use everyfile.Kernel.Buffer.Sound.{IsSound}
use everyfile.Kernel.Buffer.History.{to_msg}
use everyfile.Scan.Info.{ereg, edir}
use everyfile.Daemon.Message.{Call, add, rm, fill, kind, name_of, handle}
use everyfile.Daemon.Message.Decode.{path_room, decode-encode}
use everyfile.Daemon.Loop.{Daemon, receive}
use everyfile.Session.{World, Turn, report, send, listen, step}

-- A message that the daemon can read: a number of one digit, and a path that fits its field.
pub record IsReadable (m : Msg) : Type 0 where
  pub whole : m.len ≡ length m.path
  pub clean : IsText m.path
  pub fits : length m.path ≤ path_room
  pub one_digit : m.flags < 10

-- What an operation means for the database: files and directories come and go; links and numbers
-- that are not assigned mean nothing.
abbrev pub calls_of : (now : ℕ) → Msg → List Call
calls_of now m =
    if m.flags == 1
    then add (record { file_name = m.path; file_type = ereg; file_time = now }) ∷ []
    else if m.flags == 2
    then rm m.path ∷ []
    else if m.flags == 3
    then add (record { file_name = m.path; file_type = edir; file_time = now }) ∷ []
    else if m.flags == 4
    then rm m.path ∷ []
    else if m.flags == 6
    then add (record { file_name = m.path; file_type = ereg; file_time = now }) ∷ []
    else []

pub receive-encode :
    (now : ℕ) (m : Msg) (d : Daemon)
    → IsReadable m
    → (receive now (encode m) d).calls ≡ d.calls ++ calls_of now m
unfolding receive handle
receive-encode now m d r =
    let (number, name) = decode-encode m r.whole r.clean in
    let digit : kind (fill (encode m)) ≡ m.flags = omega (arith, number) in
    let path : name_of (fill (encode m)) ≡ m.path = name ∙ take_of_le path_room m.path r.fits in
    ground (arith, digit, path, append-nil d.calls)

-- The requests that wait, whether the thread sleeps, and the messages on the socket and in the buffer,
-- the oldest ones first.
pub record View : Type 0 where
  pub asleep : Bool
  pub ready : ℕ
  pub sent : List Msg
  pub waiting : List Msg

-- The oldest message goes to the socket.
abbrev pub passed : View → List Msg → View
passed v [] = record v { asleep = false }
passed v (m ∷ rest) = record v { asleep = false; sent = v.sent ++ m ∷ []; waiting = rest }

-- A thread that slept serves, and so does one that finds a request; another falls asleep.
abbrev pub sent_on : View → View
sent_on v =
    if v.asleep
    then passed v v.waiting
    else if v.ready == 0
    then record v { asleep = true }
    else passed (record v { ready = 0 }) v.waiting

abbrev tail : List Msg → List Msg
tail [] = []
tail (m ∷ ms) = ms

abbrev pub next : View → Turn → View
next v (report e) = record v { waiting = v.waiting ++ to_msg e ∷ [] }
next v send = sent_on v
next v listen = record v { ready = inc32 v.ready; sent = tail v.sent }

abbrev pub first_calls : (now : ℕ) → List Msg → List Call
first_calls now [] = []
first_calls now (m ∷ ms) = calls_of now m

-- The calls that the daemon makes of the message that it reads.
abbrev pub said : (now : ℕ) → View → Turn → List Call
said now v (report e) = []
said now v send = []
said now v listen = first_calls now v.sent

-- A report comes when fewer than 128 messages wait, and is readable.
abbrev pub Room : View → Turn → Type 0
Room v (report e) = (length v.waiting < max_msg_buf_len) × IsReadable (to_msg e)
Room v send = Unit {0}
Room v listen = Unit {0}

-- The module and the socket hold the messages of the view, and no notice is due.
pub record Matches (s : World) (v : View) : Type 0 where
  pub sound : IsSound s.kernel
  pub no_notice : s.kernel.file_on ≡ 0
  pub asleep : s.asleep ≡ v.asleep
  pub ready : s.kernel.msg_ready ≡ v.ready
  pub sent : s.kernel.outbox ≡ map encode v.sent
  pub waiting : s.kernel.msg_buf ≡ v.waiting
  pub sent_readable : All IsReadable v.sent
  pub waiting_readable : All IsReadable v.waiting

-- What does not change, and the calls that have been made.
pub record Follows (s t : World) (v : View) (made : List Call) : Type 0 where
  pub matches : Matches t v
  pub same_parts : t.kernel.partitions ≡ s.kernel.partitions
  pub same_log : t.kernel.log_file ≡ s.kernel.log_file
  pub same_pos : t.kernel.pos ≡ s.kernel.pos
  pub calls : t.daemon.calls ≡ s.daemon.calls ++ made

abbrev pub Goes : Writer → (junk : Bytes) → (now : ℕ) → Turn → World → View → Type 0
Goes w junk now t s v =
    (u : World) × (step w junk now t s ≡ some u) × Follows s u (next v t) (said now v t)
