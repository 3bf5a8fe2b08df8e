-- ===== src/Session/Search.antt =====
-- The kernel module, the daemon, the database and the command together: what an exact search finds.
use everyfile.Prelude.{
  inl, inr, Bool-cases, ℕ, suc, ◌^◌, ◌≤◌, ◌<◌, ◌≡◌, ◌≢◌, ◌∙◌, ap, Bool, true, false, some, List, [],
  ◌∷◌, ◌++◌, Bytes, All, All-append, arith, length, length-append, length-decimal, ten_to, decimal,
  get_or, codes, if◌then◌else◌, ◌==◌,
}
use everyfile.Kernel.State.{Msg}
use everyfile.Kernel.Buffer.{Writer}
use everyfile.Kernel.Buffer.History.{to_msg}
use everyfile.Scan.Info.{FileType, ereg, edir, type_number}
use everyfile.Daemon.Message.{add, rm}
use everyfile.Daemon.Message.Decode.{path_room}
use everyfile.Db.{query_size}
use everyfile.Db.Text.{insert_text, delete_text, exact_text}
use everyfile.Db.Sqlite.{Sqlite, IsPlain, IsLawful}
use everyfile.Db.Table.{open_db, run_calls, replay, run_calls-replay, open_db-row}
use everyfile.Db.Table
use everyfile.Command.{Opt, ran, main}
use everyfile.Command.Exact.{ReadsOptions}
use everyfile.Command.Answer.{present, answer, search-answer}
use everyfile.Session.{World, Turn, report, send, listen, run}
use everyfile.Session.Delivery.{IsReadable, calls_of, View, passed, next, first_calls, Matches}
use everyfile.Session.Schedule.{Fits, calls_said, heard, run-Follows}
use everyfile.Session.Mirror.{last_word, otherwise, calls_said-last_word}

-- A message about a path that statements can name.
pub record IsNamed (m : Msg) : Type 0 where
  pub readable : IsReadable m
  pub plain : IsPlain m.path
  pub one_slash : get_or m.path 1 0 ≢ b'/'

abbrev pub Named : List Turn → Type 0
Named [] = Unit {0}
Named (report e ∷ turns) = IsNamed (to_msg e) × Named turns
Named (send ∷ turns) = Named turns
Named (listen ∷ turns) = Named turns

-- The messages of the view are.
abbrev pub AreNamed : View → Type 0
AreNamed v = All IsNamed v.sent × All IsNamed v.waiting

AreNamed-passed :
    (v : View) (ms : List Msg)
    → All IsNamed v.sent × All IsNamed ms
    → AreNamed (passed (record v { waiting = ms }) ms)
AreNamed-passed v [] d = d
AreNamed-passed v (m ∷ ms) d = (All-append IsNamed v.sent (m ∷ []) d.0 (d.1.0, tt), d.1.1)

AreNamed-send :
    (asleep : Bool) (v : View) → AreNamed v → AreNamed (next (record v { asleep = asleep }) send)
AreNamed-send true v d = AreNamed-passed v v.waiting d
AreNamed-send false v d = elim (Bool-cases (v.ready == 0)) [
  | inl zero ↦ rw zero d
  | inr more ↦ rw more (AreNamed-passed (record v { ready = 0 }) v.waiting d)
]

AreNamed-listen :
    (v : View) (ms : List Msg)
    → All IsNamed ms × All IsNamed v.waiting
    → AreNamed (next (record v { sent = ms }) listen)
AreNamed-listen v [] d = d
AreNamed-listen v (m ∷ ms) d = (d.0.1, d.1)

type_number-digit : (type : FileType) → type_number type < 10
unfolding type_number
type_number-digit type = ground arith

insert_text-fits :
    (name : Bytes) (type : FileType) (now : ℕ)
    → length name ≤ path_room
    → now < 2 ^ 63
    → length (insert_text (record { file_name = name; file_type = type; file_time = now }))
      ≤ query_size
insert_text-fits name type now short early =
    let kind = decimal (type_number type) in
    let time = decimal now in
    let last = codes ",\"unixepoch\"))" in
    let middle = codes "\",datetime(" in
    let one : length kind ≤ 1 =
      length-decimal (type_number type) 0
        (unfold ten_to in omega (arith, type_number-digit type)) in
    let nineteen : length time ≤ 19 =
      length-decimal now 18 (unfold ten_to in omega (arith, early)) in
    omega (
      arith,
      length-append name (codes "\",\"" ++ (kind ++ (middle ++ (time ++ last)))),
      length-append kind (middle ++ (time ++ last)),
      length-append time last,
      one,
      nineteen,
      short,
    )

delete_text-fits : (name : Bytes) → length name ≤ path_room → length (delete_text name) ≤ query_size
delete_text-fits name short = omega (arith, length-append name (b'"' ∷ []))

All-if :
    {A : Type 0} (P : A → Type 0) (xs ys : List A) (b : Bool)
    → All P xs
    → All P ys
    → All P (if b then xs else ys)
All-if P xs ys true h g = h
All-if P xs ys false h g = g

module _ (clock : ℕ → ℕ) (early : (i : ℕ) → clock i < 2 ^ 63) where
  calls_of-Fits : (i : ℕ) (m : Msg) → IsNamed m → All Table.Fits (calls_of (clock i) m)
  calls_of-Fits i m d = All-if Table.Fits _ _ (m.flags == 1) (added ereg) (
      All-if Table.Fits _ _ (m.flags == 2) removed (
        All-if Table.Fits _ _ (m.flags == 3) (added edir) (
          All-if Table.Fits _ _ (m.flags == 4) removed
            (All-if Table.Fits _ _ (m.flags == 6) (added ereg) tt))))
    where
      added :
          (type : FileType)
          → All Table.Fits
              (add (record { file_name = m.path; file_type = type; file_time = clock i }) ∷ [])
      added type = (
        (d.plain, d.one_slash, insert_text-fits m.path type (clock i) d.readable.fits (early i)),
        tt,
      )

      removed : All Table.Fits (rm m.path ∷ [])
      removed = ((d.plain, delete_text-fits m.path d.readable.fits), tt)

  first-Fits : (i : ℕ) (ms : List Msg) → All IsNamed ms → All Table.Fits (first_calls (clock i) ms)
  first-Fits i [] d = tt
  first-Fits i (m ∷ ms) d = calls_of-Fits i m d.0

  -- The statements of all calls of the daemon fit.
  pub calls_said-Fits :
      (i : ℕ) (v : View) (turns : List Turn)
      → AreNamed v
      → Named turns
      → All Table.Fits (calls_said clock i v turns)
  calls_said-Fits i v [] d ds = tt
  calls_said-Fits i v (report e ∷ turns) d ds =
      calls_said-Fits i (next v (report e)) turns
        (d.0, All-append IsNamed v.waiting (to_msg e ∷ []) d.1 (ds.0, tt)) ds.1
  calls_said-Fits i v (send ∷ turns) d ds =
      calls_said-Fits i (next v send) turns (AreNamed-send v.asleep v d) ds
  calls_said-Fits i v (listen ∷ turns) d ds =
      All-append Table.Fits (first_calls (clock i) v.sent)
        (calls_said clock (suc i) (next v listen) turns) (first-Fits i v.sent d.0)
        (calls_said-Fits (suc i) (next v listen) turns (AreNamed-listen v v.sent d) ds)

module _ (S : Sqlite) (L : IsLawful S) (w : Writer) (junk : Bytes) (clock : ℕ → ℕ)
    (early : (i : ℕ) → clock i < 2 ^ 63) (getopt_long : List Bytes → Opt)
    (reads : ReadsOptions getopt_long) where
  -- Whatever order readable reports of plain names, turns of the sending thread and rounds of the
  -- daemon come in, from a state that matches its queues, whose messages have plain names, and with
  -- none of the reports when 128 messages wait, every turn goes well and no statement of the daemon
  -- is printed behind its string; if SQLite and getopt_long work as documented, the command with -e
  -- and a plain name that leaves room in the query then prints the name again exactly if the last
  -- message about it that the daemon read says that it comes, or no such message speaks of it and it
  -- was in the table before.
  pub run-search :
      (turns : List Turn) (u0 : World) (v : View) (s : S.State) (command n : Bytes)
      → Matches u0 v
      → AreNamed v
      → Fits v turns
      → Named turns
      → u0.daemon.calls ≡ []
      → IsPlain n
      → length (exact_text n) ≤ query_size
      → (u : World) × (s' : S.State) × (run w junk clock 0 turns u0 ≡ some u)
        × (run_calls S u.daemon.calls (open_db S s) ≡ some s')
        × (main getopt_long (S.select (open_db S s')) (command ∷ codes "-e" ∷ n ∷ [])
            ≡ ran
                (answer n (otherwise (last_word n (heard v turns)) (present (S.row s n))))
                (exact_text n ∷ []))
  run-search turns u0 v s command n matches ds f named none_yet plain short =
      let (u, went, g) = run-Follows w junk clock 0 turns u0 v matches f in
      let said = calls_said clock 0 v turns in
      let (s', done, rows) =
        run_calls-replay S L said (open_db S s) (calls_said-Fits clock early 0 v turns ds named) in
      let only : u.daemon.calls ≡ said = g.calls ∙ ap (λ c. c ++ said) none_yet in
      let before : present (S.row (open_db S s) n) ≡ present (S.row s n) =
        ap present (open_db-row S L s n) in
      let found : present (S.row (open_db S s') n)
          ≡ otherwise (last_word n (heard v turns)) (present (S.row s n)) =
        ap present (open_db-row S L s' n ∙ rows n)
        ∙ calls_said-last_word S clock 0 v turns (S.row (open_db S s)) n
        ∙ ap (otherwise (last_word n (heard v turns))) before in
      (
        u,
        s',
        went,
        rw only done,
        search-answer S L getopt_long reads command n (open_db S s') plain short
            ∙ ap (λ b. ran (answer n b) (exact_text n ∷ [])) found,
      )
