-- ===== src/Session/Mirror.antt =====
-- What the table holds after turns in any order: the names that the last message about them creates.
use everyfile.Prelude.{
  ℕ, ◌≡◌, refl, sym, ◌∙◌, ap, Bool, true, false, ◌||◌, Option, none, some, List, [], ◌∷◌, ◌++◌,
  Bytes, arith, same_text, if◌then◌else◌, ◌==◌,
}
use everyfile.Kernel.State.{Msg}
use everyfile.Scan.Info.{FileInfo, ereg, edir}
use everyfile.Daemon.Message.{Call, add}
use everyfile.Db.Sqlite.{Sqlite, kept}
use everyfile.Command.Answer.{present}
use everyfile.Db.Table.{after_call, replay}
use everyfile.Session.{tick, Turn, report, send, listen}
use everyfile.Session.Delivery.{calls_of, View, next, said, first_calls}
use everyfile.Session.Schedule.{calls_said, first, read_in, heard}

-- What a message says of a name: that a file of this name comes, or goes, or nothing.
abbrev pub says : Bytes → Msg → Option Bool
says n m =
    if same_text n m.path
    then (if m.flags == 1 || m.flags == 3 || m.flags == 6
        then some true
        else if m.flags == 2 || m.flags == 4
        then some false
        else none)
    else none

abbrev pub or_else {ℓ} : {A : Type ℓ} → Option A → Option A → Option A
or_else none b = b
or_else (some a) b = some a

-- The last word on a name.
abbrev pub last_word : Bytes → List Msg → Option Bool
last_word n [] = none
last_word n (m ∷ ms) = or_else (last_word n ms) (says n m)

abbrev pub otherwise : Option Bool → Bool → Bool
otherwise none b = b
otherwise (some a) b = a

otherwise-or_else :
    (a b : Option Bool) (c : Bool) → otherwise (or_else a b) c ≡ otherwise a (otherwise b c)
otherwise-or_else none b c = refl
otherwise-or_else (some a) b c = refl

or_else_assoc : (a b c : Option Bool) → or_else (or_else a b) c ≡ or_else a (or_else b c)
or_else_assoc none b c = refl
or_else_assoc (some a) b c = refl

or_else-none : (a : Option Bool) → a ≡ or_else a none
or_else-none none = refl
or_else-none (some a) = refl

last_word-append :
    (n : Bytes) (ms ns : List Msg)
    → last_word n (ms ++ ns) ≡ or_else (last_word n ns) (last_word n ms)
last_word-append n [] ns = or_else-none (last_word n ns)
last_word-append n (m ∷ ms) ns =
    ap (λ word. or_else word (says n m)) (last_word-append n ms ns)
    ∙ or_else_assoc (last_word n ns) (last_word n ms) (says n m)

module _ (S : Sqlite) (clock : ℕ → ℕ) where
  replay-append :
      (a b : List Call) (t : Bytes → Option S.Value)
      → replay S (a ++ b) t ≡ replay S b (replay S a t)
  replay-append [] b t = refl
  replay-append (c ∷ a) b t = replay-append a b (after_call S c t)

  present-kept : (o : Option S.Value) (v : S.Value) → present (kept o v) ≡ true
  present-kept none v = refl
  present-kept (some u) v = refl

  present-add :
      (info : FileInfo) (t : Bytes → Option S.Value) (n : Bytes)
      → present (after_call S (add info) t n)
        ≡ (if same_text n info.file_name then true else present (t n))
  present-add info t n = ground (arith, present-kept (t n) (S.value info.file_type info.file_time))

  calls_of-says :
      (now : ℕ) (m : Msg) (t : Bytes → Option S.Value) (n : Bytes)
      → present (replay S (calls_of now m) t n) ≡ otherwise (says n m) (present (t n))
  calls_of-says now m t n = ground (
    arith,
    present-add (record { file_name = m.path; file_type = ereg; file_time = now }) t n,
    present-add (record { file_name = m.path; file_type = edir; file_time = now }) t n,
  )

  first-says :
      (now : ℕ) (ms : List Msg) (t : Bytes → Option S.Value) (n : Bytes)
      → present (replay S (first_calls now ms) t n)
        ≡ otherwise (last_word n (first ms)) (present (t n))
  first-says now [] t n = refl
  first-says now (m ∷ ms) t n = calls_of-says now m t n

  said-says :
      (now : ℕ) (v : View) (turn : Turn) (t : Bytes → Option S.Value) (n : Bytes)
      → present (replay S (said now v turn) t n)
        ≡ otherwise (last_word n (read_in v turn)) (present (t n))
  said-says now v (report e) t n = refl
  said-says now v send t n = refl
  said-says now v listen t n = first-says now v.sent t n

  -- After the calls of the daemon a name is in the table exactly as the last word on it says.
  pub calls_said-last_word :
      (i : ℕ) (v : View) (turns : List Turn) (t : Bytes → Option S.Value) (n : Bytes)
      → present (replay S (calls_said clock i v turns) t n)
        ≡ otherwise (last_word n (heard v turns)) (present (t n))
  calls_said-last_word i v [] t n = refl
  calls_said-last_word i v (turn ∷ turns) t n =
      let rest = calls_said clock (tick turn i) (next v turn) turns in
      let now = replay S (said (clock i) v turn) t in
      let later = last_word n (heard (next v turn) turns) in
      ap (λ u. present (u n)) (replay-append (said (clock i) v turn) rest t)
      ∙ calls_said-last_word (tick turn i) (next v turn) turns now n
      ∙ ap (otherwise later) (said-says (clock i) v turn t n)
      ∙ sym (otherwise-or_else later (last_word n (read_in v turn)) (present (t n)))
      ∙ ap (λ word. otherwise word (present (t n)))
          (sym (last_word-append n (read_in v turn) (heard (next v turn) turns)))
