-- ===== src/Db/Table.antt =====
-- What the calls of `ef_db` leave in the table.
use everyfile.Prelude.{
  ◌≤◌, ◌≡◌, ◌≢◌, inr, refl, ◌∙◌, false, Option, none, some, List, [], ◌∷◌, Bytes, All, arith,
  length, get_or, same_text, if◌then◌else◌, ◌==◌,
}
use everyfile.Scan.Info.{FileInfo}
use everyfile.Daemon.Message.{Call, add, rm}
use everyfile.Db.{Action, begin, commit, execute, create_table, query_size, strip}
use everyfile.Db
use everyfile.Db.Name.{strip-other}
use everyfile.Db.Text.{insert_text, insert_sql_lem, delete_text, delete_sql_lem}
use everyfile.Db.Sqlite.{Sqlite, IsPlain, kept, IsLawful}

-- A call whose statement fits, for a plain name that does not begin with two slashes.
abbrev pub Fits : Call → Type 0
Fits (add info) =
    IsPlain info.file_name
    × (get_or info.file_name 1 0 ≢ b'/')
    × (length (insert_text info) ≤ query_size)
Fits (rm name) = IsPlain name × (length (delete_text name) ≤ query_size)

add_lem :
    (info : FileInfo)
    → Fits (add info)
    → Db.add info ≡ some (begin ∷ execute (insert_text info) ∷ commit ∷ [])
unfolding Db.add
add_lem info (plain, one, fits) =
    let other : (get_or info.file_name 1 0 == b'/') ≡ false = ground (arith, one) in
    rw (strip-other info.file_name (inr other), insert_sql_lem info plain.clean fits)

rm_lem : (name : Bytes) → Fits (rm name) → Db.rm name ≡ some (execute (delete_text name) ∷ [])
unfolding Db.rm
rm_lem name (plain, fits) = rw (delete_sql_lem name plain.clean fits)

module _ (S : Sqlite) where
  -- What is handed to SQLite, in order.
  abbrev pub perform : List Action → S.State → S.State
  perform [] s = s
  perform (a ∷ acts) s = perform acts (S.act a s)

  -- The constructor.
  unfoldable pub open_db : S.State → S.State
  open_db s = S.act (execute create_table) s

  -- A call of the message loop; `none` where a statement is printed behind its string.
  abbrev call_actions : Call → Option (List Action)
  call_actions (add info) = Db.add info
  call_actions (rm name) = Db.rm name

  abbrev and_perform : (S.State → Option S.State) → S.State → Option (List Action) → Option S.State
  and_perform more s none = none
  and_perform more s (some acts) = more (perform acts s)

  unfoldable pub run_calls : List Call → S.State → Option S.State
  unfolding Db.add Db.rm
  run_calls [] s = some s
  run_calls (c ∷ calls) s = and_perform (run_calls calls) s (call_actions c)

  -- The same calls, on a function from names to rows.
  abbrev pub after_call : Call → (Bytes → Option S.Value) → Bytes → Option S.Value
  after_call (add info) t n =
      if same_text n info.file_name then kept (t n) (S.value info.file_type info.file_time) else t n
  after_call (rm name) t n = if same_text n name then none else t n

  abbrev pub replay : List Call → (Bytes → Option S.Value) → Bytes → Option S.Value
  replay [] t = t
  replay (c ∷ calls) t = replay calls (after_call c t)

  replay-same :
      (calls : List Call) (t u : Bytes → Option S.Value)
      → ((n : Bytes) → t n ≡ u n)
      → (n : Bytes) → replay calls t n ≡ replay calls u n
  replay-same [] t u h n = h n
  replay-same (add info ∷ calls) t u h n =
      replay-same calls (after_call (add info) t) (after_call (add info) u) (λ m. rw (h m)) n
  replay-same (rm name ∷ calls) t u h n =
      replay-same calls (after_call (rm name) t) (after_call (rm name) u) (λ m. rw (h m)) n

  module _ (L : IsLawful S) where
    pub open_db-row : (s : S.State) (n : Bytes) → S.row (open_db s) n ≡ S.row s n
    unfolding open_db
    open_db-row s n = L.row-create s n

    -- What one call does to the rows.
    abbrev Done : Call → S.State → Type 0
    Done c s =
        (s' : S.State) × ((calls : List Call) → run_calls (c ∷ calls) s ≡ run_calls calls s')
        × ((n : Bytes) → S.row s' n ≡ after_call c (S.row s) n)

    Call-Done : (c : Call) (s : S.State) → Fits c → Done c s
    unfolding run_calls
    Call-Done (add info) s f =
        let acts = begin ∷ execute (insert_text info) ∷ commit ∷ [] in
        (
          perform acts s,
          λ calls. rw (add_lem info f),
          λ n. rw (
            L.row-commit (S.act (execute (insert_text info)) (S.act begin s)) n,
            L.row-insert (S.act begin s) info n f.0,
            L.row-begin s n,
          ),
        )
    Call-Done (rm name) s f = (
      S.act (execute (delete_text name)) s,
      λ calls. rw (rm_lem name f),
      λ n. L.row-delete s name n f.0,
    )

    -- If SQLite works as documented, the calls of ef_db for plain names that do not begin with two
    -- slashes and leave room in the query all run; every row is then what the same calls make of a
    -- function from names to rows, in which add keeps a row that is there.
    pub run_calls-replay :
        (calls : List Call) (s : S.State)
        → All Fits calls
        → (s' : S.State) × (run_calls calls s ≡ some s')
          × ((n : Bytes) → S.row s' n ≡ replay calls (S.row s) n)
    run_calls-replay [] s f = (s, unfold run_calls in refl, λ n. refl)
    run_calls-replay (c ∷ calls) s (f, fs) =
        let (s1, one, rows) = Call-Done c s f in
        let (s2, run, later) = run_calls-replay calls s1 fs in
        (
          s2,
          one calls ∙ run,
          λ n. later n ∙ replay-same calls (S.row s1) (after_call c (S.row s)) rows n,
        )
