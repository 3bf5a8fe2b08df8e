-- ===== src/Init/Interleaved.antt =====
-- src/main.cpp: `out_sys_files` and `in_db` at once, with the calls of the queue an access at a time.
pub mod Kept
pub mod Shown
pub mod Realized
pub mod Stranded
pub mod Dangling
pub mod Answered
use everyfile.Prelude.{ℕ, ◌≡◌, ◌≢◌, none, some, List, [], ◌∷◌, ◌++◌}
use everyfile.Queue.{Queue, create}
use everyfile.Queue.Shared.{Pc, called, returned, Move}
use everyfile.Queue.Shared.Take.{TakePc, begun, answered, Take}
use everyfile.Init.{Walker, waiting, walking, walked, Reader, asleep, looping, checking, left}

-- `jobs` are the records from the one on that `enqueue` is called with, each with the address of its
-- entry; `db` are the records that were given to `add`.
pub record State (R : Type 0) : Type 0 where
  pub out : ℕ
  pub walker : Walker
  pub reader : Reader
  pub queue : Queue R
  pub jobs : List (ℕ × R)
  pub put : Pc
  pub get : TakePc R
  pub db : List R

pub data Step {R : Type 0} (s : State R) : State R → Type 0 where
  begin : s.walker ≡ waiting → Step s (record s { out = 1; walker = walking })
  -- An access of the call for the record that was found.
  puts :
      {node : ℕ} {r : R} {rest : List (ℕ × R)} {q : Queue R} {p : Pc}
      → s.walker ≡ walking
      → s.jobs ≡ (node, r) ∷ rest
      → Move node r s.queue s.put q p
      → Step s (record s { queue = q; put = p })
  next :
      {job : ℕ × R} {rest : List (ℕ × R)}
      → s.walker ≡ walking
      → s.put ≡ returned
      → s.jobs ≡ job ∷ rest
      → Step s (record s { jobs = rest; put = called })
  finish : s.walker ≡ walking → s.jobs ≡ [] → Step s (record s { out = 0; walker = walked })
  wake : s.reader ≡ asleep → Step s (record s { reader = looping })
  takes :
      {q : Queue R} {g : TakePc R}
      → s.reader ≡ looping
      → Take s.queue s.get q g
      → Step s (record s { queue = q; get = g })
  add :
      {r : R}
      → s.reader ≡ looping
      → s.get ≡ answered (some r)
      → Step s (record s { get = begun; db = s.db ++ r ∷ [] })
  empty :
      s.reader ≡ looping
      → s.get ≡ answered none
      → Step s (record s { reader = checking; get = begun })
  again : s.reader ≡ checking → s.out ≢ 0 → Step s (record s { reader = looping })
  leave : s.reader ≡ checking → s.out ≡ 0 → Step s (record s { reader = left })

pub data Steps {R : Type 0} (s : State R) : State R → Type 0 where
  done : Steps s s
  more : {t u : State R} → Steps s t → Step t u → Steps s u

-- `main`, when it has set `out` to 0; the first entry of the queue is at `node`.
abbrev pub init : {R : Type 0} (node : ℕ) → R → List (ℕ × R) → State R
init node r jobs = record {
  out = 0;
  walker = waiting;
  reader = asleep;
  queue = create node r;
  jobs = jobs;
  put = called;
  get = begun;
  db = [];
}
