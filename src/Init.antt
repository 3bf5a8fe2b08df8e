-- ===== src/Init.antt =====
-- src/main.cpp: `out_sys_files` and `in_db`, the two threads of the option --init, with the flag `out`
-- and the queue between them, one step of a thread at a time. A call of `enqueue` or `dequeue` is one
-- step on a list: that is what the queue does while its calls do not overlap.
pub mod Conserved
pub mod Late
pub mod Lost
pub mod Fill
pub mod Interleaved
use everyfile.Prelude.{ℕ, ◌≡◌, ◌≢◌, List, [], ◌∷◌, ◌++◌}

-- `out_sys_files`: before `out=1`, in the walk, behind `out=0`.
pub data Walker : Type 0 where
  waiting : Walker
  walking : Walker
  walked : Walker

-- `in_db`: not created yet, at the head of the loop, behind a `dequeue` that has returned false,
-- behind the loop.
pub data Reader : Type 0 where
  asleep : Reader
  looping : Reader
  checking : Reader
  left : Reader

-- `todo` are the records that the walk still has to find, `db` those that were given to `add`.
pub record State (R : Type 0) : Type 0 where
  pub out : ℕ
  pub walker : Walker
  pub reader : Reader
  pub todo : List R
  pub buf : List R
  pub db : List R

pub data Step {R : Type 0} (s : State R) : State R → Type 0 where
  begin : s.walker ≡ waiting → Step s (record s { out = 1; walker = walking })
  find :
      (r : R) (rest : List R)
      → s.walker ≡ walking
      → s.todo ≡ r ∷ rest
      → Step s (record s { todo = rest; buf = s.buf ++ r ∷ [] })
  finish : s.walker ≡ walking → s.todo ≡ [] → Step s (record s { out = 0; walker = walked })
  wake : s.reader ≡ asleep → Step s (record s { reader = looping })
  take :
      (r : R) (rest : List R)
      → s.reader ≡ looping
      → s.buf ≡ r ∷ rest
      → Step s (record s { buf = rest; db = s.db ++ r ∷ [] })
  empty : s.reader ≡ looping → s.buf ≡ [] → Step s (record s { reader = checking })
  again : s.reader ≡ checking → s.out ≢ 0 → Step s (record s { reader = looping })
  leave : s.reader ≡ checking → s.out ≡ 0 → Step s (record s { reader = left })

pub data Steps {R : Type 0} (s : State R) : State R → Type 0 where
  done : Steps s s
  more : {t u : State R} → Steps s t → Step t u → Steps s u

-- `main`, when it has set `out` to 0, with the records that the walk will find.
abbrev pub init : {R : Type 0} → List R → State R
init rs = record { out = 0; walker = waiting; reader = asleep; todo = rs; buf = []; db = [] }
