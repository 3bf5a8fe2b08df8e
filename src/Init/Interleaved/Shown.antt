-- ===== src/Init/Interleaved/Shown.antt =====
-- A state between the calls of the queue, and what its queue stands for.
use everyfile.Prelude.{ℕ, ◌+◌, ◌^◌, ◌<◌, ◌≡◌, true, none, List, ◌∷◌, length}
use everyfile.Queue.{Queue}
use everyfile.Queue.Chain.{has, IsQueue}
use everyfile.Queue.Fifo.{values}
use everyfile.Queue.Shared.{Pc, called, Moves, none_yet, and_then}
use everyfile.Queue.Shared.Take.{TakePc, begun, Takes, not_yet, then_take}
use everyfile.Queue.Shared.Sound.{Distinct}
use everyfile.Init.{Walker, walking, Reader, looping}
use everyfile.Init
use everyfile.Init.Interleaved.{State, puts, takes, Steps, more}

module _ {R : Type 0} where
  -- The same state, between the calls of the queue.
  abbrev pub shown : Init.State R → Queue R → List (ℕ × R) → State R
  shown s q jobs = record {
    out = s.out;
    walker = s.walker;
    reader = s.reader;
    queue = q;
    jobs = jobs;
    put = called;
    get = begun;
    db = s.db;
  }

  -- The queue holds the records of the list, and the calls to come have those still to be found.
  pub record Shows (buf todo : List R) (q : Queue R) (jobs : List (ℕ × R)) : Type 0 where
    pub cells : List (ℕ × R)
    pub queue : IsQueue q cells
    pub held : values cells ≡ buf
    pub to_come : values jobs ≡ todo
    pub free : (a : ℕ) → has a jobs ≡ true → q.heap a ≡ none
    pub distinct : Distinct jobs
    pub few : length cells + length jobs < 2 ^ 32

  pub Steps-put :
      {t0 t : State R} {node : ℕ} {r : R} {rest : List (ℕ × R)} {q : Queue R} {p : Pc}
      → t.walker ≡ walking
      → t.jobs ≡ (node, r) ∷ rest
      → Steps t0 t
      → Moves node r t.queue t.put q p
      → Steps t0 (record t { queue = q; put = p })
  Steps-put w e run none_yet = run
  Steps-put w e run (and_then moves move) = more (Steps-put w e run moves) (puts w e move)

  pub Steps-take :
      {t0 t : State R} {q : Queue R} {g : TakePc R}
      → t.reader ≡ looping
      → Steps t0 t
      → Takes t.queue t.get q g
      → Steps t0 (record t { queue = q; get = g })
  Steps-take w run not_yet = run
  Steps-take w run (then_take moves move) = more (Steps-take w run moves) (takes w move)
