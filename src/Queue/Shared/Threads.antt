-- ===== src/Queue/Shared/Threads.antt =====
-- One thread of src/main.cpp that adds to the queue, and one that takes from it, at once.
use everyfile.Prelude.{ℕ, ◌≡◌, refl, Option, List, ◌∷◌}
use everyfile.Queue.{Queue}
use everyfile.Queue.Shared.Take.{TakePc, begun, answered, Take, Takes, not_yet, then_take}
use everyfile.Queue.Shared.{Pc, called, returned, Move, Moves, none_yet, and_then}

-- The threads, with the entries and the values of the calls of `enqueue` from this one on.
pub record Threads (A : Type 0) : Type 0 where
  pub queue : Queue A
  pub jobs : List (ℕ × A)
  pub put : Pc
  pub get : TakePc A

pub data Act {A : Type 0} (s : Threads A) : Threads A → Type 0 where
  puts :
      {node : ℕ} {v : A} {rest : List (ℕ × A)} {q : Queue A} {p : Pc}
      → s.jobs ≡ (node, v) ∷ rest
      → Move node v s.queue s.put q p
      → Act s (record s { queue = q; put = p })
  next_put :
      {job : ℕ × A} {rest : List (ℕ × A)}
      → s.put ≡ returned
      → s.jobs ≡ job ∷ rest
      → Act s (record s { jobs = rest; put = called })
  takes :
      {q : Queue A} {g : TakePc A}
      → Take s.queue s.get q g
      → Act s (record s { queue = q; get = g })
  next_take : {o : Option A} → s.get ≡ answered o → Act s (record s { get = begun })

pub data Acts {A : Type 0} (s : Threads A) : Threads A → Type 0 where
  idle : Acts s s
  act : {t u : Threads A} → Acts s t → Act t u → Acts s u

module _ {A : Type 0} where
  pub acts_put :
      {s : Threads A} {node : ℕ} {v : A} {rest : List (ℕ × A)} {q : Queue A} {p : Pc} {g : TakePc A}
      {q1 : Queue A} {p1 : Pc}
      → Acts s (record { queue = q; jobs = (node, v) ∷ rest; put = p; get = g })
      → Moves node v q p q1 p1
      → Acts s (record { queue = q1; jobs = (node, v) ∷ rest; put = p1; get = g })
  acts_put before none_yet = before
  acts_put before (and_then moves move) = act (acts_put before moves) (puts refl move)

  pub acts_take :
      {s : Threads A} {jobs : List (ℕ × A)} {q : Queue A} {p : Pc} {g : TakePc A} {q1 : Queue A}
      {g1 : TakePc A}
      → Acts s (record { queue = q; jobs = jobs; put = p; get = g })
      → Takes q g q1 g1
      → Acts s (record { queue = q1; jobs = jobs; put = p; get = g1 })
  acts_take before not_yet = before
  acts_take before (then_take moves move) = act (acts_take before moves) (takes move)
