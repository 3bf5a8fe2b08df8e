-- ===== src/Queue/Shared/Calls.antt =====
-- Where the calls of `enqueue` and `dequeue` begin and end.
use mathlib.Core.Path.{subst}
use everyfile.Prelude.{
  ℕ, ◌≡◌, ◌≢◌, refl, inl, inr, sym, ◌∙◌, ap, false, Option, none, some, List, [], ◌∷◌, ◌++◌, arith,
  append-nil,
}
use everyfile.Queue.{Entry, Queue, create}
use everyfile.Queue.Chain.{has}
use everyfile.Queue.Fifo.{values}
use everyfile.Queue.Shared.{new_entry, Move, Pc, called, returned}
use everyfile.Queue.Shared.Take.{TakePc, begun, answered}
use everyfile.Queue.Shared.Linked.{written}
use everyfile.Queue.Shared.Sound.{unsent, to_list, Distinct, IsSound, Holds}
use everyfile.Queue.Shared.PutSound.{Move-Holds}

module _ {A : Type 0} where
  unsent-called : (jobs : List (ℕ × A)) → unsent called jobs ≡ jobs
  unsent-called [] = refl
  unsent-called (job ∷ jobs) = refl

  pub puts-Holds :
      (q q' : Queue A) (jobs : List (ℕ × A)) (node : ℕ) (v : A) (rest : List (ℕ × A)) (p p' : Pc)
      (g : TakePc A) (all out : List A)
      → jobs ≡ (node, v) ∷ rest
      → Move node v q p q' p'
      → Holds q jobs p g all out
      → Holds q' jobs p' g all out
  puts-Holds q q' jobs node v rest p p' g all out e move =
      subst (λ js. Holds q js p g all out → Holds q' js p' g all out) (sym e)
        (Move-Holds node v rest g all out q q' p p' move)

  pub next_put-Holds :
      (q : Queue A) (job : ℕ × A) (rest : List (ℕ × A)) (g : TakePc A) (all out : List A)
      → Holds q (job ∷ rest) returned g all out
      → Holds q rest called g all out
  next_put-Holds q job rest g all out k = record {
    cells = k.cells;
    sound = rw (unsent-called rest) k.sound;
    distinct = k.distinct.2;
    putting = tt;
    getting = rw (unsent-called rest) k.getting;
    account = rw (unsent-called rest) k.account;
  }

  pub next_take-Holds :
      (q : Queue A) (jobs : List (ℕ × A)) (p : Pc) (o : Option A) (all out : List A)
      → Holds q jobs p (answered o) all out
      → Holds q jobs p begun all (out ++ to_list o)
  next_take-Holds q jobs p o all out k = record {
    cells = k.cells;
    sound = k.sound;
    distinct = k.distinct;
    putting = k.putting;
    getting = tt;
    account = rw (append-nil (out ++ to_list o)) k.account;
  }

  pub create-IsSound :
      (node : ℕ) (value : A) (jobs : List (ℕ × A))
      → node ≢ 0
      → Distinct jobs
      → has node jobs ≡ false
      → IsSound (create node value) jobs []
  unfolding create
  create-IsSound node value jobs ne distinct apart = record {
    last = node;
    chain = (ne, (new_entry value, ground arith, refl), refl);
    ends = λ a e at zero. elim (written (λ a. none) node (new_entry value) a e at) [
      | inl (same, is) ↦ inl same
      | inr (other, old) ↦ absurd (none≢some e old)
    ];
    links = λ a e at. elim (written (λ a. none) node (new_entry value) a e at) [
      | inl (same, is) ↦ ap (λ e. has e.next.ptr jobs) (sym is) ∙ null jobs distinct
      | inr (other, old) ↦ absurd (none≢some e old)
    ];
    cells_in = λ a i. ground arith;
    head_in = apart;
    tail_in = apart;
    null_in = null jobs distinct;
    null_free = ground arith;
  }
    where
      none≢some : (e : Entry A) → ¬ (none ≡ some e)
      none≢some e g = cc

      null : (jobs : List (ℕ × A)) → Distinct jobs → has 0 jobs ≡ false
      null [] d = refl
      null ((b, v) ∷ jobs) d = ground (arith, null jobs d.2, d.0)

  pub create-Holds :
      (node : ℕ) (value : A) (jobs : List (ℕ × A))
      → node ≢ 0
      → Distinct jobs
      → has node jobs ≡ false
      → Holds (create node value) jobs called begun (values jobs) []
  unfolding values
  create-Holds node value jobs ne distinct apart = record {
    cells = [];
    sound = rw (unsent-called jobs) (create-IsSound node value jobs ne distinct apart);
    distinct = distinct;
    putting = tt;
    getting = tt;
    account = rw (unsent-called jobs) refl;
  }
