-- ===== src/Init/Conserved.antt =====
-- No record is lost or made on the way from the walk to the database.
use everyfile.Prelude.{◌≡◌, refl, sym, ◌∙◌, ap, List, [], ◌∷◌, ◌++◌, append_assoc}
use everyfile.Init.{
  State, Step, begin, find, finish, wake, take, empty, again, leave, Steps, done, more, init,
}

-- All records: in the database, in the queue, and still to be found.
abbrev pub all : {R : Type 0} → State R → List R
all s = s.db ++ (s.buf ++ s.todo)

Step-all : {R : Type 0} (s t : State R) → Step s t → all t ≡ all s
Step-all s _ (begin e) = refl
Step-all s _ (find r rest e todo) =
    ap (λ xs. s.db ++ xs) (append_assoc s.buf (r ∷ []) rest ∙ ap (λ xs. s.buf ++ xs) (sym todo))
Step-all s _ (finish e todo) = refl
Step-all s _ (wake e) = refl
Step-all s _ (take r rest e buf) =
    append_assoc s.db (r ∷ []) (rest ++ s.todo) ∙ ap (λ xs. s.db ++ (xs ++ s.todo)) (sym buf)
Step-all s _ (empty e buf) = refl
Step-all s _ (again e on) = refl
Step-all s _ (leave e off) = refl

pub Steps-all : {R : Type 0} (s t : State R) → Steps s t → all t ≡ all s
Steps-all s _ done = refl
Steps-all s u (more {t} before step) = Step-all t u step ∙ Steps-all s t before

-- Whatever the two threads do, the records in the database, those in the queue behind them, and
-- those still to be found are together those of the walk, in its order.
pub init-all : {R : Type 0} (rs : List R) (t : State R) → Steps (init rs) t → all t ≡ rs
init-all rs t run = Steps-all (init rs) t run
