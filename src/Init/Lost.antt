-- ===== src/Init/Lost.antt =====
-- A record that never reaches the database.
use everyfile.Prelude.{refl, sym, List, [], ◌∷◌, ◌++◌, append_assoc, append-nil}
use everyfile.Init.{
  walking, walked, looping, left, State, begin, find, finish, wake, take, empty, leave, Steps, done,
  more, init,
}

module _ {R : Type 0} where
  -- Both threads run, and the queue is empty.
  abbrev between : List R → List R → State R
  between todo db = record {
    out = 1;
    walker = walking;
    reader = looping;
    todo = todo;
    buf = [];
    db = db;
  }

  feed :
      (s : State R) (rs todo db : List R)
      → Steps s (between (rs ++ todo) db)
      → Steps s (between todo (db ++ rs))
  feed s [] todo db run = rw (append-nil db) run
  feed s (r ∷ rs) todo db run = rw (sym (append_assoc db (r ∷ []) rs)) (
      feed s rs todo (db ++ r ∷ [])
        (more (more run (find r (rs ++ todo) refl refl)) (take r [] refl refl)))

  -- What is left when the reader looks at `out` late.
  abbrev pub stranded : List R → R → State R
  stranded db r = record {
    out = 0;
    walker = walked;
    reader = left;
    todo = [];
    buf = r ∷ [];
    db = db;
  }

  -- Whatever the walk finds, both threads can end with its last record in the queue and only those
  -- before it in the database.
  pub init-strands : (rs : List R) (r : R) → Steps (init (rs ++ r ∷ [])) (stranded rs r)
  init-strands rs r =
      let s = init (rs ++ r ∷ []) in
      let fed = feed s rs (r ∷ []) [] (more (more done (begin refl)) (wake refl)) in
      more (more (more (more fed (empty refl refl)) (find r [] refl refl)) (finish refl refl))
        (leave refl refl)
