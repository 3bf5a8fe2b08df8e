-- ===== src/Init/Late.antt =====
-- A reader that starts behind the walk.
use everyfile.Prelude.{◌≡◌, ◌⊎◌, inl, inr, refl, sym, ◌∙◌, ap, List, [], ◌∷◌, ◌++◌, append-nil}
use everyfile.Init.{
  waiting, walking, walked, looping, checking, left, State, Step, begin, find, finish, wake, take,
  empty, again, leave, Steps, done, more,
}
use everyfile.Init.Conserved.{all, Steps-all}

-- The walk is over; a reader that is not in its loop has found the queue empty.
pub record IsLate {R : Type 0} (s : State R) : Type 0 where
  pub over : s.walker ≡ walked
  pub off : s.out ≡ 0
  pub found : s.todo ≡ []
  pub drained : (s.reader ≡ checking) ⊎ (s.reader ≡ left) → s.buf ≡ []

not_over_waiting : ¬ (waiting ≡ walked)
not_over_waiting h = cc

not_over_walking : ¬ (walking ≡ walked)
not_over_walking h = cc

not_drained : ¬ ((looping ≡ checking) ⊎ (looping ≡ left))
not_drained (inl h) = cc
not_drained (inr h) = cc

module _ {R : Type 0} where
  Step-IsLate : (s t : State R) → IsLate s → Step s t → IsLate t
  Step-IsLate s _ late (begin e) = absurd (not_over_waiting (sym e ∙ late.over))
  Step-IsLate s _ late (find r rest e todo) = absurd (not_over_walking (sym e ∙ late.over))
  Step-IsLate s _ late (finish e todo) = absurd (not_over_walking (sym e ∙ late.over))
  Step-IsLate s _ late (wake e) = record {
    over = late.over;
    off = late.off;
    found = late.found;
    drained = λ h. absurd (not_drained h);
  }
  Step-IsLate s _ late (take r rest e buf) = record {
    over = late.over;
    off = late.off;
    found = late.found;
    drained = λ h. absurd (not_drained (rw e at h));
  }
  Step-IsLate s _ late (empty e buf) = record {
    over = late.over;
    off = late.off;
    found = late.found;
    drained = λ h. buf;
  }
  Step-IsLate s _ late (again e on) = absurd (on late.off)
  Step-IsLate s _ late (leave e off) = record {
    over = late.over;
    off = late.off;
    found = late.found;
    drained = λ h. late.drained (inl e);
  }

  Steps-IsLate : (s t : State R) → IsLate s → Steps s t → IsLate t
  Steps-IsLate s _ late done = late
  Steps-IsLate s u late (more {t} before step) = Step-IsLate t u (Steps-IsLate s t late before) step

  -- If the walk is over and the reader in its loop, the reader has given every record of the queue to
  -- `add`, in order, whenever it has left the loop.
  pub late-all : (s t : State R) → IsLate s → Steps s t → t.reader ≡ left → t.db ≡ s.db ++ s.buf
  late-all s t late run gone =
      let end = Steps-IsLate s t late run in
      let here : all t ≡ t.db =
        (ap (λ xs. t.db ++ (xs ++ t.todo)) (end.drained (inr gone))
          ∙ ap (λ xs. t.db ++ xs) end.found
          ∙ append-nil t.db) in
      let there : all s ≡ s.db ++ s.buf =
        (ap (λ xs. s.db ++ (s.buf ++ xs)) late.found ∙ ap (λ xs. s.db ++ xs) (append-nil s.buf)) in
      sym here ∙ Steps-all s t run ∙ there

  drain :
      (s t : State R) (xs : List R)
      → Steps s t
      → IsLate t
      → t.reader ≡ looping
      → t.buf ≡ xs
      → (u : State R) × Steps s u × (u.reader ≡ left)
  drain s t [] run late loop buf =
      let checked = record t { reader = checking } in
      (
        record checked { reader = left },
        more (more run (empty loop buf)) (leave refl late.off),
        refl,
      )
  drain s t (x ∷ xs) run late loop buf =
      let next = record t { buf = xs; db = t.db ++ x ∷ [] } in
      drain s next xs (more run (take x xs loop buf)) (Step-IsLate t next late (take x xs loop buf))
        loop refl

  -- If the reader starts when the walk is over, it can leave its loop, and whenever it has left,
  -- every record of the queue has been given to add, in order.
  pub late-delivers :
      (s : State R)
      → IsLate s
      → s.reader ≡ looping
      → ((t : State R) × Steps s t × (t.reader ≡ left))
        × ((t : State R) → Steps s t → t.reader ≡ left → t.db ≡ s.db ++ s.buf)
  late-delivers s late loop = (drain s s s.buf done late loop refl, λ t. late-all s t late)
