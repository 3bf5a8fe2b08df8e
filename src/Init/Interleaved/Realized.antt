-- ===== src/Init/Interleaved/Realized.antt =====
-- Every order of whole calls of the queue is an order of accesses.
use everyfile.Prelude.{
  ℕ, ◌+◌, ◌^◌, ◌<◌, ◌≡◌, ◌≢◌, refl, sym, ◌∙◌, true, false, none, some, List, [], ◌∷◌, ◌++◌, arith,
  length, length-append,
}
use everyfile.Queue.{Queue, create}
use everyfile.Queue.Chain.{has, has_ne, IsQueue}
use everyfile.Queue.Enqueue.{enqueue_lem}
use everyfile.Queue.Dequeue.{dequeue-nil, dequeue-cons}
use everyfile.Queue.Life.{create-IsQueue}
use everyfile.Queue.Fifo.{values, values-snoc}
use everyfile.Queue.Shared.Alone.{enqueue-Moves}
use everyfile.Queue.Shared.TakeAlone.{dequeue-Takes}
use everyfile.Queue.Shared.Sound.{Distinct}
use everyfile.Init.{Walker, walking, Reader, looping}
use everyfile.Init
use everyfile.Init.Interleaved.{
  State, begin, next, finish, wake, add, empty, again, leave, Steps, done, more, init,
}
use everyfile.Init.Interleaved.Shown.{shown, Shows, Steps-put, Steps-take}

module _ {R : Type 0} where
  not_cons : (r : R) (rest : List R) → ¬ ([] ≡ r ∷ rest)
  not_cons r rest h = cc

  not_some : (r : R) → ¬ (none ≡ some r)
  not_some r h = cc

  cons-injective : (a b : R) (xs ys : List R) → (a ∷ xs) ≡ (b ∷ ys) → (a ≡ b) × (xs ≡ ys)
  cons-injective a b xs ys h = (cc, cc)

  -- What the next step comes to.
  abbrev Shown : State R → Init.State R → Type 0
  Shown t0 u =
      (q : Queue R) × (jobs : List (ℕ × R)) × Steps t0 (shown u q jobs) × Shows u.buf u.todo q jobs

  module _ (t0 : State R) (s : Init.State R) (q : Queue R) where
    find-Shown :
        (jobs : List (ℕ × R)) (r : R) (rest : List R)
        → s.walker ≡ walking
        → s.todo ≡ r ∷ rest
        → Steps t0 (shown s q jobs)
        → Shows s.buf s.todo q jobs
        → Shown t0 (record s { todo = rest; buf = s.buf ++ r ∷ [] })
    unfolding values
    find-Shown [] r rest w todo run k = absurd (not_cons r rest (k.to_come ∙ todo))
    find-Shown ((n, v) ∷ jobs) r rest w todo run k =
        let (q', ran, is, spared) =
          enqueue_lem (λ _. false) 0 false n v q k.cells (λ i h. refl) k.queue k.distinct.0
            (k.free n (ground arith)) in
        let longer = length-append k.cells ((n, v) ∷ []) in
        let moves =
          enqueue-Moves n v (λ _. false) false 2 q q' (k.free n (ground arith)) ran
            (omega (arith, is.counted, longer, k.few)) in
        let (first, others) = cons-injective v r (values jobs) rest (k.to_come ∙ todo) in
        (
          q',
          jobs,
          more (Steps-put w refl run moves) (next w refl refl),
          record {
            cells = k.cells ++ (n, v) ∷ [];
            queue = is;
            held = values-snoc k.cells n v ∙ rw (k.held, first);
            to_come = others;
            free = λ a i.
                spared a (k.free a (ground (arith, i)))
                  (ground (arith, has_ne a n jobs i k.distinct.1));
            distinct = k.distinct.2;
            few = omega (arith, longer, k.few);
          },
        )

    take-cells :
        (jobs cells : List (ℕ × R)) (r : R) (rest : List R)
        → s.reader ≡ looping
        → IsQueue q cells
        → values cells ≡ r ∷ rest
        → Steps t0 (shown s q jobs)
        → values jobs ≡ s.todo
        → ((a : ℕ) → has a jobs ≡ true → q.heap a ≡ none)
        → Distinct jobs
        → length cells + length jobs < 2 ^ 32
        → Shown t0 (record s { buf = rest; db = s.db ++ r ∷ [] })
    unfolding values
    take-cells jobs [] r rest lo is held run to_come free distinct few =
        absurd (not_cons r rest held)
    take-cells jobs ((b, v) ∷ cells) r rest lo is held run to_come free distinct few =
        let (q', ran, is', spared) = dequeue-cons (λ _. false) 0 q b v cells (λ i h. refl) is in
        let moves =
          dequeue-Takes (λ _. false) 2 0 q q' (some v) ran
            (λ v' h. (omega (arith, is.counted), omega (arith, is.counted, few))) in
        let (first, others) = cons-injective v r (values cells) rest held in
        (
          q',
          jobs,
          rw (sym first) (more (Steps-take lo run moves) (add lo refl)),
          record {
            cells = cells;
            queue = is';
            held = others;
            to_come = to_come;
            free = λ a i. spared a (free a i);
            distinct = distinct;
            few = omega (arith, few);
          },
        )

    take-Shown :
        (jobs : List (ℕ × R)) (r : R) (rest : List R)
        → s.reader ≡ looping
        → s.buf ≡ r ∷ rest
        → Steps t0 (shown s q jobs)
        → Shows s.buf s.todo q jobs
        → Shown t0 (record s { buf = rest; db = s.db ++ r ∷ [] })
    take-Shown jobs r rest lo buf run k =
        take-cells jobs k.cells r rest lo k.queue (k.held ∙ buf) run k.to_come k.free k.distinct
          k.few

    empty-cells : (cells : List (ℕ × R)) → IsQueue q cells → values cells ≡ [] → IsQueue q []
    unfolding values
    empty-cells [] is none_left = is
    empty-cells ((b, v) ∷ cells) is none_left = absurd (not_cons v (values cells) (sym none_left))

    empty-Shown :
        (jobs : List (ℕ × R))
        → s.reader ≡ looping
        → s.buf ≡ []
        → Steps t0 (shown s q jobs)
        → Shows s.buf s.todo q jobs
        → Shown t0 (record s { reader = Init.checking })
    empty-Shown jobs lo buf run k =
        let ran =
          dequeue-nil (λ _. false) 0 (λ i h. refl) 1 0 q
            (empty-cells k.cells k.queue (k.held ∙ buf)) in
        let moves = dequeue-Takes (λ _. false) 2 0 q q none ran (λ v h. absurd (not_some v h)) in
        (q, jobs, more (Steps-take lo run moves) (empty lo refl), k)

    finish-Shown :
        (jobs : List (ℕ × R))
        → s.walker ≡ walking
        → s.todo ≡ []
        → Steps t0 (shown s q jobs)
        → Shows s.buf s.todo q jobs
        → Shown t0 (record s { out = 0; walker = Init.walked })
    unfolding values
    finish-Shown [] w todo run k = (q, [], more run (finish w refl), k)
    finish-Shown ((n, v) ∷ jobs) w todo run k =
        absurd (not_cons v (values jobs) (sym (k.to_come ∙ todo)))

    Step-Shown :
        (u : Init.State R) (jobs : List (ℕ × R))
        → Init.Step s u
        → Steps t0 (shown s q jobs)
        → Shows s.buf s.todo q jobs
        → Shown t0 u
    Step-Shown _ jobs (Init.begin e) run k = (q, jobs, more run (begin e), k)
    Step-Shown _ jobs (Init.find r rest w todo) run k = find-Shown jobs r rest w todo run k
    Step-Shown _ jobs (Init.finish w todo) run k = finish-Shown jobs w todo run k
    Step-Shown _ jobs (Init.wake e) run k = (q, jobs, more run (wake e), k)
    Step-Shown _ jobs (Init.take r rest lo buf) run k = take-Shown jobs r rest lo buf run k
    Step-Shown _ jobs (Init.empty lo buf) run k = empty-Shown jobs lo buf run k
    Step-Shown _ jobs (Init.again e on) run k = (q, jobs, more run (again e on), k)
    Step-Shown _ jobs (Init.leave e off) run k = (q, jobs, more run (leave e off), k)

  Steps-Shown :
      (t0 : State R) (s u : Init.State R) (q : Queue R) (jobs : List (ℕ × R))
      → Init.Steps s u
      → Steps t0 (shown s q jobs)
      → Shows s.buf s.todo q jobs
      → Shown t0 u
  Steps-Shown t0 s _ q jobs Init.done run k = (q, jobs, run, k)
  Steps-Shown t0 s u q jobs (Init.more {t} before step) run k =
      let (q', jobs', run', k') = Steps-Shown t0 s t q jobs before run k in
      Step-Shown t0 t q' u jobs' step run' k'

  -- If the addresses of new entries are not NULL and differ, and fewer than 2 ^ 32 records are
  -- found, then whatever the two threads of --init come to while a call of the queue is one step
  -- on a list, accesses of the queue on its heap lead to as well: to the same flag, places of the
  -- threads and records in the database, with a queue that holds the records of the list and the
  -- records still to be found before it.
  pub init-realized :
      (node : ℕ) (value : R) (jobs : List (ℕ × R)) (s : Init.State R)
      → node ≢ 0
      → Distinct jobs
      → has node jobs ≡ false
      → length jobs < 2 ^ 32
      → Init.Steps (Init.init (values jobs)) s
      → (q : Queue R) × (later cells : List (ℕ × R)) × Steps
          (init node value jobs)
          (shown s q later)
        × IsQueue q cells
        × (values cells ≡ s.buf)
        × (values later ≡ s.todo)
  unfolding values create
  init-realized node value jobs s ne distinct apart few run =
      let (q, later, steps, k) =
        Steps-Shown (init node value jobs) (Init.init (values jobs)) s (create node value) jobs run
          done
          (record {
            cells = [];
            queue = create-IsQueue node value ne;
            held = refl;
            to_come = refl;
            free = λ a i. ground (arith, has_ne a node jobs i apart);
            distinct = distinct;
            few = omega (arith, few);
          }) in
      (q, later, k.cells, steps, k.queue, k.held, k.to_come)
