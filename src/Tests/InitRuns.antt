-- ===== src/Tests/InitRuns.antt =====
-- The two threads of --init in src/main.cpp at concrete records.
use everyfile.Prelude.{none, some, arith, ◌≡◌, refl, ◌⊎◌, inl, inr, List, [], ◌∷◌, ℕ}
use everyfile.Init.{walking, checking, walked, looping, left, State, Steps, init}
use everyfile.Queue.{Pointer, pointer, Queue, create, write}
use everyfile.Queue.Chain.{Chain, IsQueue}
use everyfile.Queue.Fifo.{values}
use everyfile.Queue.Shared.{Pc, new_entry}
use everyfile.Queue.Shared.Take.{got_head}
use everyfile.Queue.Shared.Sound.{Distinct}
use everyfile.Init
use everyfile.Init.Interleaved
use everyfile.Init.Late.{IsLate, late-delivers}
use everyfile.Init.Interleaved.Shown.{shown}
use everyfile.Init.Interleaved.Realized.{init-realized}
use everyfile.Init.Interleaved.Dangling.{accesses-dangle}
use everyfile.Init.Interleaved.Stranded.{accesses-strand}

abbrev records : List ℕ
records = 5 ∷ 6 ∷ []

-- The walk is over.
abbrev over : State ℕ
over = record { out = 0; walker = walked; reader = looping; todo = []; buf = records; db = [] }

not_gone : ¬ ((looping ≡ checking) ⊎ (looping ≡ left))
not_gone (inl h) = cc
not_gone (inr h) = cc

over-IsLate : IsLate over
over-IsLate = record { over = refl; off = refl; found = refl; drained = λ h. absurd (not_gone h) }

late-delivers_example :
    ((t : State ℕ) × Steps over t × (t.reader ≡ left))
    × ((t : State ℕ) → Steps over t → t.reader ≡ left → t.db ≡ records)
late-delivers_example = late-delivers over over-IsLate refl

-- The entries of the records.
abbrev entries : List (ℕ × ℕ)
entries = (2, 5) ∷ (3, 6) ∷ []

entries-Distinct : Distinct entries
entries-Distinct = (omega arith, refl, (omega arith, refl, tt))

-- The walker has allocated the first entry, and the reader has read the head.
abbrev both_at_work : Interleaved.State ℕ
both_at_work = record (Interleaved.init 1 0 entries) {
  out = 1;
  walker = walking;
  reader = looping;
  queue = record (create 1 0) { heap = write (create 1 0).heap 2 (some (new_entry 5)) };
  put = Pc.looping;
  get = got_head (pointer 1 0);
}

-- The first record is in the queue, and the walk goes on.
abbrev one_found : State ℕ
one_found = record (record (init records) { out = 1; walker = walking }) {
  todo = 6 ∷ [];
  buf = 5 ∷ [];
}

init-realized_example :
    (q : Queue ℕ) × (later cells : List (ℕ × ℕ)) × Interleaved.Steps
      (Interleaved.init 1 0 entries)
      (shown one_found q later)
    × IsQueue q cells
    × (values cells ≡ 5 ∷ [])
    × (values later ≡ 6 ∷ [])
unfolding values
init-realized_example =
    init-realized 1 0 entries one_found (omega arith) entries-Distinct refl (omega arith)
      (Init.more (Init.more Init.done (Init.begin refl)) (Init.find 5 (6 ∷ []) refl refl))

accesses-strand_example :
    (t : Interleaved.State ℕ) × (cells : List (ℕ × ℕ)) × Interleaved.Steps
      (Interleaved.init 1 0 entries)
      t
    × (t.walker ≡ walked)
    × (t.reader ≡ left)
    × (t.db ≡ 5 ∷ [])
    × IsQueue t.queue cells
    × (values cells ≡ 6 ∷ [])
unfolding values
accesses-strand_example =
    accesses-strand 1 0 entries (5 ∷ []) 6 (omega arith) entries-Distinct refl (omega arith) refl

accesses-dangle_example :
    (t : Interleaved.State ℕ) × (tail : Pointer) × Interleaved.Steps
      (Interleaved.init 1 0 ((2, 5) ∷ (3, 6) ∷ (4, 7) ∷ []))
      t
    × (t.put ≡ Pc.got_tail tail)
    × (t.queue.heap tail.ptr ≡ none)
accesses-dangle_example =
    accesses-dangle 1 2 3 4 0 5 6 7 (omega arith)
      (omega arith, refl, (omega arith, refl, (omega arith, refl, tt))) refl
