-- ===== src/Queue/Shared/Sound.antt =====
-- What holds of the queue while one thread adds and one takes, an access at a time.
use everyfile.Prelude.{ℕ, ◌≡◌, ◌≢◌, ◌⊎◌, true, false, Option, none, some, List, [], ◌∷◌, ◌++◌, ◌==◌}
use everyfile.Queue.{Pointer, Entry, Queue}
use everyfile.Queue.Chain.{has, Chain}
use everyfile.Queue.Fifo.{values}
use everyfile.Queue.Shared.{
  Pc, called, looping, got_tail, got_next, checked, link_copied, help_copied, linked, swing_copied,
  swung, returned, new_entry,
}
use everyfile.Queue.Shared.Take.{
  TakePc, begun, got_head, got_ends, got_link, compared, tail_copied, got_value, head_copied,
  unlinked, freed, answered,
}
use everyfile.Queue.Shared
use everyfile.Queue.Shared.Take

module _ {A : Type 0} where
  -- The calls of `enqueue` whose entry is not in the queue yet.
  abbrev pub unsent : Pc → List (ℕ × A) → List (ℕ × A)
  unsent p [] = []
  unsent called (job ∷ jobs) = job ∷ jobs
  unsent looping (job ∷ jobs) = job ∷ jobs
  unsent (got_tail tail) (job ∷ jobs) = job ∷ jobs
  unsent (got_next tail next) (job ∷ jobs) = job ∷ jobs
  unsent (checked tail next) (job ∷ jobs) = job ∷ jobs
  unsent (link_copied tail next atom) (job ∷ jobs) = job ∷ jobs
  unsent (help_copied tail next atom) (job ∷ jobs) = job ∷ jobs
  unsent (linked tail) (job ∷ jobs) = jobs
  unsent (swing_copied tail atom) (job ∷ jobs) = jobs
  unsent swung (job ∷ jobs) = jobs
  unsent returned (job ∷ jobs) = jobs
  unsent Shared.faulted (job ∷ jobs) = job ∷ jobs

  abbrev pub to_list : Option A → List A
  to_list none = []
  to_list (some v) = v ∷ []

  -- The value that the call of `dequeue` has, or has answered.
  abbrev pub in_hand : TakePc A → List A
  in_hand begun = []
  in_hand (got_head head) = []
  in_hand (got_ends head tail) = []
  in_hand (got_link head tail next) = []
  in_hand (compared head tail next) = []
  in_hand (tail_copied tail next atom) = []
  in_hand (got_value head next value) = []
  in_hand (head_copied head next value atom) = []
  in_hand (unlinked head value) = value ∷ []
  in_hand (freed value) = value ∷ []
  in_hand (answered o) = to_list o
  in_hand (Take.faulted o) = to_list o

  -- The addresses of new memory are not NULL, and differ.
  abbrev pub Distinct : List (ℕ × A) → Type 0
  Distinct [] = Unit {0}
  Distinct ((b, v) ∷ jobs) = (b ≢ 0) × (has b jobs ≡ false) × Distinct jobs

  -- The queue holds `cells`; no pointer leads to an entry that is not in the queue yet.
  pub record IsSound (q : Queue A) (ahead cells : List (ℕ × A)) : Type 0 where
    pub last : ℕ
    pub chain : Chain q.heap q.head.ptr cells last
    pub ends :
        (a : ℕ) (e : Entry A)
        → q.heap a ≡ some e
        → e.next.ptr ≡ 0
        → (a ≡ last) ⊎ (has a ahead ≡ true)
    pub links : (a : ℕ) (e : Entry A) → q.heap a ≡ some e → has e.next.ptr ahead ≡ false
    pub cells_in : (a : ℕ) → has a cells ≡ true → has a ahead ≡ false
    pub head_in : has q.head.ptr ahead ≡ false
    pub tail_in : has q.tail.ptr ahead ≡ false
    pub null_in : has 0 ahead ≡ false
    pub null_free : q.heap 0 ≡ none

  -- The entry of the call is allocated.
  abbrev pub IsMade : (ℕ → Option (Entry A)) → List (ℕ × A) → Type 0
  IsMade h [] = Unit {0}
  IsMade h ((b, v) ∷ jobs) = h b ≡ some (new_entry v)

  -- Where the call of `enqueue` stands.
  abbrev pub Puts : (ℕ → Option (Entry A)) → List (ℕ × A) → Pc → Type 0
  Puts h jobs called = Unit {0}
  Puts h jobs looping = IsMade h jobs
  Puts h jobs (got_tail tail) = IsMade h jobs × (has tail.ptr jobs ≡ false)
  Puts h jobs (got_next tail next) =
      IsMade h jobs × (has tail.ptr jobs ≡ false) × (has next.ptr jobs ≡ false)
  Puts h jobs (checked tail next) =
      IsMade h jobs × (has tail.ptr jobs ≡ false) × (has next.ptr jobs ≡ false)
  Puts h jobs (link_copied tail next atom) =
      IsMade h jobs
      × (has tail.ptr jobs ≡ false)
      × (next.ptr ≡ 0)
      × ((e : Entry A) → h tail.ptr ≡ some e → e.next ≡ atom)
  Puts h jobs (help_copied tail next atom) =
      IsMade h jobs × (has next.ptr jobs ≡ false) × (has atom.ptr jobs ≡ false)
  Puts h jobs (linked tail) = Unit {0}
  Puts h [] (swing_copied tail atom) = Unit {0}
  Puts h (job ∷ jobs) (swing_copied tail atom) = has atom.ptr jobs ≡ false
  Puts h jobs swung = Unit {0}
  Puts h jobs returned = Unit {0}
  Puts h jobs Shared.faulted = Unit {0}

  -- `a` is NULL or the first entry behind the head.
  abbrev pub IsNext : List (ℕ × A) → ℕ → Type 0
  IsNext [] a = a ≡ 0
  IsNext ((b, v) ∷ cells) a = (a ≡ 0) ⊎ (a ≡ b)

  abbrev pub IsFirst : List (ℕ × A) → ℕ → A → Type 0
  IsFirst [] a w = ⊥
  IsFirst ((b, v) ∷ cells) a w = (a ≡ b) × (w ≡ v)

  -- Where the call of `dequeue` stands.
  abbrev pub Gets : Pointer → (ahead cells : List (ℕ × A)) → TakePc A → Type 0
  Gets at ahead cells begun = Unit {0}
  Gets at ahead cells (got_head head) = head ≡ at
  Gets at ahead cells (got_ends head tail) = head ≡ at
  Gets at ahead cells (got_link head tail next) =
      (head ≡ at) × (has next.ptr ahead ≡ false) × IsNext cells next.ptr
  Gets at ahead cells (compared head tail next) =
      (head ≡ at) × (has next.ptr ahead ≡ false) × IsNext cells next.ptr
  Gets at ahead cells (tail_copied tail next atom) =
      (has next.ptr ahead ≡ false) × (has atom.ptr ahead ≡ false)
  Gets at ahead cells (got_value head next value) = (head ≡ at) × IsFirst cells next.ptr value
  Gets at ahead cells (head_copied head next value atom) =
      (head ≡ at) × IsFirst cells next.ptr value × (atom ≡ at)
  Gets at ahead cells (unlinked head value) =
      (has head.ptr ahead ≡ false) × ((head.ptr == at.ptr) ≡ false) × (has head.ptr cells ≡ false)
  Gets at ahead cells (freed value) = Unit {0}
  Gets at ahead cells (answered o) = Unit {0}
  Gets at ahead cells (Take.faulted o) = Unit {0}

  -- Of the values `all`, those in `out` have been answered, and the others are in hand, in the queue
  -- and on their way, in order.
  pub record Holds (q : Queue A) (jobs : List (ℕ × A)) (p : Pc) (g : TakePc A) (all out : List A)
      : Type 0 where
    pub cells : List (ℕ × A)
    pub sound : IsSound q (unsent p jobs) cells
    pub distinct : Distinct jobs
    pub putting : Puts q.heap jobs p
    pub getting : Gets q.head (unsent p jobs) cells g
    pub account : all ≡ (out ++ in_hand g) ++ (values cells ++ values (unsent p jobs))
