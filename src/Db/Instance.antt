-- ===== src/Db/Instance.antt =====
-- src/ef_db.cpp: the one instance of the database, `get_instance` and `destory_instance`, in any number
-- of threads. Each thread destroys at most once.
pub mod Sound
pub mod Dangling
use everyfile.Prelude.{ℕ, ◌+◌, ◌≡◌, Bool, true, false, Option, none, some, ◌==◌, if◌then◌else◌}

-- Where a call of `destory_instance` stands.
pub data Place : Type 0 where
  before : Place
  testing : Place
  deleting : Place
  clearing : Place
  unlocking : Place
  behind : Place

-- `instance` is whether `_instance` is not NULL; `deleted` counts how often the object was deleted.
pub record State : Type 0 where
  pub instance : Bool
  pub destory_mutex : Bool
  pub deleted : ℕ
  pub places : ℕ → Place

abbrev pub moved : (ℕ → Place) → ℕ → Place → ℕ → Place
moved places i p j = if j == i then p else places j

-- One step of the thread `i`.
pub data Step (s : State) (i : ℕ) : State → Type 0 where
  lock :
      s.places i ≡ before
      → s.destory_mutex ≡ false
      → Step s i (record s { destory_mutex = true; places = moved s.places i testing })
  find :
      s.places i ≡ testing
      → s.instance ≡ true
      → Step s i (record s { places = moved s.places i deleting })
  miss :
      s.places i ≡ testing
      → s.instance ≡ false
      → Step s i (record s { places = moved s.places i unlocking })
  delete :
      s.places i ≡ deleting
      → Step s i (record s { deleted = s.deleted + 1; places = moved s.places i clearing })
  clear :
      s.places i ≡ clearing
      → Step s i (record s { instance = false; places = moved s.places i unlocking })
  unlock :
      s.places i ≡ unlocking
      → Step s i (record s { destory_mutex = false; places = moved s.places i behind })

pub data Steps (s : State) : State → Type 0 where
  done : Steps s s
  more : {t u : State} {i : ℕ} → Steps s t → Step t i u → Steps s u

-- What `get_instance` returns: whether there is a pointer. It does not take the mutex.
abbrev pub get_instance : State → Bool
get_instance s = s.instance

-- Behind the constructor of the instance.
abbrev pub created : State
created = record { instance = true; destory_mutex = false; deleted = 0; places = λ i. before }
