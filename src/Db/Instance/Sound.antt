-- ===== src/Db/Instance/Sound.antt =====
-- However many threads destroy the instance, it is deleted once.
use everyfile.Prelude.{
  ℕ, ◌+◌, ◌≡◌, ◌≤◌, refl, sym, ◌∙◌, ap, ◌⊎◌, inl, inr, Bool, true, false, ◌==◌, ==_iff, ==_refl,
  if◌then◌else◌, arith, Bool-cases,
}
use mathlib.Core.Path.{subst}
use everyfile.Db.Instance.{
  Place, before, testing, deleting, clearing, unlocking, behind, State, moved, Step, lock, find,
  miss, delete, clear, unlock, Steps, done, more, created, get_instance,
}

-- Between the lock and the unlock.
abbrev in_lock : Place → Bool
in_lock before = false
in_lock testing = true
in_lock deleting = true
in_lock clearing = true
in_lock unlocking = true
in_lock behind = false

-- The object is there, or it has been deleted once.
abbrev Balanced : Bool → ℕ → Type 0
Balanced instance deleted = (if instance then 1 else 0) + deleted ≡ 1

-- What the thread with the lock knows.
abbrev Phase : Place → Bool → ℕ → Type 0
Phase before instance deleted = ⊥
Phase testing instance deleted = Balanced instance deleted
Phase deleting instance deleted = (instance ≡ true) × (deleted ≡ 0)
Phase clearing instance deleted = (instance ≡ true) × (deleted ≡ 1)
Phase unlocking instance deleted = (instance ≡ false) × (deleted ≡ 1)
Phase behind instance deleted = ⊥

abbrev Finished : Place → Bool → Type 0
Finished behind instance = instance ≡ false
Finished before instance = Unit {0}
Finished testing instance = Unit {0}
Finished deleting instance = Unit {0}
Finished clearing instance = Unit {0}
Finished unlocking instance = Unit {0}

-- A thread that is not in the lock; behind it, the instance is gone.
abbrev Out : State → ℕ → Type 0
Out s j = (in_lock (s.places j) ≡ false) × Finished (s.places j) s.instance

record IsFree (s : State) : Type 0 where
  open_now : s.destory_mutex ≡ false
  all_out : (j : ℕ) → Out s j
  balanced : Balanced s.instance s.deleted

record IsHeld (s : State) (i : ℕ) : Type 0 where
  taken : s.destory_mutex ≡ true
  others_out : (j : ℕ) → (j == i) ≡ false → Out s j
  phase : Phase (s.places i) s.instance s.deleted

abbrev IsSound : State → Type 0
IsSound s = IsFree s ⊎ ((i : ℕ) × IsHeld s i)

true≢false : ¬ (true ≡ false)
true≢false h = cc

-- A thread in the lock is the one that holds it.
held_by : (s : State) (i : ℕ) → in_lock (s.places i) ≡ true → IsSound s → IsHeld s i
held_by s i inside (inl free) = absurd (true≢false (sym inside ∙ (free.all_out i).0))
held_by s i inside (inr (k, held)) = elim (Bool-cases (i == k)) [
  | inl same ↦ subst (λ n. IsHeld s n) (sym ((==_iff i k).0 same)) held
  | inr other ↦ absurd (true≢false (sym inside ∙ (held.others_out i other).0))
]

-- The threads that do not move.
still :
    (s : State) (i j : ℕ) (p : Place) (instance : Bool)
    → (j == i) ≡ false
    → (s.instance ≡ false → instance ≡ false)
    → Out s j
    → (in_lock (moved s.places i p j) ≡ false) × Finished (moved s.places i p j) instance
still s i j p instance other kept out = rw other (out.0, finished (s.places j) out.1)
  where
    finished : (q : Place) → Finished q s.instance → Finished q instance
    finished behind h = kept h
    finished before h = tt
    finished testing h = tt
    finished deleting h = tt
    finished clearing h = tt
    finished unlocking h = tt

moved_self : (places : ℕ → Place) (i : ℕ) (p : Place) → moved places i p i ≡ p
moved_self places i p = rw (==_refl i)

module _ (s : State) (i : ℕ) where
  -- The thread with the lock goes on in it.
  next :
      (p : Place) (instance : Bool) (deleted : ℕ)
      → IsHeld s i
      → (s.instance ≡ false → instance ≡ false)
      → Phase p instance deleted
      → IsHeld (record s { instance = instance; deleted = deleted; places = moved s.places i p }) i
  next p instance deleted held kept phase = record {
    taken = held.taken;
    others_out = λ j other. still s i j p instance other kept (held.others_out j other);
    phase = rw (moved_self s.places i p) phase;
  }

  at : (p : Place) → s.places i ≡ p → IsHeld s i → Phase p s.instance s.deleted
  at p e held = subst (λ q. Phase q s.instance s.deleted) e held.phase

  inside : (p : Place) → s.places i ≡ p → in_lock p ≡ true → in_lock (s.places i) ≡ true
  inside p e h = ap in_lock e ∙ h

  entered :
      s.destory_mutex ≡ false
      → IsSound s
      → IsHeld (record s { destory_mutex = true; places = moved s.places i testing }) i
  entered open_now (inl free) = record {
    taken = refl;
    others_out = λ j other. still s i j testing s.instance other (λ h. h) (free.all_out j);
    phase = rw (moved_self s.places i testing) free.balanced;
  }
  entered open_now (inr (k, held)) = absurd (true≢false (sym held.taken ∙ open_now))

  left :
      IsHeld s i
      → s.places i ≡ unlocking
      → IsFree (record s { destory_mutex = false; places = moved s.places i behind })
  left held e =
      let (gone, once) = at unlocking e held in
      record {
        open_now = refl;
        all_out = λ j. elim (Bool-cases (j == i)) [
          | inl same ↦ rw same (refl, gone)
          | inr other ↦ still s i j behind s.instance other (λ h. h) (held.others_out j other)
        ];
        balanced = rw (gone, once);
      }

Step-IsSound : {s : State} {i : ℕ} {t : State} → Step s i t → IsSound s → IsSound t
Step-IsSound {s} {i} {t} (lock e open_now) is = inr (i, entered s i open_now is)
Step-IsSound {s} {i} {t} (find e there) is =
    let held = held_by s i (inside s i testing e refl) is in
    let balance : Balanced s.instance s.deleted = at s i testing e held in
    inr (
      i,
      next s i deleting s.instance s.deleted held (λ h. h) (there, ground (arith, balance, there)),
    )
Step-IsSound {s} {i} {t} (miss e gone) is =
    let held = held_by s i (inside s i testing e refl) is in
    let balance : Balanced s.instance s.deleted = at s i testing e held in
    inr (
      i,
      next s i unlocking s.instance s.deleted held (λ h. h) (gone, ground (arith, balance, gone)),
    )
Step-IsSound {s} {i} {t} (delete e) is =
    let held = held_by s i (inside s i deleting e refl) is in
    let (there, none_yet) = at s i deleting e held in
    inr (
      i,
      next s i clearing s.instance (s.deleted + 1) held (λ h. h) (there, omega (arith, none_yet)),
    )
Step-IsSound {s} {i} {t} (clear e) is =
    let held = held_by s i (inside s i clearing e refl) is in
    let (there, once) = at s i clearing e held in
    inr (i, next s i unlocking false s.deleted held (λ h. refl) (refl, once))
Step-IsSound {s} {i} {t} (unlock e) is =
    inl (left s i (held_by s i (inside s i unlocking e refl) is) e)

Steps-IsSound : {s t : State} → IsSound s → Steps s t → IsSound t
Steps-IsSound is done = is
Steps-IsSound is (more run step) = Step-IsSound step (Steps-IsSound is run)

created-IsSound : IsSound created
created-IsSound = inl (record { open_now = refl; all_out = λ j. (refl, tt); balanced = refl })

Phase-le : (p : Place) (instance : Bool) (deleted : ℕ) → Phase p instance deleted → deleted ≤ 1
Phase-le before instance deleted h = absurd h
Phase-le testing instance deleted h = omega (arith, h)
Phase-le deleting instance deleted h = omega (arith, h.1)
Phase-le clearing instance deleted h = omega (arith, h.1)
Phase-le unlocking instance deleted h = omega (arith, h.1)
Phase-le behind instance deleted h = absurd h

IsSound-le : (s : State) → IsSound s → s.deleted ≤ 1
IsSound-le s (inl free) = omega (arith, free.balanced)
IsSound-le s (inr (i, held)) = Phase-le (s.places i) s.instance s.deleted held.phase

Phase-gone :
    (p : Place) (instance : Bool) (deleted : ℕ)
    → instance ≡ false
    → Phase p instance deleted
    → deleted ≡ 1
Phase-gone before instance deleted gone h = absurd h
Phase-gone testing instance deleted gone h = ground (arith, h, gone)
Phase-gone deleting instance deleted gone h = absurd (true≢false (sym h.0 ∙ gone))
Phase-gone clearing instance deleted gone h = h.1
Phase-gone unlocking instance deleted gone h = h.1
Phase-gone behind instance deleted gone h = absurd h

IsSound-behind :
    (s : State) (i : ℕ) → IsSound s → s.places i ≡ behind → (s.instance ≡ false) × (s.deleted ≡ 1)
IsSound-behind s i (inl free) e =
    let gone = subst (λ q. Finished q s.instance) e (free.all_out i).1 in
    (gone, ground (arith, free.balanced, gone))
IsSound-behind s i (inr (k, held)) e = elim (Bool-cases (i == k)) [
  | inl same ↦
      let here : s.places k ≡ behind = ap s.places (sym ((==_iff i k).0 same)) ∙ e in
      absurd (subst (λ q. Phase q s.instance s.deleted) here held.phase)
  | inr other ↦
      let gone = subst (λ q. Finished q s.instance) e (held.others_out i other).1 in
      (gone, Phase-gone (s.places k) s.instance s.deleted gone held.phase)
]

-- However many threads destroy the instance, each once, it is deleted at most once; behind any of
-- these calls it has been deleted, and get_instance gives NULL.
pub destory_instance-once :
    (t : State)
    → Steps created t
    → (t.deleted ≤ 1) × ((i : ℕ) → t.places i ≡ behind → (get_instance t ≡ false) × (t.deleted ≡ 1))
destory_instance-once t run =
    let is = Steps-IsSound created-IsSound run in (IsSound-le t is, λ i. IsSound-behind t i is)
