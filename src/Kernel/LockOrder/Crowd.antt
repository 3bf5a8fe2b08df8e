-- ===== src/Kernel/LockOrder/Crowd.antt =====
-- kernelmod/vfs_kprobe.c: any number of probes report at the same time as `send_func` runs.
use everyfile.Prelude.{ℕ, ◌≡◌, ◌⊎◌, inl, inr, refl, Bool, List, ◌∷◌, All}
use everyfile.Kernel.LockOrder.{Sender, Adder, out, State, Step}
use everyfile.Kernel.LockOrder.Sound.{IsSound}

pub record Crowd : Type 0 where
  pub sender : Sender
  pub adders : List Adder
  pub sl_file : Bool
  pub sl_buf : Bool
  pub msg_buf_size : ℕ
  pub file_on : ℕ

-- The sending thread and one of the others.
abbrev pub view : Adder → Crowd → State
view a s = record {
  sender = s.sender;
  adder = a;
  sl_file = s.sl_file;
  sl_buf = s.sl_buf;
  msg_buf_size = s.msg_buf_size;
  file_on = s.file_on;
}

abbrev pub crowd : State → List Adder → Crowd
crowd s adders = record {
  sender = s.sender;
  adders = adders;
  sl_file = s.sl_file;
  sl_buf = s.sl_buf;
  msg_buf_size = s.msg_buf_size;
  file_on = s.file_on;
}

-- One thread goes from `a` to `b`.
pub data Change (a b : Adder) : List Adder → List Adder → Type 0 where
  here : {xs : List Adder} → Change a b (a ∷ xs) (b ∷ xs)
  later : {x : Adder} {xs ys : List Adder} → Change a b xs ys → Change a b (x ∷ xs) (x ∷ ys)

-- A step of the sending thread or of one of the others.
pub data CrowdStep (s : Crowd) : Crowd → Type 0 where
  one :
      {a : Adder} {t : State} {adders : List Adder}
      → Change a t.adder s.adders adders
      → Step (view a s) t
      → CrowdStep s (crowd t adders)

pub data CrowdSteps (s : Crowd) : Crowd → Type 0 where
  no_step : CrowdSteps s s
  then_step : {t u : Crowd} → CrowdSteps s t → CrowdStep t u → CrowdSteps s u

-- All but one, which is at `a`, are outside their locks.
pub data Alone (a : Adder) : List Adder → Type 0 where
  first : {xs : List Adder} → All (λ x. x ≡ out) xs → Alone a (a ∷ xs)
  behind : {x : Adder} {xs : List Adder} → x ≡ out → Alone a xs → Alone a (x ∷ xs)

-- No two threads hold one lock, and the flags say which do.
pub record IsOrderly (s : Crowd) : Type 0 where
  pub inside : Adder
  pub alone : Alone inside s.adders
  pub sound : IsSound (view inside s)

Alone-out : {a : Adder} {xs : List Adder} → a ≡ out → Alone a xs → All (λ x. x ≡ out) xs
Alone-out e (first h) = (e, h)
Alone-out e (behind o h) = (o, Alone-out e h)

-- A thread that enters, or that stays out, while all are out.
Change-out :
    {c b : Adder} {xs ys : List Adder}
    → Change c b xs ys
    → All (λ x. x ≡ out) xs
    → (c ≡ out) × Alone b ys × (b ≡ out → All (λ x. x ≡ out) ys)
Change-out here (o, h) = (o, first h, λ e. (e, h))
Change-out (later ch) (o, h) =
    let (c_out, alone, all) = Change-out ch h in (c_out, behind o alone, λ e. (o, all e))

-- What a change from `c` to `b` means for the thread inside, which is at `a`: it is the one that
-- moves, or the one that moves is out.
abbrev pub Moved : Adder → Adder → Adder → List Adder → Type 0
Moved a c b ys =
    ((c ≡ a) × Alone b ys) ⊎ ((c ≡ out) × (b ≡ out → Alone a ys) × (a ≡ out → Alone b ys))

Moved-behind : {a c b x : Adder} {ys : List Adder} → x ≡ out → Moved a c b ys → Moved a c b (x ∷ ys)
Moved-behind o (inl (e, alone)) = inl (e, behind o alone)
Moved-behind o (inr (e, stays, enters)) =
    inr (e, (λ f. behind o (stays f)), λ f. behind o (enters f))

pub Change-Moved :
    {a c b : Adder} {xs ys : List Adder} → Change c b xs ys → Alone a xs → Moved a c b ys
Change-Moved here (first h) = inl (refl, first h)
Change-Moved here (behind o h) = inr (o, (λ e. behind e h), λ e. first (Alone-out e h))
Change-Moved (later ch) (first h) =
    let (c_out, alone, all) = Change-out ch h in
    inr (c_out, (λ e. first (all e)), λ e. behind e alone)
Change-Moved (later ch) (behind o h) = Moved-behind o (Change-Moved ch h)

-- The one inside can move to any place.
pub Change-any :
    {a : Adder} (b : Adder) {xs : List Adder}
    → Alone a xs
    → (ys : List Adder) × Change a b xs ys × Alone b ys
Change-any b (first {xs} h) = (b ∷ xs, here, first h)
Change-any b (behind {x} o h) =
    let (ys, ch, alone) = Change-any b h in (x ∷ ys, later ch, behind o alone)
