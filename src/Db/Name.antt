-- ===== src/Db/Name.antt =====
-- What `add` makes of a name that begins with two slashes.
use everyfile.Prelude.{
  ℕ, suc, ◌+◌, ◌-◌, ◌≡◌, ◌⊎◌, refl, ap, false, [], ◌∷◌, ◌++◌, Bytes, arith, length, set, get_or,
  append-snoc, length-append, ◌==◌,
}
use everyfile.Db.{shift_loop, strip}

-- The last byte of `c ∷ s`.
abbrev pub last : ℕ → Bytes → ℕ
last c [] = c
last c (d ∷ s) = last d s

set-append :
    (front : Bytes) (c d : ℕ) (s : Bytes) → set (front ++ c ∷ s) (length front) d ≡ front ++ (d ∷ s)
set-append [] c d s = refl
set-append (x ∷ front) c d s = ap (λ t. x ∷ t) (set-append front c d s)

get_or-second :
    (front : Bytes) (c d : ℕ) (s : Bytes) → get_or (front ++ c ∷ d ∷ s) (suc (length front)) 0 ≡ d
get_or-second [] c d s = refl
get_or-second (x ∷ front) c d s = get_or-second front c d s

shift_loop-suc :
    (n i : ℕ) (name : Bytes)
    → shift_loop (suc n) i name ≡ shift_loop n (i + 1) (set name (i - 1) (get_or name i 0))
unfolding shift_loop
shift_loop-suc n i name = refl

shift_loop-zero : (i : ℕ) (name : Bytes) → shift_loop 0 i name ≡ name
unfolding shift_loop
shift_loop-zero i name = refl

-- What stands from place `length front` on moves up by one, and the last byte stays.
shift_loop_lem :
    (front : Bytes) (c : ℕ) (s : Bytes)
    → shift_loop (length s) (suc (length front)) (front ++ c ∷ s) ≡ front ++ (s ++ last c s ∷ [])
shift_loop_lem front c [] = shift_loop-zero _ _
shift_loop_lem front c (d ∷ s) =
    let back : suc (length front) - 1 ≡ length front = omega arith in
    let next : suc (length (front ++ d ∷ [])) ≡ suc (length front) + 1 =
      omega (arith, length-append front (d ∷ [])) in
    rw
      (
        shift_loop-suc (length s) (suc (length front)) (front ++ c ∷ d ∷ s),
        get_or-second front c d s,
        back,
        set-append front c d (d ∷ s),
      )
      (rw (next, append-snoc front d (d ∷ s), append-snoc front d (s ++ last d s ∷ [])) at
        (shift_loop_lem (front ++ d ∷ []) d s))

-- Of a name with two slashes in front add drops one and doubles the last byte.
pub strip-slashes : (s : Bytes) → strip (b'/' ∷ b'/' ∷ s) ≡ b'/' ∷ (s ++ last b'/' s ∷ [])
unfolding strip
strip-slashes s =
    let size : suc (suc (length s)) - 1 ≡ suc (length s) = omega arith in
    rw size (shift_loop_lem [] b'/' (b'/' ∷ s))

-- Any other name stays.
pub strip-other :
    (s : Bytes) → (get_or s 0 0 == b'/') ≡ false ⊎ ((get_or s 1 0 == b'/') ≡ false) → strip s ≡ s
unfolding strip
strip-other s h = ground arith
