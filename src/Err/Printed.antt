-- ===== src/Err/Printed.antt =====
-- What the functions print.
use everyfile.Prelude.{
  ℕ, zero, suc, ◌+◌, ◌-◌, ◌≤◌, ◌<◌, ◌≡◌, refl, sym, ◌∙◌, true, false, some, List, [], ◌∷◌, ◌++◌,
  Bytes, length, length-append, take-append_self, replicate, get_or, ltb, leb, ◌==◌, codes, sprintf,
  Arg, text, arith, IsText, append-snoc, append-nil,
}
use everyfile.Err.{maxline, back, exit_1, trim_loop, err_doit, err_sys, err_exit, err_msg, err_quit}

get_or-mid : (front : Bytes) (c : ℕ) (s : Bytes) → get_or (front ++ c ∷ s) (length front) 0 ≡ c
get_or-mid [] c s = refl
get_or-mid (x ∷ front) c s = get_or-mid front c s

-- At the end of the string the loop stops.
trim_loop-end : (fuel i : ℕ) (buf : Bytes) → length buf ≤ i → trim_loop fuel i buf ≡ buf
unfolding trim_loop
trim_loop-end zero i buf h = refl
trim_loop-end (suc fuel) i buf h =
    let stop : ltb i (length buf) ≡ false = ground (arith, h) in rw stop

-- From place `length front` on.
trim_loop-text :
    (fuel n : ℕ) (front s : Bytes)
    → IsText s
    → length s < fuel
    → trim_loop fuel (length front) (front ++ (s ++ replicate n 0)) ≡ front ++ s
unfolding trim_loop
trim_loop-text zero n front s clean enough = absurd (omega arith)
trim_loop-text (suc fuel) zero front [] clean enough =
    trim_loop-end (suc fuel) (length front) (front ++ []) (omega (arith, length-append front []))
trim_loop-text (suc fuel) (suc n) front [] clean enough =
    let inside : ltb (length front) (length (front ++ 0 ∷ replicate n 0)) ≡ true =
      ground (arith, length-append front (0 ∷ replicate n 0)) in
    rw
      (
        inside,
        get_or-mid front 0 (replicate n 0),
        take-append_self (length front) front (0 ∷ replicate n 0) refl,
      )
      (trim_loop-end fuel (length front + 1) front (omega arith) ∙ sym (append-nil front))
trim_loop-text (suc fuel) n front (c ∷ s) clean enough =
    let inside : ltb (length front) (length (front ++ c ∷ (s ++ replicate n 0))) ≡ true =
      ground (arith, length-append front (c ∷ (s ++ replicate n 0))) in
    let other : (c == 0) ≡ false = ground (arith, clean.0) in
    let next : length (front ++ c ∷ []) ≡ length front + 1 =
      omega (arith, length-append front (c ∷ [])) in
    rw (inside, get_or-mid front c (s ++ replicate n 0), other)
      (rw (next, append-snoc front c (s ++ replicate n 0), append-snoc front c s) at
        (trim_loop-text fuel n (front ++ c ∷ []) s clean.1 (omega (arith, enough))))

-- A text that fits is trimmed to itself.
trim_loop-printed :
    (s : Bytes)
    → IsText s
    → length s ≤ maxline
    → trim_loop (suc maxline) 0 (s ++ replicate (maxline - length s) 0) ≡ s
trim_loop-printed s clean short =
    trim_loop-text (suc maxline) (maxline - length s) [] s clean (omega (arith, short))

-- What stands behind the message: the error's text, in a string that is not trimmed.
abbrev pub errinfo : Bytes → Bytes
errinfo e = (codes ": " ++ e) ++ replicate (maxline - length (codes ": " ++ e)) 0

sprintf-errinfo : (e : Bytes) → sprintf (codes ": %s") (text e ∷ []) ≡ some (codes ": " ++ e)
unfolding sprintf
sprintf-errinfo e = rw (append-nil e)

module _ (t : Bytes) (tail : List Arg) (s e : Bytes) (given : sprintf t tail ≡ some s)
    (clean : IsText s) (short : length s ≤ maxline) where
  err_doit-plain : err_doit false e t tail ≡ back (s ++ 10 ∷ [])
  unfolding err_doit
  err_doit-plain =
      let fits : leb (length s) maxline ≡ true = ground (arith, short) in
      rw (given, fits, trim_loop-printed s clean short)

  err_doit-errno :
      2 + length e ≤ maxline → err_doit true e t tail ≡ back ((s ++ errinfo e) ++ 10 ∷ [])
  unfolding err_doit
  err_doit-errno room =
      let fits : leb (length s) maxline ≡ true = ground (arith, short) in
      let fits' : leb (length (codes ": " ++ e)) maxline ≡ true = ground (arith, room) in
      rw (given, fits, trim_loop-printed s clean short, sprintf-errinfo e, fits')

  -- For a message that fits its string, err_msg and err_quit print it alone on a line, and err_sys
  -- and err_exit print it with the error's text and the rest of that string, which is not trimmed;
  -- all but err_msg exit with 1.
  pub err-prints :
      2 + length e ≤ maxline
      → (err_msg e t tail ≡ back (s ++ 10 ∷ []))
        × (err_quit e t tail ≡ exit_1 (s ++ 10 ∷ []))
        × (err_sys e t tail ≡ exit_1 ((s ++ errinfo e) ++ 10 ∷ []))
        × (err_exit e t tail ≡ exit_1 ((s ++ errinfo e) ++ 10 ∷ []))
  unfolding err_msg err_quit err_sys err_exit
  err-prints room =
      (err_doit-plain, rw err_doit-plain, rw (err_doit-errno room), rw (err_doit-errno room))
