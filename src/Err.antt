-- ===== src/Err.antt =====
-- src/ef_err.h and src/ef_debug.h: the printing of errors. `sprintf` and the text of `strerror` are
-- given as texts of C.
pub mod Printed
use everyfile.Prelude.{
  ℕ, zero, suc, ◌+◌, ◌-◌, Bool, true, false, Option, none, some, List, [], ◌∷◌, ◌++◌, Bytes, length,
  take, replicate, get_or, ltb, leb, ◌==◌, if◌then◌else◌, codes, sprintf, Arg, text,
}

-- `MAXLINE`
abbrev pub maxline : ℕ
maxline = 4096

-- What has gone to `std::cerr` when the function is left: by a return, or by `exit(1)`; or `sprintf`
-- has written behind the string.
pub data Shown : Type 0 where
  back : Bytes → Shown
  exit_1 : Bytes → Shown
  overran : Shown

-- `for (i = 0; i < buf.size(); i++) if (buf[i] == '\0') buf.resize(i)`
unfoldable pub trim_loop : (fuel i : ℕ) → Bytes → Bytes
trim_loop zero i buf = buf
trim_loop (suc fuel) i buf =
    let cut = trim_loop fuel (i + 1) (take i buf) in
    let rest = trim_loop fuel (i + 1) buf in
    if ltb i (length buf) then (if get_or buf i 0 == 0 then cut else rest) else buf

-- A text printed into a string of `maxline` terminators.
abbrev pub printed : Option Bytes → Option Bytes
printed none = none
printed (some s) =
    if leb (length s) maxline then some (s ++ replicate (maxline - length s) 0) else none

-- With `std::endl`.
abbrev pub end_line : Bytes → Shown
end_line buf = back (buf ++ 10 ∷ [])

abbrev pub with_errinfo : Bytes → Option Bytes → Shown
with_errinfo buf none = overran
with_errinfo buf (some errinfo) = end_line (buf ++ errinfo)

-- `strerror` is the text for the error.
abbrev pub trimmed : (errnoflag : Bool) → (strerror : Bytes) → Option Bytes → Shown
trimmed errnoflag strerror none = overran
trimmed errnoflag strerror (some buf) =
    let front = trim_loop (suc maxline) 0 buf in
    if errnoflag
    then with_errinfo front (printed (sprintf (codes ": %s") (text strerror ∷ [])))
    else end_line front

unfoldable pub err_doit : (errnoflag : Bool) → (strerror : Bytes) → Bytes → List Arg → Shown
err_doit errnoflag strerror t tail = trimmed errnoflag strerror (printed (sprintf t tail))

-- `exit(1)` behind it.
abbrev and_exit : Shown → Shown
and_exit (back s) = exit_1 s
and_exit (exit_1 s) = exit_1 s
and_exit overran = overran

-- `strerror` is the text for `errno`.
unfoldable pub err_sys : (strerror : Bytes) → Bytes → List Arg → Shown
unfolding err_doit
err_sys strerror t tail = and_exit (err_doit true strerror t tail)

-- `strerror` is the text for the argument `error`.
unfoldable pub err_exit : (strerror : Bytes) → Bytes → List Arg → Shown
unfolding err_doit
err_exit strerror t tail = and_exit (err_doit true strerror t tail)

-- `strerror` is the text for 0, here and below, and is not looked at.
unfoldable pub err_msg : (strerror : Bytes) → Bytes → List Arg → Shown
unfolding err_doit
err_msg strerror t tail = err_doit false strerror t tail

unfoldable pub err_quit : (strerror : Bytes) → Bytes → List Arg → Shown
unfolding err_doit
err_quit strerror t tail = and_exit (err_doit false strerror t tail)

abbrev untrimmed : Option Bytes → Shown
untrimmed none = overran
untrimmed (some buf) = end_line buf

-- `debug` is whether `DEBUG` is defined; the string is not trimmed.
unfoldable pub debug_info : (debug : Bool) → Bytes → List Arg → Shown
unfolding sprintf
debug_info debug t tail = if debug then untrimmed (printed (sprintf t tail)) else back []
