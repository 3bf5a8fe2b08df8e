-- ===== src/Daemon/Message.antt =====
-- src/daemon/efd.cpp: what the daemon makes of one message.
pub mod Decode
use everyfile.Prelude.{
  ℕ, ◌+◌, ◌-◌, Option, none, some, List, [], ◌∷◌, ◌++◌, Bytes, length, get_or, take, drop,
  replicate, ltb, ◌==◌, if◌then◌else◌, until_nul,
}
use everyfile.Scan.Info.{FileInfo, FileType, ereg, edir}

-- `MSG_LEN`
abbrev pub msg_len : ℕ
msg_len = 1024

-- A call of the database.
pub data Call : Type 0 where
  add : FileInfo → Call
  rm : Bytes → Call

-- `u_info.msg` behind `recvfrom`: the field was set to zero, and takes at most its size.
unfoldable pub fill : Bytes → Bytes
fill payload = take msg_len payload ++ replicate (msg_len - length payload) 0

-- `u_info.msg[0] - '0'`; a negative number is no case of the switch, and is 0 here.
unfoldable pub kind : Bytes → ℕ
kind msg = get_or msg 0 0 - b'0'

-- The loop `for (i = 2; i < MSG_LEN && msg[i] != 0; i++) file_name += msg[i]`.
unfoldable pub name_loop : ℕ → Bytes → Bytes → Bytes
name_loop n [] name = name
name_loop n (c ∷ rest) name =
    let later = name_loop (n + 1) rest (name ++ c ∷ []) in
    if ltb n msg_len then (if c == 0 then name else later) else name

unfoldable pub name_of : Bytes → Bytes
unfolding name_loop
name_of msg = name_loop 2 (drop 2 msg) []

-- The cases that insert a file of kind `type`, and those that remove one. `info` is the variable of
-- the loop, kept from one message to the next; `now` is the time of day in seconds.
abbrev insertion : (now : ℕ) → Bytes → FileType → FileInfo × Option Call
insertion now msg type =
    let info : FileInfo = record { file_name = name_of msg; file_type = type; file_time = now } in
    (info, some (add info))

abbrev removal : Bytes → FileInfo → FileInfo × Option Call
removal msg info = (record info { file_name = name_of msg }, some (rm (name_of msg)))

-- The switch.
unfoldable pub handle : (now : ℕ) → Bytes → FileInfo → FileInfo × Option Call
handle now msg info =
    if kind msg == 1
    then insertion now msg ereg
    else if kind msg == 2
    then removal msg info
    else if kind msg == 3
    then insertion now msg edir
    else if kind msg == 4
    then removal msg info
    else if kind msg == 5
    then (info, none)
    else if kind msg == 6
    then insertion now msg ereg
    else (info, none)
