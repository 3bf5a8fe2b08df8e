-- ===== src/Kernel/Buffer.antt =====
-- kernelmod/vfs_kprobe.c: the buffer of messages and its overflow into the log file.
pub mod Sound
pub mod History
use everyfile.Prelude.{
  ℕ, ◌+◌, ◌%◌, ◌^◌, Bool, Option, none, some, List, [], ◌∷◌, ◌++◌, Bytes, take, length, ltb,
  if◌then◌else◌,
}
use everyfile.Kernel.State.{
  Msg, Kernel, Run, ok, M, pure, fail, ◌>>=◌, ◌>>◌, buf, file, spin_lock, spin_unlock, inc32, dec32,
}

-- `MAX_MSG_BUF_LEN`
abbrev pub max_msg_buf_len : ℕ
max_msg_buf_len = 128

-- The text of a message, as the daemon and the log file get it: a digit, a space and the path.
unfoldable pub encode : Msg → Bytes
encode m = (m.flags % 10 + b'0') ∷ b' ' ∷ take m.len m.path

-- The caller holds `sl_buf`.
unfoldable pub get_msg_from_list : M (Option Msg)
get_msg_from_list k = elim k.msg_buf [ [] ↦ ok none k | m ∷ rest ↦ ok (some m) k ]

-- `list_del` of the first message.
abbrev pub list_del : M (Unit {0})
list_del k = elim k.msg_buf [ [] ↦ ok tt k | m ∷ rest ↦ ok tt (record k { msg_buf = rest }) ]

abbrev pub list_add_tail : Msg → M (Unit {0})
list_add_tail m k = ok tt (record k { msg_buf = k.msg_buf ++ m ∷ [] })

abbrev pub set_size : (ℕ → ℕ) → M (Unit {0})
set_size f k = ok tt (record k { msg_buf_size = f k.msg_buf_size })

-- The kernel's `kernel_write(fp, text, size, &pos)`, given the file and the position: the file and
-- the position after it.
abbrev pub Writer : Type 0
Writer = Bytes → Bytes → ℕ → Bytes × ℕ

module _ (kernel_write : Writer) where
  abbrev pub write_log : Bytes → M (Unit {0})
  write_log text k =
      let (contents, pos') = kernel_write k.log_file text k.pos in
      ok tt (record k { log_file = contents; pos = pos' })

  abbrev unlink : Option Msg → M (Unit {0})
  unlink none = pure tt
  unlink (some m) = do list_del; set_size dec32

  -- Without a message the code reads through NULL; `mem` is whether `kmalloc` gives room for the
  -- text, which is not tested either.
  abbrev spill : Bool → Option Msg → M (Unit {0})
  spill mem none = fail
  spill mem (some m) = if mem then write_log (encode m) else fail

  unfoldable pub add_msg_to_file : Bool → M (Unit {0})
  unfolding get_msg_from_list encode
  add_msg_to_file mem = do msg ← get_msg_from_list; unlink msg; spill mem msg

  abbrev set_file_on : ℕ → M (Unit {0})
  set_file_on n k = ok tt (record k { file_on = n })

  abbrev overflow : Bool → M (Unit {0})
  overflow mem = do add_msg_to_file mem; spin_lock file; set_file_on 1; spin_unlock file

  abbrev if_full : Bool → M (Unit {0})
  if_full mem k = if ltb max_msg_buf_len k.msg_buf_size then overflow mem k else ok tt k

  -- `room` and `mem` are the answers of the two calls of `kmalloc`; `path_len` is an `uint16_t`.
  unfoldable pub add_vfs_changed : (room mem : Bool) → Bytes → ℕ → ℕ → M ℕ
  unfolding add_msg_to_file
  add_vfs_changed room mem fl_path path_len flags =
      if room
      then (do
        let len = path_len % 2 ^ 16
        spin_lock buf
        list_add_tail (record { flags = flags; len = len; path = take len fl_path })
        set_size inc32
        if_full mem
        spin_unlock buf
        pure 0)
      else pure 1
