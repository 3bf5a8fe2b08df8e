-- ===== src/Kernel/Buffer/Sound.antt =====
-- The invariant of the message buffer, and what `add_vfs_changed` does to it on each branch.
use everyfile.Prelude.{
  ℕ, ◌+◌, ◌%◌, ◌^◌, ◌≤◌, ◌<◌, ◌≡◌, Bool, true, false, List, [], ◌∷◌, ◌++◌, Bytes, arith, take,
  length,
}
use everyfile.Kernel.State.{Msg, Kernel, ok, undefined, Unlocked}
use everyfile.Kernel.Buffer.{max_msg_buf_len, encode, Writer, add_vfs_changed}

-- Between two calls the locks are free, the counter counts the list, and the list is short.
pub record IsSound (k : Kernel) : Type 0 where
  pub unlocked : Unlocked k
  pub counted : k.msg_buf_size ≡ length k.msg_buf
  pub bounded : length k.msg_buf ≤ max_msg_buf_len

-- The message that `add_vfs_changed` makes of its arguments.
abbrev pub message : Bytes → ℕ → ℕ → Msg
message fl_path path_len flags = record {
  flags = flags;
  len = path_len % 2 ^ 16;
  path = take (path_len % 2 ^ 16) fl_path;
}

module _ (w : Writer) (mem : Bool) (fl_path : Bytes) (path_len flags : ℕ) where
  -- There is room.
  pub add_vfs_changed-append :
      (k : Kernel)
      → IsSound k
      → length k.msg_buf < max_msg_buf_len
      → add_vfs_changed w true mem fl_path path_len flags k
        ≡ ok 0 (record k {
          msg_buf = k.msg_buf ++ message fl_path path_len flags ∷ [];
          msg_buf_size = k.msg_buf_size + 1;
        })
  unfolding add_vfs_changed
  add_vfs_changed-append k s h = ground arith

  -- The buffer is full: the oldest message goes to the file, and the daemon is to be told.
  pub add_vfs_changed-spill :
      (k : Kernel) (first : Msg) (rest : List Msg)
      → IsSound k
      → k.msg_buf ≡ first ∷ rest
      → length k.msg_buf ≡ max_msg_buf_len
      → mem ≡ true
      → add_vfs_changed w true mem fl_path path_len flags k
        ≡ ok 0 (record k {
          msg_buf = rest ++ message fl_path path_len flags ∷ [];
          log_file = (w k.log_file (encode first) k.pos).0;
          pos = (w k.log_file (encode first) k.pos).1;
          file_on = 1;
        })
  unfolding add_vfs_changed
  add_vfs_changed-spill k first rest s e h g = rw (g, e) (ground arith)

  add_vfs_changed-undefined :
      (k : Kernel) (first : Msg) (rest : List Msg)
      → IsSound k
      → k.msg_buf ≡ first ∷ rest
      → length k.msg_buf ≡ max_msg_buf_len
      → mem ≡ false
      → add_vfs_changed w true mem fl_path path_len flags k ≡ undefined
  unfolding add_vfs_changed
  add_vfs_changed-undefined k first rest s e h g = rw (g, e) (ground arith)
