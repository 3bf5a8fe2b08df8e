-- ===== src/Daemon/Message/Decode.antt =====
-- What the daemon reads is what the kernel wrote.
use everyfile.Prelude.{
  ℕ, suc, ◌+◌, ◌-◌, ◌%◌, ◌≤◌, ◌≡◌, sym, ◌∙◌, [], ◌∷◌, ◌++◌, Bytes, arith, length, length-append,
  take, take_of_le, drop, replicate, append-nil, append-snoc, IsText, until_nul,
  until_nul-replicate, IsText-take, length-replicate, length-take,
}
use everyfile.Kernel.State.{Msg}
use everyfile.Kernel.Buffer.{encode}
use everyfile.Daemon.Message.{msg_len, fill, kind, name_loop, name_of}

-- The loop adds what stands before the first terminator.
name_loop_lem :
    (n : ℕ) (rest name : Bytes)
    → n + length rest ≤ msg_len
    → name_loop n rest name ≡ name ++ until_nul rest
unfolding name_loop
name_loop_lem n [] name h = sym (append-nil name)
name_loop_lem n (c ∷ rest) name h = ground (
  arith,
  name_loop_lem (n + 1) rest (name ++ c ∷ []),
  append-snoc name c (until_nul rest),
  append-nil name,
)

-- The name is the text behind the first two bytes.
pub name_of_lem : (msg : Bytes) → length msg ≤ msg_len → name_of msg ≡ until_nul (drop 2 msg)
unfolding name_of
name_of_lem [] h = name_loop_lem 2 [] [] (omega arith)
name_of_lem (a ∷ []) h = name_loop_lem 2 [] [] (omega arith)
name_of_lem (a ∷ b ∷ rest) h = name_loop_lem 2 rest [] (omega arith)

-- How much of a path fits behind the flag and the space.
abbrev pub path_room : ℕ
path_room = msg_len - 2

length-padded : (n : ℕ) (s : Bytes) → length (take n s ++ replicate (n - length s) 0) ≤ n
length-padded n s = omega (
  arith,
  length-append (take n s) (replicate (n - length s) 0),
  length-take n s,
  length-replicate {A = ℕ} (n - length s) 0,
)

-- For a message as long as its path, whose path has no terminator, the daemon reads back the last
-- digit of the flags and the path, cut at 1022 bytes.
pub decode-encode :
    (m : Msg)
    → m.len ≡ length m.path
    → IsText m.path
    → (kind (fill (encode m)) ≡ m.flags % 10) × (name_of (fill (encode m)) ≡ take path_room m.path)
unfolding kind fill encode
decode-encode m whole clean =
    let same : take m.len m.path ≡ m.path = take_of_le m.len m.path (omega arith) in
    let room : msg_len - suc (suc (length m.path)) ≡ path_room - length m.path = omega arith in
    (
      omega arith,
      rw (same, room)
          (name_of_lem _ (omega (arith, length-padded path_room m.path))
            ∙ until_nul-replicate (take path_room m.path) _ (IsText-take path_room m.path clean)),
    )
