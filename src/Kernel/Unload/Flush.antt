-- ===== src/Kernel/Unload/Flush.antt =====
-- What the flush at unloading writes and what it leaves.
use everyfile.Prelude.{
  ℕ, zero, suc, ◌+◌, ◌/◌, ◌%◌, ◌^◌, ◌<◌, ◌≡◌, refl, inl, inr, Bool, true, false, some, List, [],
  ◌∷◌, ◌++◌, arith, take, drop, length, take-append-drop, length-take_of_le, sym, ◌∙◌, ◌==◌,
  Bool-cases, if◌then◌else◌,
}
use everyfile.Kernel.State.{Msg, Kernel, Run, ok, undefined, dec32}
use everyfile.Kernel.Buffer.{encode, Writer, add_msg_to_file}
use everyfile.Kernel.Buffer.Sound.{IsSound}
use everyfile.Kernel.Buffer.History.{write_all}
use everyfile.Kernel.Unload.{flush_loop, kprobe_exit}

module _ (w : Writer) where
  abbrev flushed : Msg → List Msg → Kernel → Kernel
  flushed m rest k = record k {
    msg_buf = rest;
    msg_buf_size = dec32 k.msg_buf_size;
    log_file = (w k.log_file (encode m) k.pos).0;
    pos = (w k.log_file (encode m) k.pos).1;
  }

  add_msg_to_file-cons :
      (m : Msg) (rest : List Msg) (k : Kernel)
      → k.msg_buf ≡ m ∷ rest
      → add_msg_to_file w true k ≡ ok tt (flushed m rest k)
  unfolding add_msg_to_file
  add_msg_to_file-cons m rest k e = rw e

  -- On an empty list the code reads the length of a message through NULL.
  add_msg_to_file-nil :
      (mem : Bool) (k : Kernel) → k.msg_buf ≡ [] → add_msg_to_file w mem k ≡ undefined
  unfolding add_msg_to_file
  add_msg_to_file-nil mem k e = rw e

  abbrev twice_counted : Msg → List Msg → Kernel → Kernel
  twice_counted m rest k = record (flushed m rest k) { msg_buf_size = dec32 (dec32 k.msg_buf_size) }

  -- One round on a message.
  flush_loop-cons :
      (fuel i : ℕ) (m : Msg) (rest : List Msg) (k : Kernel)
      → k.msg_buf ≡ m ∷ rest
      → (k.msg_buf_size == 0) ≡ false
      → flush_loop w (λ _. true) (suc fuel) i k
        ≡ flush_loop w (λ _. true) fuel (i + 1) (twice_counted m rest k)
  unfolding flush_loop
  flush_loop-cons fuel i m rest k e more = ground (arith, add_msg_to_file-cons m rest k e)

  flush_loop-even :
      (front back : List Msg) (fuel i : ℕ) (k : Kernel)
      → k.msg_buf ≡ front ++ back
      → k.msg_buf_size ≡ length front + length front
      → k.msg_buf_size < 2 ^ 32
      → length front < fuel
      → flush_loop w (λ _. true) fuel i k
        ≡ some (
            ok tt (record k {
              msg_buf = back;
              msg_buf_size = 0;
              log_file = (write_all w front (k.log_file, k.pos)).0;
              pos = (write_all w front (k.log_file, k.pos)).1;
            }))
  flush_loop-even front back zero i k e size small enough = absurd (omega arith)
  flush_loop-even [] back (suc fuel) i k e size small enough =
      unfold flush_loop write_all in ground arith
  flush_loop-even (m ∷ front) back (suc fuel) i k e size small enough =
      flush_loop-cons fuel i m (front ++ back) k e (ground arith)
      ∙ (flush_loop-even front back fuel (i + 1) (twice_counted m (front ++ back) k) refl
            (omega arith) (omega arith) (omega arith)
          ∙ unfold write_all in refl)

  flush_loop-odd :
      (ms : List Msg) (fuel i : ℕ) (k : Kernel)
      → k.msg_buf ≡ ms
      → k.msg_buf_size % 2 ≡ 1
      → k.msg_buf_size < 2 ^ 32
      → length ms < fuel
      → flush_loop w (λ _. true) fuel i k ≡ some undefined
  flush_loop-odd ms zero i k e odd small enough = absurd (omega arith)
  flush_loop-odd [] (suc fuel) i k e odd small enough =
      let more : (k.msg_buf_size == 0) ≡ false = ground arith in
      unfold flush_loop in ground (arith, add_msg_to_file-nil true k e)
  flush_loop-odd (m ∷ ms) (suc fuel) i k e odd small enough =
      flush_loop-cons fuel i m ms k e (ground arith)
      ∙ flush_loop-odd ms fuel (i + 1) (twice_counted m ms k) refl (omega arith) (omega arith)
          (omega arith)

  -- The state when the oldest `n` messages have been written.
  unfoldable pub half_written : ℕ → Kernel → Kernel
  unfolding write_all
  half_written n k = record k {
    msg_buf = drop n k.msg_buf;
    msg_buf_size = 0;
    log_file = (write_all w (take n k.msg_buf) (k.log_file, k.pos)).0;
    pos = (write_all w (take n k.msg_buf) (k.log_file, k.pos)).1;
  }

  -- What the unloading comes to.
  abbrev pub flush_outcome : Kernel → Run (Unit {0})
  flush_outcome k =
      if length k.msg_buf % 2 == 0 then ok tt (half_written (length k.msg_buf / 2) k) else undefined

  pub kprobe_exit_lem :
      (fuel : ℕ) (k : Kernel)
      → IsSound k
      → length k.msg_buf < fuel
      → kprobe_exit w (λ _. true) fuel k ≡ some (flush_outcome k)
  unfolding kprobe_exit half_written
  kprobe_exit_lem fuel k s enough =
      let n = length k.msg_buf / 2 in
      let front : length (take n k.msg_buf) ≡ n = length-take_of_le n k.msg_buf (omega arith) in
      elim (Bool-cases (length k.msg_buf % 2 == 0)) [
        | inl even ↦
            let twice : length k.msg_buf ≡ n + n = ground arith in
            rw even (
              flush_loop-even (take n k.msg_buf) (drop n k.msg_buf) fuel 0 k
                (sym (take-append-drop n k.msg_buf)) (omega arith) (omega arith) (omega arith))
        | inr odd ↦
            rw odd
              (flush_loop-odd k.msg_buf fuel 0 k refl (ground arith) (omega arith) (omega arith))
      ]
