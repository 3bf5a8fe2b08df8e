-- ===== src/Kernel/Buffer/History.antt =====
-- What a sequence of calls of `add_vfs_changed` leaves in the buffer and in the log file.
use everyfile.Prelude.{
  ℕ, suc, ◌+◌, ◌-◌, ◌≤◌, ◌<◌, ◌≡◌, refl, true, List, [], ◌∷◌, ◌++◌, Bytes, arith, take, drop, map,
  length, length-append, append-snoc, append-nil, ltb, ap, inl, inr, Bool-cases, if◌then◌else◌,
}
use everyfile.Kernel.State.{Msg, Kernel, ok, M, pure, ◌>>◌}
use everyfile.Kernel.Buffer.{max_msg_buf_len, encode, Writer, add_vfs_changed}
use everyfile.Kernel.Buffer.Sound.{IsSound, message, add_vfs_changed-append, add_vfs_changed-spill}

-- The arguments of one call.
pub record Event : Type 0 where
  pub fl_path : Bytes
  pub path_len : ℕ
  pub flags : ℕ

abbrev pub to_msg : Event → Msg
to_msg e = message e.fl_path e.path_len e.flags

-- How many of the messages are too many.
abbrev pub excess : List Msg → ℕ
excess ms = length ms - max_msg_buf_len

module _ (w : Writer) where
  -- The calls of the probes, one after another, while `kmalloc` gives memory.
  unfoldable pub add_all : List Event → M (Unit {0})
  add_all [] = pure tt
  add_all (e ∷ es) = do add_vfs_changed w true true e.fl_path e.path_len e.flags; add_all es

  -- Texts written one after another.
  unfoldable pub write_all : List Msg → Bytes × ℕ → Bytes × ℕ
  write_all [] f = f
  write_all (m ∷ ms) (text, p) = write_all ms (w text (encode m) p)

  -- After messages `ms` came in, with the file and its position `f` and the flag `on` before: the
  -- newest are in the buffer, the rest in the file.
  pub record Holds (ms : List Msg) (f : Bytes × ℕ) (on : ℕ) (k : Kernel) : Type 0 where
    pub sound : IsSound k
    pub newest : k.msg_buf ≡ drop (excess ms) ms
    pub spilled : (k.log_file, k.pos) ≡ write_all (take (excess ms) ms) f
    pub flagged : k.file_on ≡ (if ltb 0 (excess ms) then 1 else on)

  Holds-self : (k : Kernel) → IsSound k → Holds k.msg_buf (k.log_file, k.pos) k.file_on k
  unfolding write_all
  Holds-self k s =
      let none_left : excess k.msg_buf ≡ 0 = omega arith in
      record { sound = s; newest = rw none_left; spilled = rw none_left; flagged = rw none_left }

  Holds-cons :
      (first : Msg) (ms : List Msg) (f : Bytes × ℕ) (on : ℕ) (k : Kernel)
      → max_msg_buf_len ≤ length ms
      → Holds ms (w f.0 (encode first) f.1) 1 k
      → Holds (first ∷ ms) f on k
  unfolding write_all
  Holds-cons first ms f on k long h =
      let one_more : excess (first ∷ ms) ≡ suc (excess ms) = omega arith in
      record {
        sound = h.sound;
        newest = rw one_more h.newest;
        spilled = rw one_more h.spilled;
        flagged = ground (arith, h.flagged);
      }

  full-cons :
      (ms : List Msg)
      → length ms ≡ max_msg_buf_len
      → (first : Msg) × (rest : List Msg) × (ms ≡ first ∷ rest)
  full-cons [] h = absurd (omega arith)
  full-cons (m ∷ ms) h = (m, ms, refl)

  abbrev appended : Event → Kernel → Kernel
  appended e k = record k {
    msg_buf = k.msg_buf ++ to_msg e ∷ [];
    msg_buf_size = k.msg_buf_size + 1;
  }

  abbrev spilled_over : Event → Msg → List Msg → Kernel → Kernel
  spilled_over e first rest k = record k {
    msg_buf = rest ++ to_msg e ∷ [];
    log_file = (w k.log_file (encode first) k.pos).0;
    pos = (w k.log_file (encode first) k.pos).1;
    file_on = 1;
  }

  -- What is to be shown of the calls for `es`.
  abbrev pub Added : List Event → Kernel → Type 0
  Added es k =
      (k' : Kernel) × (add_all es k ≡ ok tt k')
      × Holds (k.msg_buf ++ map to_msg es) (k.log_file, k.pos) k.file_on k'
      × (k'.outbox ≡ k.outbox)
      × (k'.msg_ready ≡ k.msg_ready)

  Added-append :
      (e : Event) (es : List Event) (k : Kernel)
      → IsSound k
      → length k.msg_buf < max_msg_buf_len
      → Added es (appended e k)
      → Added (e ∷ es) k
  unfolding add_all
  Added-append e es k s room (k', run, h, o, r) = (
    k',
    rw (add_vfs_changed-append w true e.fl_path e.path_len e.flags k s room) run,
    rw append-snoc at h,
    o,
    r,
  )

  Added-spill :
      (e : Event) (es : List Event) (k : Kernel) (first : Msg) (rest : List Msg)
      → IsSound k
      → k.msg_buf ≡ first ∷ rest
      → length k.msg_buf ≡ max_msg_buf_len
      → Added es (spilled_over e first rest k)
      → Added (e ∷ es) k
  unfolding add_all
  Added-spill e es k first rest s eq full (k', run, h, o, r) = (
    k',
    rw (add_vfs_changed-spill w true e.fl_path e.path_len e.flags k first rest s eq full refl) run,
    rw eq (
        Holds-cons first (rest ++ map to_msg (e ∷ es)) (k.log_file, k.pos) k.file_on k'
          (omega (arith, ap length eq, length-append rest (map to_msg (e ∷ es))))
          (rw append-snoc at h)),
    o,
    r,
  )

  IsSound-appended :
      (e : Event) (k : Kernel)
      → IsSound k
      → length k.msg_buf < max_msg_buf_len
      → IsSound (appended e k)
  IsSound-appended e k s room = ground (arith, length-append k.msg_buf (to_msg e ∷ []))

  IsSound-spilled_over :
      (e : Event) (first : Msg) (rest : List Msg) (k : Kernel)
      → IsSound k
      → k.msg_buf ≡ first ∷ rest
      → IsSound (spilled_over e first rest k)
  IsSound-spilled_over e first rest k s eq =
      ground (arith, ap length eq, length-append rest (to_msg e ∷ []))

  -- However many messages come in while memory is given, every call of add_vfs_changed succeeds
  -- and keeps the invariant; the buffer ends with the newest 128 in order, exactly those before
  -- them are in the file in order, and file_on is set if there are any.
  pub add_all_lem : (es : List Event) (k : Kernel) → IsSound k → Added es k
  unfolding add_all
  add_all_lem [] k s = (k, refl, rw append-nil (Holds-self k s), refl, refl)
  add_all_lem (e ∷ es) k s = elim (Bool-cases (ltb (length k.msg_buf) max_msg_buf_len)) [
    | inl room ↦
        Added-append e es k s (ground arith)
          (add_all_lem es (appended e k) (IsSound-appended e k s (ground arith)))
    | inr full ↦
        let (first, rest, eq) = full-cons k.msg_buf (ground arith) in
        Added-spill e es k first rest s eq (ground arith)
          (add_all_lem es (spilled_over e first rest k) (IsSound-spilled_over e first rest k s eq))
  ]
