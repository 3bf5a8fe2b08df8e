-- ===== src/Session/Operations.antt =====
-- From the probed operations on: the handlers of kernelmod/vfs_kprobe.c in front of the turns.
use everyfile.Prelude.{
  ℕ, suc, ◌<◌, ◌≡◌, refl, ap, ◌∙◌, inl, inr, true, Option, some, List, [], ◌∷◌, Bytes, arith,
  length, Bool-cases, if◌then◌else◌,
}
use everyfile.Kernel.State.{Partition}
use everyfile.Kernel.Buffer.{max_msg_buf_len, Writer}
use everyfile.Kernel.Buffer.Sound.{add_vfs_changed-append}
use everyfile.Kernel.Probe.Operation.{
  Operation, handlers, is_reported, event, handlers-silent, handlers-reported,
}
use everyfile.Session.{World, Turn, report, settle, step, continue, run, tick}
use everyfile.Session
use everyfile.Session.Delivery.{View, next, Matches}
use everyfile.Session.Turns.{step-Goes}
use everyfile.Session.Schedule.{Fits}

-- A probed call, or another turn.
pub data Deed : Type 0 where
  operate : Operation → Deed
  send listen : Deed

unfoldable pub run_deeds :
    Writer → (junk : Bytes) → (clock : ℕ → ℕ) → ℕ → List Deed → World → Option World
unfolding step handlers
run_deeds w junk clock i [] s = some s
run_deeds w junk clock i (operate o ∷ deeds) s =
    continue (run_deeds w junk clock i deeds) (settle s.asleep s.daemon (handlers w o s.kernel))
run_deeds w junk clock i (send ∷ deeds) s =
    continue (run_deeds w junk clock i deeds) (step w junk (clock i) Session.send s)
run_deeds w junk clock i (listen ∷ deeds) s =
    continue (run_deeds w junk clock (suc i) deeds) (step w junk (clock i) Session.listen s)

-- An operation that the handlers report is a report of its number and its full path.
abbrev pub turns_of : List Partition → List Deed → List Turn
turns_of ps [] = []
turns_of ps (operate o ∷ deeds) =
    let later = turns_of ps deeds in if is_reported ps o then report (event ps o) ∷ later else later
turns_of ps (send ∷ deeds) = Session.send ∷ turns_of ps deeds
turns_of ps (listen ∷ deeds) = Session.listen ∷ turns_of ps deeds

module _ (w : Writer) (junk : Bytes) (clock : ℕ → ℕ) (ps : List Partition) where
  -- From a state with the locks free, the counter right and no notice of an overflow due, whose
  -- messages in the buffer and on the socket are those of v and readable, where what is reported
  -- is readable and comes when fewer than 128 messages wait, a run of probed calls, turns of the
  -- sending thread and rounds of the daemon is the run in which each probed call is a report of
  -- its number and its full path if the test of the registers in post_handler_common passes and
  -- its file system is listed and not special, and nothing otherwise. The test says nothing of the
  -- call's own result, since the handler runs when the function is entered.
  pub run_deeds-turns :
      (i : ℕ) (deeds : List Deed) (s : World) (v : View)
      → Matches s v
      → s.kernel.partitions ≡ ps
      → Fits v (turns_of ps deeds)
      → run_deeds w junk clock i deeds s ≡ run w junk clock i (turns_of ps deeds) s
  unfolding run_deeds run Fits step
  run_deeds-turns i [] s v h same f = refl
  run_deeds-turns i (send ∷ deeds) s v h same f =
      let (u, went, g) = step-Goes w junk (clock i) Session.send s v h f.0 in
      rw went (run_deeds-turns i deeds u (next v Session.send) g.matches (g.same_parts ∙ same) f.1)
  run_deeds-turns i (listen ∷ deeds) s v h same f =
      let (u, went, g) = step-Goes w junk (clock i) Session.listen s v h f.0 in
      rw went (
        run_deeds-turns (suc i) deeds u (next v Session.listen) g.matches (g.same_parts ∙ same) f.1)
  run_deeds-turns i (operate o ∷ deeds) s v h same f = elim (Bool-cases (is_reported ps o)) [
    | inl shown ↦
        let x = event ps o in
        let g : Fits v (report x ∷ turns_of ps deeds) = rw shown at f in
        let room : length s.kernel.msg_buf < max_msg_buf_len =
          omega (arith, ap length h.waiting, g.0.0) in
        let (u, went, k) = step-Goes w junk (clock i) (report x) s v h g.0 in
        let same_step : settle s.asleep s.daemon (handlers w o s.kernel) ≡ some u =
          rw (handlers-reported w ps o s.kernel h.sound same shown room) (
            rw (add_vfs_changed-append w true x.fl_path x.path_len x.flags s.kernel h.sound room) at
              went) in
        rw (same_step, shown, went)
          (run_deeds-turns i deeds u (next v (report x)) k.matches (k.same_parts ∙ same) g.1)
    | inr quiet ↦
        rw (handlers-silent w ps o s.kernel h.sound same quiet, quiet)
          (run_deeds-turns i deeds s v h same (rw quiet at f))
  ]
