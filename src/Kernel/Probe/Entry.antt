-- ===== src/Kernel/Probe/Entry.antt =====
-- The one entry of a probe in kernelmod/vfs_kprobe.c, which calls on several processors share: a
-- handler of one call runs between the two of another.
use everyfile.Prelude.{
  ◌+◌, ◌<◌, ◌≡◌, sym, ◌∙◌, ap, true, some, List, [], ◌∷◌, arith, length, length-append,
}
use everyfile.Kernel.State.{Partition, Kernel, Run, ok, undefined, deadlock}
use everyfile.Kernel.Buffer.{max_msg_buf_len, Writer}
use everyfile.Kernel.Buffer.Sound.{IsSound}
use everyfile.Kernel.Buffer.History.{to_msg}
use everyfile.Kernel.Probe.{Stored, null, pre_handler_common, post_handler_common, Probe, act}
use everyfile.Kernel.Probe.Report.{enough}
use everyfile.Kernel.Probe.Operation.{
  Operation, dentry, handlers, is_reported, event, appended, handlers-reported,
}

-- A call of one of the two handlers.
pub data Handler : Type 0 where
  pre : Operation → Handler
  post : Operation → Handler

abbrev and_handle : (Kernel → Run (Unit {0})) → Run (Unit {0}) → Run (Unit {0})
and_handle more (ok _ k) = more k
and_handle more undefined = undefined
and_handle more deadlock = deadlock

-- The handlers of one probe in the order in which they run; `data` is `entry->data`.
unfoldable pub run_handlers :
    Writer → Probe → List Handler → (stored : Stored) → Kernel → Run (Unit {0})
unfolding pre_handler_common post_handler_common
run_handlers w p [] stored k = ok tt k
run_handlers w p (pre o ∷ rest) stored k =
    run_handlers w p rest (pre_handler_common true (λ _. some (dentry o)) o.regs).0 k
run_handlers w p (post o ∷ rest) stored k =
    and_handle (run_handlers w p rest stored)
      (post_handler_common w enough o.passes stored (act p) k)

IsSound-appended :
    (w : Writer) (ps : List Partition) (o : Operation) (k : Kernel)
    → IsSound k
    → length k.msg_buf < max_msg_buf_len
    → IsSound (appended (event ps o) k)
IsSound-appended w ps o k s room =
    ground (arith, length-append k.msg_buf (to_msg (event ps o) ∷ []))

module _ (w : Writer) (ps : List Partition) (k : Kernel) (s : IsSound k)
    (same : k.partitions ≡ ps) where
  -- Of two operations through one probe that are both to be reported, with room for two messages:
  -- if the handlers of one run behind those of the other, each is reported; if both first handlers
  -- run before the second ones, the second operation is reported twice and the first one never.
  pub run_handlers-overwrites :
      (o1 o2 : Operation)
      → o1.probe ≡ o2.probe
      → is_reported ps o1 ≡ true
      → is_reported ps o2 ≡ true
      → length k.msg_buf + 1 < max_msg_buf_len
      → (run_handlers w o2.probe (pre o1 ∷ post o1 ∷ pre o2 ∷ post o2 ∷ []) null k
          ≡ ok tt (appended (event ps o2) (appended (event ps o1) k)))
        × (run_handlers w o2.probe (pre o1 ∷ pre o2 ∷ post o1 ∷ post o2 ∷ []) null k
            ≡ ok tt (appended (event ps o2) (appended (event ps o2) k)))
  unfolding run_handlers handlers
  run_handlers-overwrites o1 o2 one shown_1 shown_2 room =
      let mixed : Operation = record o2 { passes = o1.passes } in
      let shown_mixed : is_reported ps mixed ≡ true = ground (arith, shown_1, shown_2) in
      (
        both (record o1 { probe = o2.probe }) o2 shown_1 shown_2
            ∙ ap
                (λ p.
                  ok tt (appended (event ps o2) (appended (event ps (record o1 { probe = p })) k)))
                (sym one),
        both mixed o2 shown_mixed shown_2,
      )
    where
      both :
          (o o' : Operation)
          → is_reported ps o ≡ true
          → is_reported ps o' ≡ true
          → and_handle (λ k'. and_handle (ok tt) (handlers w o' k')) (handlers w o k)
            ≡ ok tt (appended (event ps o') (appended (event ps o) k))
      both o o' shown shown' =
          let once = appended (event ps o) k in
          let short : length k.msg_buf < max_msg_buf_len = omega (arith, room) in
          let grown : length once.msg_buf < max_msg_buf_len =
            omega (arith, room, length-append k.msg_buf (to_msg (event ps o) ∷ [])) in
          ap (and_handle (λ k'. and_handle (ok tt) (handlers w o' k')))
            (handlers-reported w ps o k s same shown short)
          ∙ ap (and_handle (ok tt))
              (handlers-reported w ps o' once (IsSound-appended w ps o k s short) same shown' grown)
