-- ===== src/Init/Interleaved/Kept.antt =====
-- Where the records are, whatever the order of the accesses.
use everyfile.Prelude.{List}
use everyfile.Queue.Chain.{Chain}
use everyfile.Queue.Shared.Sound.{Holds}
use everyfile.Init.Interleaved.{State}

module _ {R : Type 0} where
  abbrev HoldsAt : List R → State R → Type 0
  HoldsAt rs s = Holds s.queue s.jobs s.put s.get rs s.db
