-- ===== src/Tests/FillRuns.antt =====
-- The option --init of src/main.cpp at a small file system.
use everyfile.Queue.Fifo.{values}
use everyfile.Queue.{Queue}
use everyfile.Queue.Chain.{IsQueue}
use everyfile.Queue.Shared.Sound.{Distinct}
use everyfile.Init
use everyfile.Init.Interleaved.{Steps}
use everyfile.Init.Interleaved
use everyfile.Init.Interleaved.Shown.{shown}
use everyfile.Init.Interleaved.Realized.{init-realized}
use everyfile.Prelude.{
  ℕ, ◌≡◌, refl, none, some, List, [], ◌∷◌, arith, codes, same_text, if◌then◌else◌,
}
use everyfile.Scan.Info.{FileInfo, ereg, init}
use everyfile.Scan.Walk.{FileSystem}
use everyfile.Tests.SqlTable.{Table}

-- / with one file.
abbrev tiny : FileSystem
tiny = record {
  lstat = λ p.
      if same_text p (codes "/")
      then some (0o40755, 7)
      else if same_text p (codes "//f")
      then some (0o100644, 9)
      else none;
  list_dir = λ p. if same_text p (codes "/") then some (codes "." ∷ codes "f" ∷ []) else none;
}

abbrev the_file : FileInfo
the_file = record { file_name = codes "//f"; file_type = ereg; file_time = 9 }

abbrev nothing : Table
nothing n = none

-- The record has been given to add, when a call of the queue is one step.
abbrev one_stored : Init.State FileInfo
one_stored = record {
  out = 1;
  walker = Init.walking;
  reader = Init.looping;
  todo = [];
  buf = [];
  db = the_file ∷ [];
}

abbrev one_entry : List (ℕ × FileInfo)
one_entry = (2, the_file) ∷ []

one_entry-Distinct : Distinct one_entry
one_entry-Distinct = (omega arith, refl, tt)

one_run : Init.Steps (Init.init (the_file ∷ [])) one_stored
one_run =
    Init.more
      (Init.more
        (Init.more (Init.more Init.done (Init.begin refl)) (Init.find the_file [] refl refl))
        (Init.wake refl))
      (Init.take the_file [] refl refl)

abbrev accesses :
    (q : Queue FileInfo) × (later cells : List (ℕ × FileInfo)) × Steps
      (Interleaved.init 1 the_file one_entry)
      (shown one_stored q later)
    × IsQueue q cells
    × (values cells ≡ [])
    × (values later ≡ [])
unfolding values
accesses =
    init-realized 1 the_file one_entry one_stored (omega arith) one_entry-Distinct refl
      (omega arith) one_run
