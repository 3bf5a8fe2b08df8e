-- ===== src/Tests/CommandRuns.antt =====
-- src/main.cpp, src/ef_err.h and the instance of src/ef_db.cpp at concrete inputs.
use everyfile.Prelude.{
  ℕ, ◌≡◌, ◌≤◌, refl, true, false, some, List, [], ◌∷◌, ◌++◌, Bytes, arith, codes, same_text,
  is_text_lem, sprintf, text, if◌then◌else◌,
}
use everyfile.Db.Instance.{
  testing, deleting, clearing, unlocking, behind, State, moved, Step, lock, find, delete, clear,
  unlock, Steps, done, more, created, get_instance,
}
use everyfile.Db.Instance.Sound.{destory_instance-once}
use everyfile.Db.Instance.Dangling.{get_instance-dangles}
use everyfile.Err.{back, exit_1, err_sys, err_exit, err_msg, err_quit}
use everyfile.Err.Printed.{errinfo, err-prints}
use everyfile.Command.{Opt, undefined, main}
use everyfile.Command.Exact.{ReadsOptions, search_for, main-exact}

-- The three forms of the options.
abbrev pub getopt : List Bytes → Opt
getopt [] = record { c = 0; optind = 0 }
getopt (command ∷ []) = record { c = 0; optind = 1 }
getopt (command ∷ option ∷ []) = record { c = b'e'; optind = 2 }
getopt (command ∷ option ∷ name ∷ rest) = record {
  c = if same_text option (codes "-f") then b'f' else b'e';
  optind = 3;
}

pub getopt-ReadsOptions : ReadsOptions getopt
getopt-ReadsOptions = record {
  exact_apart = λ command name. refl;
  exact_joined = λ command name. refl;
  fuzzy_apart = λ command name. refl;
}

main-exact_example :
    (main getopt (λ qry. []) (codes "everyfile" ∷ codes "-e" ∷ codes "/etc" ∷ [])
      ≡ search_for (λ qry. []) (codes "/etc"))
    × (main getopt (λ qry. []) (codes "everyfile" ∷ codes "--exact=/etc" ∷ [])
        ≡ search_for (λ qry. []) (codes "--exact=/etc"))
    × (main getopt (λ qry. []) (codes "everyfile" ∷ codes "-f" ∷ codes "/etc" ∷ []) ≡ undefined)
main-exact_example =
    main-exact getopt (λ qry. []) getopt-ReadsOptions (codes "everyfile") (codes "/etc")
      (is_text_lem (codes "/etc") refl) (omega arith)

printed_line : sprintf (codes "no %s") (text (codes "dir") ∷ []) ≡ some (codes "no dir")
unfolding sprintf
printed_line = refl

err-prints_example :
    (err_msg (codes "EIO") (codes "no %s") (text (codes "dir") ∷ [])
      ≡ back (codes "no dir" ++ 10 ∷ []))
    × (err_quit (codes "EIO") (codes "no %s") (text (codes "dir") ∷ [])
        ≡ exit_1 (codes "no dir" ++ 10 ∷ []))
    × (err_sys (codes "EIO") (codes "no %s") (text (codes "dir") ∷ [])
        ≡ exit_1 ((codes "no dir" ++ errinfo (codes "EIO")) ++ 10 ∷ []))
    × (err_exit (codes "EIO") (codes "no %s") (text (codes "dir") ∷ [])
        ≡ exit_1 ((codes "no dir" ++ errinfo (codes "EIO")) ++ 10 ∷ []))
err-prints_example =
    err-prints (codes "no %s") (text (codes "dir") ∷ []) (codes "no dir") (codes "EIO") printed_line
      (is_text_lem (codes "no dir") refl) (omega arith) (omega arith)

get_instance-dangles_example :
    (t : State) × Steps created t × (get_instance t ≡ true) × (t.deleted ≡ 1)
get_instance-dangles_example = get_instance-dangles 0

-- The thread 0 destroys the instance.
abbrev inside : State
inside = record created { destory_mutex = true; places = moved created.places 0 testing }

abbrev found : State
found = record inside { places = moved inside.places 0 deleting }

abbrev gone : State
gone = record found { deleted = 1; places = moved found.places 0 clearing }

abbrev cleared : State
cleared = record gone { instance = false; places = moved gone.places 0 unlocking }

abbrev destroyed : State
destroyed = record cleared { destory_mutex = false; places = moved cleared.places 0 behind }

destroying : Steps created destroyed
destroying =
    let first : Step created 0 inside = lock refl refl in
    let second : Step inside 0 found = find refl refl in
    let third : Step found 0 gone = delete refl in
    let fourth : Step gone 0 cleared = clear refl in
    let fifth : Step cleared 0 destroyed = unlock refl in
    more (more (more (more (more done first) second) third) fourth) fifth

destory_instance-once_example :
    (destroyed.deleted ≤ 1)
    × ((i : ℕ)
        → destroyed.places i ≡ behind
        → (get_instance destroyed ≡ false) × (destroyed.deleted ≡ 1))
destory_instance-once_example = destory_instance-once destroyed destroying
