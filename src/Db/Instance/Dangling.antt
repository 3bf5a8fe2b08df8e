-- ===== src/Db/Instance/Dangling.antt =====
-- A pointer to the deleted instance.
use everyfile.Prelude.{ℕ, ◌≡◌, refl, true, ==_refl}
use everyfile.Db.Instance.{
  testing, deleting, clearing, State, moved, Step, lock, find, delete, Steps, done, more, created,
  get_instance,
}

-- Whichever thread destroys the instance, there is a time at which it has been deleted and
-- get_instance still gives the pointer to it.
pub get_instance-dangles :
    (i : ℕ) → (t : State) × Steps created t × (get_instance t ≡ true) × (t.deleted ≡ 1)
get_instance-dangles i =
    let s1 = record created { destory_mutex = true; places = moved created.places i testing } in
    let s2 = record s1 { places = moved s1.places i deleting } in
    let s3 = record s2 { deleted = 1; places = moved s2.places i clearing } in
    let first : Step created i s1 = lock refl refl in
    let second : Step s1 i s2 = find (rw (==_refl i)) refl in
    let third : Step s2 i s3 = delete (rw (==_refl i)) in
    (s3, more (more (more done first) second) third, refl, refl)
