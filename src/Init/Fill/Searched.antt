-- ===== src/Init/Fill/Searched.antt =====
-- What an exact search finds behind the option --init.
use everyfile.Prelude.{
  ◌≡◌, ◌↔◌, ◌⊎◌, refl, ◌∙◌, ap, inl, inr, Bool, true, false, ◌||◌, Option, none, some, List, [],
  ◌∷◌, Bytes, All, arith, length, length-append, same_text, same_text_iff, Bool-cases,
  if◌then◌else◌,
}
use everyfile.Scan.Info.{FileInfo}
use everyfile.Scan.Walk.Entries.{In}
use everyfile.Db.{begin, commit, execute, strip}
use everyfile.Db.Text.{insert_text}
use everyfile.Db.Sqlite.{Sqlite, IsPlain, kept, IsLawful}
use everyfile.Db.Table.{perform}
use everyfile.Command.{ran, end_line}
use everyfile.Command.Answer.{present, answer}
use everyfile.Init.Fill.Stored.{stripped, inserts}

-- One of the records is stored under the name.
abbrev pub StoredAs : Bytes → List FileInfo → Type 0
StoredAs n [] = ⊥
StoredAs n (info ∷ infos) = (n ≡ strip info.file_name) ⊎ StoredAs n infos

pub StoredAs-In :
    (n : Bytes) (infos : List FileInfo)
    → StoredAs n infos
    → (info : FileInfo) × In info infos × (n ≡ strip info.file_name)
StoredAs-In n [] h = elim h [ ]
StoredAs-In n (info ∷ infos) (inl e) = (info, inl refl, e)
StoredAs-In n (info ∷ infos) (inr later) =
    let (i, held, e) = StoredAs-In n infos later in (i, inr held, e)

pub In-StoredAs :
    (n : Bytes) (info : FileInfo) (infos : List FileInfo)
    → In info infos
    → n ≡ strip info.file_name
    → StoredAs n infos
In-StoredAs n info [] h e = elim h [ ]
In-StoredAs n info (i ∷ infos) (inl same) e = inl (e ∙ ap (λ j. strip j.file_name) same)
In-StoredAs n info (i ∷ infos) (inr later) e = inr (In-StoredAs n info infos later e)

-- The name under which the record is stored is plain.
abbrev pub IsPlainRecord : FileInfo → Type 0
IsPlainRecord info = IsPlain (strip info.file_name)

module _ (S : Sqlite) (L : IsLawful S) where
  abbrev pub Has : S.State → Bytes → Type 0
  Has s n = present (S.row s n) ≡ true

  abbrev insert_one : (info : FileInfo) → S.State → S.State
  insert_one info s = perform S (begin ∷ execute (insert_text (stripped info)) ∷ commit ∷ []) s

  insert_one-row :
      (info : FileInfo) (s : S.State) (n : Bytes)
      → IsPlainRecord info
      → present (S.row (insert_one info s) n)
        ≡ (same_text n (strip info.file_name) || present (S.row s n))
  insert_one-row info s n plain =
      let s1 = S.act begin s in
      rw
        (
          L.row-commit (S.act (execute (insert_text (stripped info))) s1) n,
          L.row-insert s1 (stripped info) n plain,
          L.row-begin s n,
        )
        (present_or (same_text n (strip info.file_name)) (S.row s n) _)
    where
      present_or :
          (b : Bool) (o : Option S.Value) (v : S.Value)
          → present (if b then kept o v else o) ≡ (b || present o)
      present_or true none v = refl
      present_or true (some u) v = refl
      present_or false o v = refl

  insert_one-Has :
      (info : FileInfo) (s : S.State) (n : Bytes)
      → IsPlainRecord info
      → Has (insert_one info s) n ↔ ((n ≡ strip info.file_name) ⊎ Has s n)
  insert_one-Has info s n plain =
      let now = insert_one-row info s n plain in
      let text = same_text_iff n (strip info.file_name) in
      (
        λ h. elim (Bool-cases (same_text n (strip info.file_name))) [
          | inl same ↦ inl (text.0 same)
          | inr other ↦ inr (ground (arith, now, h, other))
        ],
        λ h. elim h [
          | inl e ↦ ground (arith, now, text.1 e)
          | inr before ↦ elim (Bool-cases (same_text n (strip info.file_name))) [
            | inl same ↦ ground (arith, now, same)
            | inr other ↦ ground (arith, now, before, other)
          ]
        ],
      )

  -- After the transactions a name is in the table that was there, or that a record is stored under.
  pub inserts-StoredAs :
      (infos : List FileInfo) (s : S.State) (n : Bytes)
      → All IsPlainRecord infos
      → Has (perform S (inserts infos) s) n
      → StoredAs n infos ⊎ Has s n
  unfolding inserts
  inserts-StoredAs [] s n plain h = inr h
  inserts-StoredAs (info ∷ infos) s n plain h =
      elim (inserts-StoredAs infos (insert_one info s) n plain.1 h) [
        | inl later ↦ inl (inr later)
        | inr now ↦ elim ((insert_one-Has info s n plain.0).0 now) [
          | inl e ↦ inl (inl e)
          | inr before ↦ inr before
        ]
      ]

  pub StoredAs-inserts :
      (infos : List FileInfo) (s : S.State) (n : Bytes)
      → All IsPlainRecord infos
      → StoredAs n infos ⊎ Has s n
      → Has (perform S (inserts infos) s) n
  unfolding inserts
  StoredAs-inserts [] s n plain (inl h) = elim h [ ]
  StoredAs-inserts [] s n plain (inr before) = before
  StoredAs-inserts (info ∷ infos) s n plain (inl (inl e)) =
      StoredAs-inserts infos (insert_one info s) n plain.1
        (inr ((insert_one-Has info s n plain.0).1 (inl e)))
  StoredAs-inserts (info ∷ infos) s n plain (inl (inr later)) =
      StoredAs-inserts infos (insert_one info s) n plain.1 (inl later)
  StoredAs-inserts (info ∷ infos) s n plain (inr before) =
      StoredAs-inserts infos (insert_one info s) n plain.1
        (inr ((insert_one-Has info s n plain.0).1 (inr before)))

-- An answer with the name found is longer than one without.
pub answer-true : (n : Bytes) (b : Bool) → answer n b ≡ answer n true → b ≡ true
answer-true n true h = refl
answer-true n false h = absurd (
    omega (
      arith,
      ap length h,
      length-append (end_line n) [],
      length-append (end_line n) (end_line n),
      length-append n (10 ∷ []),
    ))

pub shown-of : (a b : Bytes) (q r : List Bytes) → ran a q ≡ ran b r → a ≡ b
shown-of a b q r h = cc
