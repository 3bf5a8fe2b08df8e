-- ===== src/Db/Text.antt =====
-- The statements as texts: the printed text is the query, for names that fit.
use everyfile.Prelude.{
  ℕ, zero, suc, ◌-◌, ◌≤◌, ◌≡◌, refl, true, false, none, some, List, [], ◌∷◌, ◌++◌, Bytes, arith,
  length, take-append_self, replicate, codes, sprintf, Arg, text, num, decimal, decimal-IsDigits,
  IsDigits-IsText, IsText, IsText-append, is_text_lem, leb,
}
use everyfile.Scan.Info.{FileInfo, type_number}
use everyfile.Db.{query_size, insert_size, build, insert_sql, delete_sql, qry_exact}

insert_size-append : (s : Bytes) (n : ℕ) → IsText s → insert_size (s ++ replicate n 0) ≡ length s
insert_size-append [] zero h = refl
insert_size-append [] (suc n) h = refl
insert_size-append (c ∷ s) n h = ground (arith, insert_size-append s n h.1)

-- A text without terminators that fits the room is the query.
pub build_lem :
    (format : Bytes) (args : List Arg) (s : Bytes)
    → sprintf format args ≡ some s
    → IsText s
    → length s ≤ query_size
    → build format args ≡ some s
unfolding build
build_lem format args s printed clean short =
    let fits : leb (length s) query_size ≡ true = ground arith in
    rw (
      printed,
      build,
      fits,
      insert_size-append s (query_size - length s) clean,
      take-append_self (length s) s (replicate (query_size - length s) 0) refl,
    )

-- A text that does not fit is written past the end of the string.
pub build-none :
    (format : Bytes) (args : List Arg) (s : Bytes)
    → sprintf format args ≡ some s
    → suc query_size ≤ length s
    → build format args ≡ none
unfolding build
build-none format args s printed long =
    let over : leb (length s) query_size ≡ false = ground arith in rw (printed, build, over)

-- The text of the INSERT statement.
abbrev pub insert_text : FileInfo → Bytes
insert_text info =
    codes "INSERT INTO files values(\""
    ++ (info.file_name
        ++ (codes "\",\""
            ++ (decimal (type_number info.file_type)
                ++ (codes "\",datetime(" ++ (decimal info.file_time ++ codes ",\"unixepoch\"))")))))

insert_text_printed :
    (info : FileInfo)
    → sprintf
        (codes "INSERT INTO files values(\"%s\",\"%d\",datetime(%ld,\"unixepoch\"))")
        (text info.file_name ∷ num (type_number info.file_type) ∷ num info.file_time ∷ [])
      ≡ some (insert_text info)
unfolding sprintf
insert_text_printed info = refl

IsText-insert_text : (info : FileInfo) → IsText info.file_name → IsText (insert_text info)
IsText-insert_text info clean =
    IsText-append (codes "INSERT INTO files values(\"") _
      (is_text_lem (codes "INSERT INTO files values(\"") refl)
      (IsText-append info.file_name _ clean (
        IsText-append (codes "\",\"") _ (is_text_lem (codes "\",\"") refl) (
          IsText-append (decimal (type_number info.file_type)) _
            (number (type_number info.file_type))
            (IsText-append (codes "\",datetime(") _ (is_text_lem (codes "\",datetime(") refl) (
              IsText-append (decimal info.file_time) _ (number info.file_time)
                (is_text_lem (codes ",\"unixepoch\"))") refl))))))
  where
    number : (n : ℕ) → IsText (decimal n)
    number n = IsDigits-IsText (decimal n) (decimal-IsDigits n)

-- For a name without terminator that leaves room in the query, the INSERT statement names the
-- file, the number of its kind and its time.
pub insert_sql_lem :
    (info : FileInfo)
    → IsText info.file_name
    → length (insert_text info) ≤ query_size
    → insert_sql info ≡ some (insert_text info)
unfolding insert_sql
insert_sql_lem info clean short =
    build_lem _ _ (insert_text info) (insert_text_printed info) (IsText-insert_text info clean)
      short

-- A constant text, the name, and a closing quote: the statements for one name.
abbrev pub named : Bytes → Bytes → Bytes
named front name = front ++ (name ++ b'"' ∷ [])

IsText-named : (front name : Bytes) → IsText front → IsText name → IsText (named front name)
IsText-named front name f n =
    IsText-append front _ f (IsText-append name (b'"' ∷ []) n (is_text_lem (b'"' ∷ []) refl))

abbrev pub delete_front : Bytes
delete_front = codes "DELETE FROM files WHERE file_name = \""

abbrev pub delete_text : Bytes → Bytes
delete_text = named delete_front

delete_text_printed :
    (name : Bytes)
    → sprintf (codes "DELETE FROM files WHERE file_name = \"%s\"") (text name ∷ [])
      ≡ some (delete_text name)
unfolding sprintf
delete_text_printed name = refl

pub delete_sql_lem :
    (name : Bytes)
    → IsText name
    → length (delete_text name) ≤ query_size
    → delete_sql name ≡ some (delete_text name)
unfolding delete_sql
delete_sql_lem name clean short =
    build_lem _ _ (delete_text name) (delete_text_printed name)
      (IsText-named delete_front name (is_text_lem delete_front refl) clean) short

abbrev pub exact_front : Bytes
exact_front = codes "SELECT file_name, file_type, file_time FROM files WHERE file_name = \""

abbrev pub exact_text : Bytes → Bytes
exact_text = named exact_front

exact_text_printed :
    (name : Bytes)
    → sprintf
        (codes "SELECT file_name, file_type, file_time FROM files WHERE file_name = \"%s\"")
        (text name ∷ [])
      ≡ some (exact_text name)
unfolding sprintf
exact_text_printed name = refl

-- The exact query compares with the name as it was given, for a name that leaves room.
pub qry_exact_lem :
    (name : Bytes)
    → IsText name
    → length (exact_text name) ≤ query_size
    → qry_exact name ≡ some (exact_text name)
unfolding qry_exact
qry_exact_lem name clean short =
    build_lem _ _ (exact_text name) (exact_text_printed name)
      (IsText-named exact_front name (is_text_lem exact_front refl) clean) short
