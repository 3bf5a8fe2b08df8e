-- ===== src/Init/Fill/Stored.antt =====
-- The reader hands every record of the queue to SQLite.
use everyfile.Prelude.{
  ℕ, zero, suc, ◌+◌, ◌≡◌, ◌≤◌, ◌<◌, refl, sym, ◌∙◌, ap, Bool, some, List, [], ◌∷◌, ◌++◌,
  append_assoc, append-nil, append-snoc, arith, All, IsText, length,
}
use everyfile.Queue.{Queue, ok}
use everyfile.Queue.Chain.{IsQueue}
use everyfile.Queue.Steady.{IsSteady}
use everyfile.Queue.Enqueue.{enqueue_lem}
use everyfile.Queue.Dequeue.{dequeue-cons}
use everyfile.Queue.Fifo.{IsFresh, Free, values, values-snoc, dequeue_empty}
use everyfile.Scan.Info.{FileInfo}
use everyfile.Db.{Action, begin, commit, execute, query_size, strip, add}
use everyfile.Db.Text.{insert_text, insert_sql_lem}
use everyfile.Init.Fill.{stored, put_found, in_db}

-- The record that `add` inserts.
abbrev pub stripped : FileInfo → FileInfo
stripped info = record info { file_name = strip info.file_name }

-- The statement for the record fits.
pub record IsStorable (info : FileInfo) : Type 0 where
  pub clean : IsText (strip info.file_name)
  pub fits : length (insert_text (stripped info)) ≤ query_size

-- One transaction for each record.
unfoldable pub inserts : List FileInfo → List Action
inserts [] = []
inserts (info ∷ infos) = begin ∷ execute (insert_text (stripped info)) ∷ commit ∷ inserts infos

pub add-inserts : (info : FileInfo) → IsStorable info → add info ≡ some (inserts (info ∷ []))
unfolding add inserts
add-inserts info s = rw (insert_sql_lem (stripped info) s.clean s.fits)

module _ (weak : ℕ → ℕ → Bool) (k : ℕ) (final : ℕ → Bool) (new : ℕ → ℕ)
    (steady : (n : ℕ) → IsSteady (weak n) k) (fresh : IsFresh new) where
  -- What is to be shown of the records `infos` that are put behind `cells`.
  abbrev pub Put : ℕ → List FileInfo → Queue FileInfo → List (ℕ × FileInfo) → Type 0
  Put n infos q cells =
      (q' : Queue FileInfo) × (all : List (ℕ × FileInfo)) × (put_found weak final new (k + 2) n
          infos q
        ≡ ok q')
      × IsQueue q' all
      × (values all ≡ values cells ++ infos)

  pub put_found_lem :
      (n : ℕ) (infos : List FileInfo) (q : Queue FileInfo) (cells : List (ℕ × FileInfo))
      → IsQueue q cells
      → Free new n q.heap
      → Put n infos q cells
  unfolding put_found
  put_found_lem n [] q cells is free = (q, cells, refl, is, sym (append-nil (values cells)))
  put_found_lem n (info ∷ infos) q cells is free =
      let (q1, run, is1, spared) =
        enqueue_lem (weak n) k (final n) (new n) info q cells (steady n) is (fresh.not_null n)
          (free n (omega arith)) in
      let later : Free new (suc n) q1.heap = (λ m le.
        spared (new m) (free m (omega (arith, le))) (fresh.once m n (omega (arith, le)))) in
      let (q2, all, rest, is2, held) =
        put_found_lem (suc n) infos q1 (cells ++ (new n, info) ∷ []) is1 later in
      (
        q2,
        all,
        rw run rest,
        is2,
        held ∙ rw (values-snoc cells (new n) info) (append-snoc (values cells) info infos),
      )

  pub in_db_lem :
      (fuel n : ℕ) (q : Queue FileInfo) (cells : List (ℕ × FileInfo)) (acts : List Action)
      → IsQueue q cells
      → All IsStorable (values cells)
      → length cells < fuel
      → in_db weak final new (k + 2) 0 fuel n q acts ≡ stored (acts ++ inserts (values cells))
  unfolding in_db values inserts
  in_db_lem zero n q cells acts is all enough = absurd (omega arith)
  in_db_lem (suc fuel) n q [] acts is all enough =
      rw (dequeue_empty weak k final new steady fresh n q is, append-nil acts)
  in_db_lem (suc fuel) n q ((b, info) ∷ cells) acts is all enough =
      let (q1, run, is1, spared) = dequeue-cons (weak n) k q b info cells (steady n) is in
      rw (run, add-inserts info all.0)
        (in_db_lem fuel (suc n) q1 cells (acts ++ inserts (info ∷ [])) is1 all.1
            (omega (arith, enough))
          ∙ ap stored (append_assoc acts (inserts (info ∷ [])) (inserts (values cells))))
