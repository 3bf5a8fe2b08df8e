-- ===== src/Kernel/MountInfo/Line.antt =====
-- A line of /proc/self/mountinfo, and what `sscanf` is expected to read of it.
use everyfile.Prelude.{
  ℕ, ◌%◌, ◌^◌, ◌≤◌, ◌≡◌, ◌≢◌, refl, ◌∙◌, false, Option, none, some, [], ◌∷◌, ◌++◌, Bytes, arith,
  All, length, ◌==◌, IsDigits, decimal, decimal-IsDigits,
}
use everyfile.Kernel.MountInfo.{after_newline}
use everyfile.Kernel.MountInfo.Conversions.{scan_line}
use everyfile.Kernel.MountInfo.Scan.{
  IsSolid, scan_int-decimal, scan_int-spaced, pass_word-word, keep_word-word,
}

pub record Mount : Type 0 where
  pub id : ℕ
  pub parent : ℕ
  pub major : ℕ
  pub minor : ℕ
  pub source : Bytes
  pub mp : Bytes
  pub options : Bytes

abbrev pub IsOneLine : Bytes → Type 0
IsOneLine = All (λ c. (c == 10) ≡ false)

-- The two names have no white space; the mount point has at most the 250 bytes that are read.
pub record IsMount (m : Mount) : Type 0 where
  pub source_some : m.source ≢ []
  pub source_solid : IsSolid m.source
  pub mp_some : m.mp ≢ []
  pub mp_solid : IsSolid m.mp
  pub mp_fits : length m.mp ≤ 250
  pub options_line : IsOneLine m.options

-- The line, with `rest` behind it.
abbrev pub line_text : Mount → Bytes → Bytes
line_text m rest =
    decimal m.id
    ++ 32
      ∷ (decimal m.parent
          ++ 32
            ∷ (decimal m.major
                ++ b':'
                  ∷ (decimal m.minor
                      ++ 32 ∷ (m.source ++ 32 ∷ (m.mp ++ 32 ∷ (m.options ++ 10 ∷ rest))))))

-- `sscanf` reads the numbers of a device and the mount point of a line, and nothing at the end.
pub record ReadsLines (sscanf : Bytes → Option (ℕ × ℕ × Bytes)) : Type 0 where
  pub line :
      (m : Mount) (rest : Bytes)
      → IsMount m
      → sscanf (line_text m rest) ≡ some (m.major % 2 ^ 32, m.minor % 2 ^ 32, m.mp)
  pub end : sscanf [] ≡ none

-- What stands behind the numbers, and behind the source.
abbrev names : Mount → Bytes → Bytes
names m rest = m.source ++ 32 ∷ (m.mp ++ 32 ∷ (m.options ++ 10 ∷ rest))

scan_line-line :
    (m : Mount) (rest : Bytes)
    → IsMount m
    → scan_line (line_text m rest) ≡ some (m.major % 2 ^ 32, m.minor % 2 ^ 32, m.mp)
unfolding scan_line
scan_line-line m rest is = rw (
  scan_int-decimal m.id 32
      (decimal m.parent ++ 32 ∷ (decimal m.major ++ b':' ∷ (decimal m.minor ++ 32 ∷ names m rest)))
      refl,
  scan_int-spaced m.parent 32 (decimal m.major ++ b':' ∷ (decimal m.minor ++ 32 ∷ names m rest))
      refl,
  scan_int-spaced m.major b':' (decimal m.minor ++ 32 ∷ names m rest) refl,
  scan_int-decimal m.minor 32 (names m rest) refl,
  pass_word-word m.source (m.mp ++ 32 ∷ (m.options ++ 10 ∷ rest)) is.source_some is.source_solid,
  keep_word-word m.mp (m.options ++ 10 ∷ rest) is.mp_some is.mp_solid is.mp_fits,
)

-- The conversions of the C standard do so.
pub scan_line-ReadsLines : ReadsLines scan_line
unfolding scan_line
scan_line-ReadsLines = record { line = scan_line-line; end = refl }

solid_line : (w : Bytes) → IsSolid w → IsOneLine w
solid_line [] d = tt
solid_line (c ∷ w) d = (ground (arith, d.0), solid_line w d.1)

digits_line : (w : Bytes) → IsDigits w → IsOneLine w
digits_line [] d = tt
digits_line (c ∷ w) d = (ground (arith, d.0), digits_line w d.1)

after_newline-append : (w s : Bytes) → IsOneLine w → after_newline (w ++ s) ≡ after_newline s
unfolding after_newline
after_newline-append [] s d = refl
after_newline-append (c ∷ w) s d = rw d.0 (after_newline-append w s d.1)

after_newline-blank :
    (w : Bytes) (c : ℕ) (s : Bytes)
    → IsOneLine w
    → (c == 10) ≡ false
    → after_newline (w ++ c ∷ s) ≡ after_newline s
after_newline-blank w c s d h =
    after_newline-append w (c ∷ s) d ∙ after_newline-append (c ∷ []) s (h, tt)

after_newline-decimal :
    (n c : ℕ) (s : Bytes) → (c == 10) ≡ false → after_newline (decimal n ++ c ∷ s) ≡ after_newline s
after_newline-decimal n c s h =
    after_newline-blank (decimal n) c s (digits_line (decimal n) (decimal-IsDigits n)) h

-- Behind the end of a line is the next one.
pub after_newline-line :
    (m : Mount) (rest : Bytes) → IsMount m → after_newline (line_text m rest) ≡ some rest
after_newline-line m rest is =
    after_newline-decimal m.id 32 _ refl
    ∙ after_newline-decimal m.parent 32 _ refl
    ∙ after_newline-decimal m.major b':' _ refl
    ∙ after_newline-decimal m.minor 32 _ refl
    ∙ after_newline-blank m.source 32 _ (solid_line m.source is.source_solid) refl
    ∙ after_newline-blank m.mp 32 _ (solid_line m.mp is.mp_solid) refl
    ∙ after_newline-append m.options _ is.options_line
    ∙ unfold after_newline in refl
