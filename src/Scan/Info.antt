-- ===== src/Scan/Info.antt =====
-- src/os/linux/_file.h and _file.cpp: the kinds of files, and the record of one.
use everyfile.Prelude.{ℕ, ◌/◌, ◌%◌, Bytes, ◌==◌, if◌then◌else◌}

-- `_file_type`
pub data FileType : Type 0 where
  elnk ereg edir echr eblk efifo esock err : FileType

-- The number of a kind, as `%d` prints it.
unfoldable pub type_number : FileType → ℕ
type_number elnk = 0
type_number ereg = 1
type_number edir = 2
type_number echr = 3
type_number eblk = 4
type_number efifo = 5
type_number esock = 6
type_number err = 7

-- `_file_info`
pub record FileInfo : Type 0 where
  pub file_name : Bytes
  pub file_type : FileType
  pub file_time : ℕ

-- `_file_info::init`, which sets every field.
unfoldable pub init : Bytes → FileType → ℕ → FileInfo
init name type time = record { file_name = name; file_type = type; file_time = time }

-- `_m & S_IFMT`, the four bits above the twelve of the permissions.
abbrev pub format_bits : ℕ → ℕ
format_bits mode = mode / 0o10000 % 16

-- `_get_file_type`; the constants are S_IFLNK and so on, less the twelve bits.
unfoldable pub get_file_type : ℕ → FileType
get_file_type mode =
    if format_bits mode == 0o12
    then elnk
    else if format_bits mode == 0o10
    then ereg
    else if format_bits mode == 0o4
    then edir
    else if format_bits mode == 0o2
    then echr
    else if format_bits mode == 0o6
    then eblk
    else if format_bits mode == 0o1
    then efifo
    else if format_bits mode == 0o14
    then esock
    else err
