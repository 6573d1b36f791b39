-- ===== src/Disk.antt =====
-- The database directory, as src/StorageEngine.cpp uses it: `wal.bin`, `options.bin`,
-- `bloom_filter.bin` and the directories `segment` and `index`. `none` is what does not exist. A file
-- that is opened for writing can be opened, and holds what was written to it.
pub mod Names
use open_x_database.Shared.{
  ℕ, zero, suc, ◌+◌, ◌/◌, ◌%◌, Bool, true, false, List, [], ◌∷◌, ◌++◌, Option, none, some, ltb,
  ◌==◌,
}
use open_x_database.Shared.{if◌then◌else◌, ◌&&◌}
use open_x_database.Bytes.{Bytes}
use open_x_database.Bytes.Equality.{same_bytes}
use open_x_database.Index.{Directory}

pub record Disk : Type 0 where
  pub wal : Option Bytes
  pub options : Option Bytes
  pub bloom : Option Bytes
  pub segments : Option Directory
  pub indexes : Option Directory

abbrev pub fresh : Disk
fresh = record { wal = none; options = none; bloom = none; segments = none; indexes = none }

-- `std::to_string`: the decimal digits. Twenty are enough for 64 bits.
unfoldable pub digits : ℕ → ℕ → Bytes
digits zero n = []
digits (suc fuel) n =
    let rest = digits fuel (n / 10) in
    if ltb n 10 then (48 + n) ∷ [] else rest ++ (48 + n % 10) ∷ []

unfoldable pub to_string : ℕ → Bytes
unfolding digits
to_string n = digits 20 n

abbrev pub dot_bin : Bytes
dot_bin = b'.' ∷ b'b' ∷ b'i' ∷ b'n' ∷ []

-- "segment_" + std::to_string(segment) + ".bin"
unfoldable pub segment_name : ℕ → Bytes
unfolding to_string
segment_name n =
    (b's' ∷ b'e' ∷ b'g' ∷ b'm' ∷ b'e' ∷ b'n' ∷ b't' ∷ b'_' ∷ []) ++ (to_string n ++ dot_bin)

-- "index_" + std::to_string(segment) + ".bin"
unfoldable pub index_name : ℕ → Bytes
unfolding to_string
index_name n = (b'i' ∷ b'n' ∷ b'd' ∷ b'e' ∷ b'x' ∷ b'_' ∷ []) ++ (to_string n ++ dot_bin)

unfoldable pub read_file : Bytes → Directory → Option Bytes
unfolding same_bytes
read_file name [] = none
read_file name ((p, bs) ∷ d) = if same_bytes p name then some bs else read_file name d

unfoldable pub write_file : Bytes → Bytes → Directory → Directory
unfolding same_bytes
write_file name bs [] = (name, bs) ∷ []
write_file name bs ((p, cs) ∷ d) =
    if same_bytes p name then (p, bs) ∷ d else (p, cs) ∷ write_file name bs d

-- A file written into a directory that may be missing: then the stream is not open, and nothing is
-- written.
unfoldable pub write_into : Bytes → Bytes → Option Directory → Option Directory
write_into name bs none = none
write_into name bs (some d) = some (write_file name bs d)

unfoldable pub read_from : Bytes → Option Directory → Option Bytes
read_from name none = none
read_from name (some d) = read_file name d

-- `if (!fs::exists(dir)) fs::create_directory(dir);`
unfoldable pub made : Option Directory → Option Directory
made none = some []
made (some d) = some d
