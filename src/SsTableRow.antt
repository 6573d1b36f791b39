-- ===== src/SsTableRow.antt =====
-- src/SSTableRow.h and src/SSTableRow.cpp: a row of a table, its size and its serialized form.
pub mod RoundTrip
pub mod Progress
use open_x_database.Shared.{ℕ, ◌+◌, List, [], ◌∷◌, ◌++◌, length, ◌==◌, if◌then◌else◌}
use open_x_database.Bytes.{Bytes, to_bytes, from_bytes}
use open_x_database.Bytes.Stream.{InStream, Reader, opened, pure, result, ◌>>=◌}
use open_x_database.Bytes.Stream.{read_object, read_uint, read_string}
use open_x_database.Shared.{Outcome, ok, throws, undefined, diverges}

-- A `uint8_t` enumeration also holds the values that it does not name.
pub data EntryType : Type 0 where
  put : EntryType
  remove : EntryType
  unnamed : ℕ → EntryType

abbrev pub entry_code : EntryType → ℕ
entry_code put = 0
entry_code remove = 1
entry_code (unnamed b) = b

unfoldable pub entry_of : ℕ → EntryType
entry_of b = if b == 0 then put else if b == 1 then remove else unnamed b

-- `std::pair<uint64_t, uint64_t>`
pub record UInt128 : Type 0 where
  pub first : ℕ
  pub second : ℕ

abbrev pub no_checksum : UInt128
no_checksum = record { first = 0; second = 0 }

-- A `Key` is its 64-bit `id`.
pub record SsTableRow : Type 0 where
  pub key : ℕ
  pub value : Bytes
  pub entry_type : EntryType
  pub checksum : UInt128

-- The three constructors.
abbrev pub put_row : ℕ → Bytes → UInt128 → SsTableRow
put_row k v sum = record { key = k; value = v; entry_type = put; checksum = sum }

abbrev pub remove_row : ℕ → SsTableRow
remove_row k = record { key = k; value = []; entry_type = remove; checksum = no_checksum }

unfoldable pub get_row_size : SsTableRow → ℕ
get_row_size r = 1 + 1 + 8 + 8 + length r.value + 1 + 16

-- The object representation of the checksum, as the address of its first half gives it.
abbrev pub checksum_bytes : UInt128 → Bytes
checksum_bytes sum = to_bytes 8 sum.first ++ to_bytes 8 sum.second

unfoldable pub serialize : SsTableRow → Bytes
serialize r =
    to_bytes 1 (entry_code r.entry_type)
    ++ (to_bytes 1 8
        ++ (to_bytes 8 r.key
            ++ (to_bytes 8 (length r.value)
                ++ (r.value ++ (to_bytes 1 16 ++ checksum_bytes r.checksum)))))

-- What the code takes from its surroundings: the longest string that the allocator grants, and the
-- byte that stands where `EntryType entryType;` is left without a value.
pub record Runtime : Type 0 where
  pub max_size : ℕ
  pub garbage : EntryType

split_checksum : Bytes → UInt128
split_checksum bs = record {
  first = from_bytes (open_x_database.Shared.take 8 bs);
  second = from_bytes (open_x_database.Shared.drop 8 bs);
}

-- `stream.read(reinterpret_cast<char*>(&entryType), sizeof(entryType))`
read_entry_type : EntryType → Reader EntryType
read_entry_type old = do b ← read_uint 1 1 (entry_code old); pure (entry_of b)

unfoldable pub deserialize_stream : Runtime → Reader SsTableRow
unfolding read_entry_type split_checksum
deserialize_stream rt = do
  op ← read_entry_type rt.garbage
  size_of_key ← read_uint 1 1 0
  k ← read_uint 8 size_of_key 0
  num_bytes ← read_uint 8 8 0
  v ← read_string rt.max_size num_bytes []
  size_of_checksum ← read_uint 1 1 0
  sum ← read_object size_of_checksum (checksum_bytes no_checksum)
  pure (record { key = k; value = v; entry_type = op; checksum = split_checksum sum })

unfoldable pub deserialize : Runtime → Bytes → Outcome SsTableRow
deserialize rt bs = result (deserialize_stream rt (opened bs))
