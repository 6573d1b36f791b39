-- ===== src/SsTableRow/RoundTrip.antt =====
-- What `serialize` writes, `deserialize` reads back.
use open_x_database.Shared.{◌≡◌, ◌≤◌, ◌<◌, ◌^◌, [], ◌++◌, refl, arith}
use open_x_database.Shared.{length, length-append, append_assoc, append-nil}
use open_x_database.Shared.{ok}
use open_x_database.Bytes.{Bytes, to_bytes, length-to_bytes, from_bytes-to_bytes}
use open_x_database.Bytes.Stream.{read_object, read_object_front_of_length, peek}
use open_x_database.Shared.{true, false}
use open_x_database.Shared.{take-append_of_length, drop-append_of_length}
use open_x_database.Bytes.Stream.{opened, read_uint_front, read_string_front}
use open_x_database.SsTableRow.{SsTableRow, UInt128, EntryType, put, remove, unnamed, entry_code}
use open_x_database.SsTableRow.{entry_of, Runtime, serialize, deserialize_stream, deserialize}
use open_x_database.SsTableRow.{
  checksum_bytes, no_checksum, split_checksum, read_entry_type, get_row_size,
}

-- An entry type that the code writes: a named one.
abbrev pub IsNamed : EntryType → Type 0
IsNamed put = Unit {0}
IsNamed remove = Unit {0}
IsNamed (unnamed b) = ⊥

-- A row whose fields are in the ranges of their C++ types, in a string that the allocator grants.
pub record IsRow (rt : Runtime) (r : SsTableRow) : Type 0 where
  pub key_fits : r.key < 2 ^ 64
  pub type_named : IsNamed r.entry_type
  pub first_fits : r.checksum.first < 2 ^ 64
  pub second_fits : r.checksum.second < 2 ^ 64
  pub row_granted : get_row_size r ≤ rt.max_size
  pub size_fits : length r.value < 2 ^ 64

-- `getRowSize` is the length of the serialized row, for any row.
pub length-serialize : (r : SsTableRow) → length (serialize r) ≡ get_row_size r
unfolding serialize get_row_size
length-serialize r = simp (length-append, length-to_bytes) (omega arith)

entry_of-entry_code : (t : EntryType) → IsNamed t → entry_of (entry_code t) ≡ t
unfolding entry_of
entry_of-entry_code put h = refl
entry_of-entry_code remove h = refl
entry_of-entry_code (unnamed b) h = absurd h

read_entry_type_front :
    (t old : EntryType) (ys : Bytes)
    → IsNamed t
    → read_entry_type old (opened (to_bytes 1 (entry_code t) ++ ys)) ≡ ok (t, opened ys)
unfolding read_entry_type entry_of
read_entry_type_front put old ys h = rw (read_uint_front 1 0 _ ys (omega arith))
read_entry_type_front remove old ys h = rw (read_uint_front 1 1 _ ys (omega arith))
read_entry_type_front (unnamed b) old ys h = absurd h

split_checksum-checksum_bytes :
    (sum : UInt128)
    → sum.first < 2 ^ 64
    → sum.second < 2 ^ 64
    → split_checksum (checksum_bytes sum) ≡ sum
unfolding split_checksum
split_checksum-checksum_bytes sum h k = rw (
  take-append_of_length 8 _ (to_bytes 8 sum.second) (length-to_bytes 8 sum.first),
  drop-append_of_length 8 _ (to_bytes 8 sum.second) (length-to_bytes 8 sum.first),
  from_bytes-to_bytes 8 sum.first (omega arith),
  from_bytes-to_bytes 8 sum.second (omega arith),
)

read_checksum_front :
    (sum : UInt128) (ys : Bytes)
    → read_object 16 (checksum_bytes no_checksum) (opened (checksum_bytes sum ++ ys))
      ≡ ok (checksum_bytes sum, opened ys)
read_checksum_front sum ys =
    read_object_front_of_length 16 (checksum_bytes sum) ys (checksum_bytes no_checksum)
      (checksum_length sum) (checksum_length no_checksum)
  where
    checksum_length : (s : UInt128) → length (checksum_bytes s) ≡ 16
    checksum_length s = simp (length-append, length-to_bytes)

-- A row that fits its fields is read back whole from the front of a stream, which then stands
-- behind it.
pub deserialize_stream-serialize :
    (rt : Runtime) (r : SsTableRow) (more : Bytes)
    → IsRow rt r
    → deserialize_stream rt (opened (serialize r ++ more)) ≡ ok (r, opened more)
unfolding deserialize_stream serialize get_row_size
deserialize_stream-serialize rt r more h = rw (
  append_assoc,
  read_entry_type_front r.entry_type rt.garbage _ h.type_named,
  append_assoc,
  read_uint_front 1 8 0 _ (omega arith),
  append_assoc,
  read_uint_front 8 r.key 0 _ (omega (arith, h.key_fits)),
  append_assoc,
  read_uint_front 8 (length r.value) 0 _ (omega (arith, h.size_fits)),
  append_assoc,
  read_string_front rt.max_size r.value _ [] (omega (arith, h.row_granted)),
  append_assoc,
  read_uint_front 1 16 0 _ (omega arith),
  read_checksum_front r.checksum more,
  split_checksum-checksum_bytes r.checksum h.first_fits h.second_fits,
)

pub deserialize-serialize :
    (rt : Runtime) (r : SsTableRow) → IsRow rt r → deserialize rt (serialize r) ≡ ok r
unfolding deserialize
deserialize-serialize rt r h =
    let whole = rw append-nil at (deserialize_stream-serialize rt r [] h) in rw (whole, deserialize)

-- A stream that has bytes left is not changed by a look ahead.
pub peek-serialize :
    (r : SsTableRow) (more : Bytes)
    → peek (opened (serialize r ++ more)) ≡ opened (serialize r ++ more)
unfolding peek serialize to_bytes
peek-serialize r more = refl

pub peek_end : peek (opened []) ≡ record { rest = []; eof = true; fail = false }
unfolding peek
peek_end = refl
