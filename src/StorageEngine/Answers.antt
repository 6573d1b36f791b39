-- ===== src/StorageEngine/Answers.antt =====
-- What `get` answers: the last row in memory, and if that is not live, the last row on disk.
use open_x_database.Shared.{ℕ, ◌≡◌, ◌≤◌, ◌<◌, sym, ◌∙◌, List, ◌++◌}
use open_x_database.Shared.{Option, none, some, arith}
use open_x_database.Shared.{ok, drop-append_of_length, replicate, length-replicate}
use open_x_database.Bytes.{Bytes}
use open_x_database.Bytes.Stream.{read_object_front_of_length}
use open_x_database.SsTableRow.{SsTableRow, serialize, get_row_size}
use open_x_database.SsTableRow.RoundTrip.{IsRow, length-serialize, deserialize-serialize}
use open_x_database.SsTableIndex.Lookup.{IsAt}
use open_x_database.MemTable
use open_x_database.MemTable.{live, npos}
use open_x_database.Index.{SearchHint}
use open_x_database.Compression.{Compressor}
use open_x_database.Hasher.{Hasher}
use open_x_database.Disk
use open_x_database.History.{last_row, or_else}
use open_x_database.StorageEngine.State.{Platform, Engine}
use open_x_database.StorageEngine.Access.{
  read_segment, find_in_segment, find_on_disk, find_in_memory, find_anywhere, open_value, get,
}
use open_x_database.StorageEngine.Invariant.{Represents, HasPlace, OnDisk}

-- The bytes of a row are read from its place.
read_segment-IsAt :
    (max_size : ℕ) (hint : SearchHint) (bytes : Bytes) (r : SsTableRow)
    → IsAt bytes r (record { offset = hint.offset; size = hint.size })
    → get_row_size r ≤ max_size
    → read_segment max_size hint (some bytes) ≡ ok (serialize r)
unfolding read_segment
read_segment-IsAt max_size hint bytes r a l =
    let size = hint.size in
    let zeros = replicate {A = ℕ} size 0 in
    let front =
      read_object_front_of_length size (serialize r) a.behind zeros
        (length-serialize r ∙ sym a.of_size) (length-replicate {A = ℕ} size 0) in
    ground (
      arith,
      a.of_size,
      a.split,
      drop-append_of_length hint.offset a.before (serialize r ++ a.behind) (sym a.at_offset),
      front,
    )

-- The bytes of a row stand in the directory where the hint says.
pub record IsPlaced (p : Platform) (e : Engine) (hint : SearchHint) (row : SsTableRow)
    : Type 0 where
  pub bytes : Bytes
  pub in_file : Disk.read_from (Disk.segment_name hint.file_id) e.disk.segments ≡ some bytes
  pub place : IsAt bytes row (record { offset = hint.offset; size = hint.size })
  pub is_row : IsRow p.runtime row

pub find_in_segment-IsPlaced :
    (p : Platform) (e : Engine) (hint : SearchHint) (row : SsTableRow)
    → IsPlaced p e hint row
    → find_in_segment p hint e ≡ (ok (live (some row)), e)
unfolding find_in_segment
find_in_segment-IsPlaced p e hint row at = ground (
  arith,
  at.in_file,
  read_segment-IsAt p.runtime.max_size hint at.bytes row at.place at.is_row.row_granted,
  deserialize-serialize p.runtime row at.is_row,
)

module _ (p : Platform) (c : Compressor) (h : Hasher) (e : Engine)
    (flushed unflushed : List SsTableRow) (r : Represents p c h e flushed unflushed) (k : ℕ)
    (l : k < npos) where
  pub HasPlace-IsPlaced :
      (row : SsTableRow) (place : HasPlace p e.index e.bloom_filter r.segments e.segment_id k row)
      → IsPlaced p e place.hint row
  unfolding Disk.read_from
  HasPlace-IsPlaced row place = record {
    bytes = place.bytes;
    in_file = rw r.has_segments place.in_file;
    place = place.place;
    is_row = place.is_row;
  }

  find_on_disk-OnDisk :
      (o : Option SsTableRow)
      → OnDisk p e.index e.bloom_filter r.segments e.segment_id k o
      → find_on_disk p k e ≡ (ok (live o), e)
  unfolding find_on_disk live
  find_on_disk-OnDisk none missing = ground (arith, missing)
  find_on_disk-OnDisk (some row) place = ground (
    arith,
    place.indexed,
    place.passes,
    find_in_segment-IsPlaced p e place.hint row (HasPlace-IsPlaced row place),
  )

  -- In an engine that represents its rows, `get` of a key below 2^64 - 1 answers from the key's
  -- last row in memory if it is a put row, and otherwise, also if it is a removal, from the key's
  -- last row in the segments; it changes nothing.
  pub get_lem :
      get p k e
      ≡ (open_value e (or_else (live (last_row k unflushed)) (live (last_row k flushed))), e)
  unfolding get find_in_memory find_anywhere MemTable.get
  get_lem =
      ground
        (arith, r.in_memory.answers k, find_on_disk-OnDisk (last_row k flushed) (r.on_disk k l))
