-- ===== src/StorageEngine/Renumbering.antt =====
-- A snapshot under a number that the index knows, as the first one after a reopening takes it.
use open_x_database.Shared.{
  ◌+◌, ◌%◌, ◌≡◌, ◌<◌, ◌^◌, refl, [], ◌++◌, ℕ, some, arith, take, throws, already_indexed,
}
use open_x_database.Bytes.{Bytes, to_bytes}
use open_x_database.SsTable.{SsTable}
use open_x_database.SsTableIndex
use open_x_database.SsTableIndex.{SsTableIndex, of_table, dump_hints}
use open_x_database.WriteAheadLog
use open_x_database.WriteAheadLog.{WriteAheadLog}
use open_x_database.MemTable
use open_x_database.MemTable.{create_sorted_strings_table}
use open_x_database.Index.{Index, Directory, find_node, update}
use open_x_database.BloomFilter
use open_x_database.Disk
use open_x_database.Disk.{segment_name, index_name, write_file}
use open_x_database.StorageEngine.State.{Platform, Engine, filter_size}
use open_x_database.StorageEngine.Snapshot.{make_snapshot, add_rows}
use open_x_database.StorageEngine.Segments.{file_id-of_table}

update_known :
    (x : Index) (t : SsTableIndex) (n : ℕ)
    → find_node t.file_id x.map ≡ some n
    → update x t ≡ throws already_indexed
unfolding update
update_known x t n e = ground arith

module _ (p : Platform) (e : Engine) (w : WriteAheadLog) (segments indexes : Directory) (n : ℕ)
    (logs : e.mem_table.wal ≡ some w) (has_segments : e.disk.segments ≡ some segments)
    (has_indexes : e.disk.indexes ≡ some indexes) (id_fits : e.segment_id < 2 ^ 32)
    (known : find_node e.segment_id e.index.map ≡ some n) where
  abbrev table : SsTable
  table = create_sorted_strings_table e.mem_table

  abbrev index_bytes : Bytes
  index_bytes =
      unfold dump_hints in
      to_bytes 1 4
      ++ (to_bytes 4 (of_table e.segment_id table).file_id
          ++ dump_hints (p.order (of_table e.segment_id table).map))

  -- The engine behind the exception.
  left_behind : Engine
  left_behind = record e {
    mem_table = record {
      map = [];
      counter = 0;
      memory_size = 0;
      wal = some (WriteAheadLog.flush_and_clear w);
    };
    segment_id = (e.segment_id + 1) % 2 ^ 64;
    bloom_filter = add_rows p table.rows e.bloom_filter;
    disk = record e.disk {
      segments = some (write_file (segment_name e.segment_id) (MemTable.dump e.mem_table) segments);
      indexes = some (write_file (index_name e.segment_id) index_bytes indexes);
      bloom = some (take filter_size (add_rows p table.rows e.bloom_filter));
    };
  }

  make_snapshot_known : make_snapshot p e ≡ (throws already_indexed, left_behind)
  unfolding make_snapshot left_behind MemTable.clear BloomFilter.dump SsTableIndex.dump
      Disk.write_into
  make_snapshot_known =
      let is_known : find_node (of_table e.segment_id table).file_id e.index.map ≡ some n =
        rw (file_id-of_table e.segment_id table id_fits) known in
      ground (
        arith,
        logs,
        has_segments,
        has_indexes,
        update_known e.index (of_table e.segment_id table) n is_known,
      )

-- In an opened engine with both directories and a 32-bit number for the next segment that the index
-- knows already, `makeSnapshot` throws that the file id is already indexed. By then the table in
-- memory is empty, and its rows stand in the older segment's file in place of that segment's own,
-- while the index is as it was.
pub make_snapshot-throws :
    (p : Platform) (e : Engine) (w : WriteAheadLog) (segments indexes : Directory) (n : ℕ)
    → e.mem_table.wal ≡ some w
    → e.disk.segments ≡ some segments
    → e.disk.indexes ≡ some indexes
    → e.segment_id < 2 ^ 32
    → find_node e.segment_id e.index.map ≡ some n
    → (e' : Engine) × (make_snapshot p e ≡ (throws already_indexed, e'))
      × (e'.mem_table.map ≡ [])
      × (e'.index ≡ e.index)
      × (e'.disk.segments
          ≡ some (write_file (segment_name e.segment_id) (MemTable.dump e.mem_table) segments))
unfolding left_behind
make_snapshot-throws p e w segments indexes n logs has_segments has_indexes id_fits known = (
  left_behind p e w segments indexes n logs has_segments has_indexes id_fits known,
  make_snapshot_known p e w segments indexes n logs has_segments has_indexes id_fits known,
  refl,
  refl,
  refl,
)
