-- ===== src/StorageEngine/Snapshot.antt =====
-- `StorageEngine::makeSnapshot` of src/StorageEngine.cpp.
use open_x_database.Shared.{ℕ, ◌+◌, ◌%◌, ◌^◌, Bool, true, false, List, [], ◌∷◌, Option, none, some}
use open_x_database.Shared.{ok, throws, undefined, diverges}
use open_x_database.SsTableRow.{SsTableRow}
use open_x_database.SsTable.{SsTable}
use open_x_database.MemTable
use open_x_database.MemTable.{MemTable}
use open_x_database.SsTableIndex
use open_x_database.SsTableIndex.{SsTableIndex}
use open_x_database.Index
use open_x_database.Index.{Index}
use open_x_database.BloomFilter
use open_x_database.BloomFilter.{Bits}
use open_x_database.Disk
use open_x_database.Disk.{Disk}
use open_x_database.Action.{Action, modify, gets, ◌>>=◌, ◌>>◌}
use open_x_database.StorageEngine.State.{Platform, Engine, filter_size, num_hashes}

-- `m_memTable->dump` into the segment's file.
write_segment : ℕ → Engine → Engine
write_segment segment e = record e {
  disk = record e.disk {
    segments =
        Disk.write_into (Disk.segment_name segment) (MemTable.dump e.mem_table) e.disk.segments;
  };
}

clear_mem_table : Action Engine Unit
clear_mem_table e = elim (MemTable.clear e.mem_table) [
  | ok t ↦ (ok tt, record e { mem_table = t })
  | throws x ↦ (throws x, e)
  | undefined ↦ (undefined, e)
  | diverges ↦ (diverges, e)
]

unfoldable pub add_rows : Platform → List SsTableRow → Bits → Bits
add_rows p [] bits = bits
add_rows p (r ∷ rs) bits = add_rows p rs (BloomFilter.add p.hashes num_hashes bits r.key)

-- The rows' keys go into the filter, and the filter to its file.
update_bloom_filter : Platform → SsTable → Action Engine Unit
unfolding add_rows
update_bloom_filter p table e =
    let bits = add_rows p table.rows e.bloom_filter in
    elim (BloomFilter.dump filter_size true bits) [
      | ok bs ↦ (ok tt, record e { bloom_filter = bits; disk = record e.disk { bloom = some bs } })
      | throws x ↦ (throws x, record e { bloom_filter = bits })
      | undefined ↦ (undefined, e)
      | diverges ↦ (diverges, e)
    ]

is_made : Option Index.Directory → Bool
is_made none = false
is_made (some d) = true

dump_index : Platform → ℕ → SsTableIndex → Action Engine Unit
unfolding is_made
dump_index p segment t e = elim (SsTableIndex.dump p.order (is_made e.disk.indexes) t) [
  | ok bs ↦ (
    ok tt,
    record e {
      disk = record e.disk {
        indexes = Disk.write_into (Disk.index_name segment) bs e.disk.indexes;
      };
    },
  )
  | throws x ↦ (throws x, e)
  | undefined ↦ (undefined, e)
  | diverges ↦ (diverges, e)
]

update_index : SsTableIndex → Action Engine Unit
update_index t e = elim (Index.update e.index t) [
  | ok x ↦ (ok tt, record e { index = x })
  | throws x ↦ (throws x, e)
  | undefined ↦ (undefined, e)
  | diverges ↦ (diverges, e)
]

unfoldable pub make_snapshot : Platform → Action Engine Unit
unfolding write_segment clear_mem_table update_bloom_filter dump_index update_index
make_snapshot p = do
  segment ← gets (λ e. e.segment_id)
  modify (λ e. record e { segment_id = (e.segment_id + 1) % 2 ^ 64 })
  table ← gets (λ e. MemTable.create_sorted_strings_table e.mem_table)
  modify (write_segment segment)
  clear_mem_table
  update_bloom_filter p table
  dump_index p segment (SsTableIndex.of_table segment table)
  update_index (SsTableIndex.of_table segment table)
