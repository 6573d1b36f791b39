-- ===== src/StorageEngine/Invariant.antt =====
-- The abstract view of an engine: the rows that its segments hold and the rows that are in memory
-- only, each the oldest first; and what the engine keeps true of them.
use open_x_database.Shared.{
  ℕ, ◌≡◌, ◌≤◌, ◌<◌, ◌^◌, true, false, List, Option, none, some, length, All,
}
use open_x_database.Bytes.{Bytes}
use open_x_database.SsTableRow.{SsTableRow}
use open_x_database.SsTableRow.RoundTrip.{IsRow}
use open_x_database.SsTableIndex.Lookup.{IsAt}
use open_x_database.Index
use open_x_database.Index.{Index, SearchHint, find_node, Directory}
use open_x_database.BloomFilter
use open_x_database.BloomFilter.{Bits}
use open_x_database.Compression.{Compressor}
use open_x_database.Hasher.{Hasher}
use open_x_database.WriteAheadLog.{WriteAheadLog}
use open_x_database.MemTable.{npos}
use open_x_database.MemTable.Lookup.{Keeps}
use open_x_database.Disk
use open_x_database.Disk.{segment_name}
use open_x_database.History.{last_row}
use open_x_database.StorageEngine.State.{Platform, Engine, num_hashes, filter_size}

-- The place of a row: the index leads to a segment that is already written, which holds the row's
-- bytes there, and the filter lets its key pass.
pub record HasPlace (p : Platform) (x : Index) (bits : Bits) (d : Directory) (next : ℕ) (k : ℕ)
    (r : SsTableRow) : Type 0 where
  pub hint : SearchHint
  pub indexed : Index.get x k ≡ (true, hint)
  pub written : hint.file_id < next
  pub bytes : Bytes
  pub in_file : Disk.read_file (segment_name hint.file_id) d ≡ some bytes
  pub place : IsAt bytes r (record { offset = hint.offset; size = hint.size })
  pub passes : BloomFilter.probably_contains p.hashes num_hashes bits k ≡ true
  pub is_row : IsRow p.runtime r

abbrev pub OnDisk : Platform → Index → Bits → Directory → ℕ → ℕ → Option SsTableRow → Type 0
OnDisk p x bits d next k none = (Index.get x k).0 ≡ false
OnDisk p x bits d next k (some r) = HasPlace p x bits d next k r

pub record Represents (p : Platform) (c : Compressor) (h : Hasher) (e : Engine)
    (flushed unflushed : List SsTableRow) : Type 0 where
  pub compresses : e.compressor ≡ c
  pub hashes : e.hasher ≡ some h
  pub in_memory : Keeps e.mem_table unflushed
  pub rows_fit : All (IsRow p.runtime) unflushed
  pub log : WriteAheadLog
  pub logs : e.mem_table.wal ≡ some log
  pub filter_length : length e.bloom_filter ≡ filter_size
  pub segments : Directory
  pub has_segments : e.disk.segments ≡ some segments
  pub indexes : Directory
  pub has_indexes : e.disk.indexes ≡ some indexes
  pub id_fits : e.segment_id < 2 ^ 32
  pub ids_known : (n : ℕ) → e.segment_id ≤ n → find_node n e.index.map ≡ none
  pub on_disk :
      (k : ℕ)
      → k < npos
      → OnDisk p e.index e.bloom_filter segments e.segment_id k (last_row k flushed)
