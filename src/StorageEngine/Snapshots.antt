-- ===== src/StorageEngine/Snapshots.antt =====
-- A snapshot moves the rows in memory to a segment, and changes no answer.
use open_x_database.Shared.{ℕ, ◌+◌, ◌%◌, ◌≡◌, ◌≢◌, ◌≤◌, ◌<◌, ◌^◌, refl, sym, ◌∙◌, List, [], ◌++◌}
use open_x_database.Shared.{none, some, length, arith, take}
use open_x_database.Shared.{ok}
use open_x_database.Bytes.{Bytes, to_bytes}
use open_x_database.SsTableRow.{SsTableRow}
use open_x_database.SsTableRow.RoundTrip.{IsRow}
use open_x_database.SsTable
use open_x_database.SsTable.{SsTable, dump_rows}
use open_x_database.SsTableIndex
use open_x_database.SsTableIndex.{of_table, dump_hints}
use open_x_database.WriteAheadLog
use open_x_database.MemTable
use open_x_database.MemTable.{MemTable, create_sorted_strings_table}
use open_x_database.MemTable.Lookup.{Holds-empty}
use open_x_database.MemTable.Snapshot.{dump-eq-table, last_row-table, length-table}
use open_x_database.Index
use open_x_database.Index.{push}
use open_x_database.Index.Lookup.{update-push, find_node-push}
use open_x_database.BloomFilter
use open_x_database.Compression.{Compressor}
use open_x_database.Hasher.{Hasher}
use open_x_database.Disk
use open_x_database.Disk.{segment_name, index_name, write_file, read_from}
use open_x_database.Disk.Names.{read-write_segment}
use open_x_database.History.{last_row, last_row-append, last_row-All}
use open_x_database.StorageEngine.State.{Platform, Engine, filter_size}
use open_x_database.StorageEngine.Snapshot.{make_snapshot, add_rows}
use open_x_database.StorageEngine.Invariant.{Represents, OnDisk}
use open_x_database.StorageEngine.Segments.{OnDisk-push, length-add_rows, file_id-of_table}

module _ (p : Platform) (c : Compressor) (h : Hasher) (e : Engine)
    (flushed unflushed : List SsTableRow) (r : Represents p c h e flushed unflushed) where
  abbrev pub table : SsTable
  table = create_sorted_strings_table e.mem_table

  abbrev pub index_bytes : Bytes
  unfolding dump_hints
  index_bytes =
      to_bytes 1 4
      ++ (to_bytes 4 (of_table e.segment_id table).file_id
          ++ dump_hints (p.order (of_table e.segment_id table).map))

  -- The engine behind the snapshot.
  unfoldable pub snapshotted : Engine
  snapshotted = record e {
    mem_table = record {
      map = [];
      counter = 0;
      memory_size = 0;
      wal = some (WriteAheadLog.flush_and_clear r.log);
    };
    segment_id = (e.segment_id + 1) % 2 ^ 64;
    index = push e.index (of_table e.segment_id table);
    bloom_filter = add_rows p table.rows e.bloom_filter;
    disk = record e.disk {
      segments =
          some (write_file (segment_name e.segment_id) (MemTable.dump e.mem_table) r.segments);
      indexes = some (write_file (index_name e.segment_id) index_bytes r.indexes);
      bloom = some (take filter_size (add_rows p table.rows e.bloom_filter));
    };
  }

  not_indexed : Index.find_node (of_table e.segment_id table).file_id e.index.map ≡ none
  not_indexed =
      rw (file_id-of_table e.segment_id table r.id_fits) (r.ids_known e.segment_id (omega arith))

  pub make_snapshot_lem : make_snapshot p e ≡ (ok tt, snapshotted)
  unfolding make_snapshot snapshotted MemTable.clear BloomFilter.dump SsTableIndex.dump
      Disk.write_into
  make_snapshot_lem = ground (
    arith,
    r.logs,
    r.has_segments,
    r.has_indexes,
    update-push e.index (of_table e.segment_id table) not_indexed,
  )

  module _ (bytes_fit : length (dump_rows unflushed) < 2 ^ 32)
      (id_fits : e.segment_id + 1 < 2 ^ 32) where
    id_next : (e.segment_id + 1) % 2 ^ 64 ≡ e.segment_id + 1
    id_next = omega arith

    table_fits : length (dump_rows table.rows) < 2 ^ 32
    table_fits = omega (arith, length-table e.mem_table unflushed r.in_memory)

    -- The table has the last row of every key in memory.
    last_row-snapshot : (k : ℕ) → k < MemTable.npos → last_row k table.rows ≡ last_row k unflushed
    last_row-snapshot k l =
        last_row-table e.mem_table k r.in_memory.sorted l ∙ r.in_memory.answers k

    OnDisk-behind :
        (k : ℕ)
        → k < MemTable.npos
        → OnDisk p
            (push e.index (of_table e.segment_id table))
            (add_rows p table.rows e.bloom_filter)
            (write_file (segment_name e.segment_id) (MemTable.dump e.mem_table) r.segments)
            (e.segment_id + 1)
            k
            (last_row k (flushed ++ unflushed))
    OnDisk-behind k l =
        rw (last_row-append k flushed unflushed, ← last_row-snapshot k l, written)
          (OnDisk-push p e.index e.bloom_filter r.segments e.segment_id table r.id_fits table_fits
            has_bits k flushed fits (r.on_disk k l))
      where
        written : MemTable.dump e.mem_table ≡ dump_rows table.rows
        written = dump-eq-table e.mem_table ∙ (unfold SsTable.dump in refl)

        has_bits : 0 < length e.bloom_filter
        has_bits = omega (arith, r.filter_length)

        fits : (q : SsTableRow) → last_row k table.rows ≡ some q → IsRow p.runtime q
        fits q found =
            last_row-All (IsRow p.runtime) k unflushed q r.rows_fit
              (sym (last_row-snapshot k l) ∙ found)

    Represents-snapshotted : Represents p c h snapshotted (flushed ++ unflushed) []
    unfolding snapshotted
    Represents-snapshotted = record {
      compresses = r.compresses;
      hashes = r.hashes;
      in_memory = Holds-empty;
      rows_fit = tt;
      log = WriteAheadLog.flush_and_clear r.log;
      logs = refl;
      filter_length = length-add_rows p table.rows e.bloom_filter ∙ r.filter_length;
      segments = write_file (segment_name e.segment_id) (MemTable.dump e.mem_table) r.segments;
      has_segments = refl;
      indexes = write_file (index_name e.segment_id) index_bytes r.indexes;
      has_indexes = refl;
      id_fits = omega (arith, id_next);
      ids_known = λ n l.
          find_node-push e.index (of_table e.segment_id table) n (new_id n l)
          ∙ r.ids_known n (omega (arith, id_next));
      on_disk = λ k l. rw id_next (OnDisk-behind k l);
    }
      where
        new_id :
            (n : ℕ) → (e.segment_id + 1) % 2 ^ 64 ≤ n → (of_table e.segment_id table).file_id ≢ n
        new_id n l = rw (file_id-of_table e.segment_id table r.id_fits) (omega (arith, id_next))

    -- The files of the segments that are there stay as they are.
    pub read-snapshotted :
        (n : ℕ)
        → n < e.segment_id
        → read_from (segment_name n) (snapshotted).disk.segments
          ≡ read_from (segment_name n) e.disk.segments
    unfolding snapshotted read_from
    read-snapshotted n l =
        read-write_segment e.segment_id n (MemTable.dump e.mem_table) r.segments (omega arith)
          (omega arith)
        ∙ ground (arith, r.has_segments)

    -- In an engine that represents its rows, with less than 4 GiB of rows in memory and a 32-bit
    -- segment id left, `makeSnapshot` succeeds and takes one id; the engine then represents the
    -- same rows, all of them in segments.
    pub make_snapshot-Represents :
        (e' : Engine) × (make_snapshot p e ≡ (ok tt, e'))
        × Represents p c h e' (flushed ++ unflushed) []
        × (e'.segment_id ≡ e.segment_id + 1)
    make_snapshot-Represents =
        (snapshotted, make_snapshot_lem, Represents-snapshotted, unfold snapshotted in id_next)
