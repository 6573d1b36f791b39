-- ===== src/StorageEngine/Operations.antt =====
-- Every `put` and `remove` adds one row to what the engine holds, and `get` answers from it.
use open_x_database.Shared.{
  ℕ, ◌+◌, ◌≡◌, ◌≤◌, ◌<◌, ◌^◌, refl, sym, ◌∙◌, Bool, true, false, List, [], ◌∷◌, ◌++◌,
}
use open_x_database.Shared.{length, arith, leb, if◌then◌else◌, ap}
use open_x_database.Shared.{◌⊎◌, inl, inr, Outcome, ok, append_assoc, append-nil, All-append}
use open_x_database.Bytes.{Bytes}
use open_x_database.SsTableRow.{SsTableRow, put_row, remove_row, get_row_size}
use open_x_database.SsTableRow.RoundTrip.{IsRow}
use open_x_database.SsTable.{dump_rows}
use open_x_database.SsTable.Files.{length-dump_rows, length-dump_rows_snoc}
use open_x_database.WriteAheadLog
use open_x_database.MemTable
use open_x_database.MemTable.{put_entry}
use open_x_database.MemTable.Lookup.{put_entry-Keeps}
use open_x_database.Compression.{Compressor}
use open_x_database.Hasher.{Hasher}
use open_x_database.StorageEngine.State.{Platform, Engine}
use open_x_database.StorageEngine.Snapshot.{make_snapshot}
use open_x_database.StorageEngine.Snapshots.{
  make_snapshot-Represents, make_snapshot_lem, read-snapshotted,
}
use open_x_database.Disk.{segment_name, read_from}
use open_x_database.StorageEngine.Access.{put_value, remove_key, checksum_of}
use open_x_database.StorageEngine.Invariant.{Represents}

-- The engine with one more row in memory.
abbrev pub with_row : Engine → SsTableRow → Engine
with_row e row = record e { mem_table = put_entry e.mem_table row }

module _ (p : Platform) (c : Compressor) (h : Hasher) (e : Engine)
    (flushed unflushed : List SsTableRow) (r : Represents p c h e flushed unflushed) where
  pub Represents-with_row :
      (row : SsTableRow)
      → IsRow p.runtime row
      → length (dump_rows unflushed) < 2 ^ 32
      → Represents p c h (with_row e row) flushed (unflushed ++ row ∷ [])
  unfolding put_entry
  Represents-with_row row fits l = record {
    compresses = r.compresses;
    hashes = r.hashes;
    in_memory =
        put_entry-Keeps e.mem_table unflushed row r.in_memory
          (omega (arith, length-dump_rows unflushed));
    rows_fit = All-append (IsRow p.runtime) unflushed (row ∷ []) r.rows_fit (fits, tt);
    log = WriteAheadLog.log r.log row;
    logs = ap (λ w. MemTable.log w row) r.logs ∙ (unfold MemTable.log in refl);
    filter_length = r.filter_length;
    segments = r.segments;
    has_segments = r.has_segments;
    indexes = r.indexes;
    has_indexes = r.has_indexes;
    id_fits = r.id_fits;
    ids_known = r.ids_known;
    on_disk = r.on_disk;
  }

-- The outcome of an action that stores `row`.
pub record Stored (p : Platform) (c : Compressor) (h : Hasher) (e : Engine)
    (flushed unflushed : List SsTableRow) (row : SsTableRow) (result : Outcome (Unit {0}) × Engine)
    : Type 0 where
  pub engine : Engine
  pub succeeds : result ≡ (ok tt, engine)
  pub flushed' : List SsTableRow
  pub unflushed' : List SsTableRow
  pub represents : Represents p c h engine flushed' unflushed'
  pub rows : flushed' ++ unflushed' ≡ (flushed ++ unflushed) ++ row ∷ []
  pub bytes : length (dump_rows unflushed') ≤ length (dump_rows unflushed) + get_row_size row
  pub ids : engine.segment_id ≤ e.segment_id + 1
  pub ids_grow : e.segment_id ≤ engine.segment_id
  -- A snapshot moves all rows to the segments, or there was none.
  pub moved : (flushed' ≡ flushed) ⊎ (unflushed' ≡ [])
  pub files :
      (n : ℕ)
      → n < e.segment_id
      → read_from (segment_name n) engine.disk.segments ≡ read_from (segment_name n) e.disk.segments

module _ (p : Platform) (c : Compressor) (h : Hasher) (e : Engine)
    (flushed unflushed : List SsTableRow) (r : Represents p c h e flushed unflushed) where
  -- A `remove` always stores its row, and never writes a segment.
  pub remove_key-Stored :
      (k : ℕ)
      → IsRow p.runtime (remove_row k)
      → length (dump_rows unflushed) < 2 ^ 32
      → Stored p c h e flushed unflushed (remove_row k) (remove_key k e)
  unfolding remove_key MemTable.remove_key put_entry
  remove_key-Stored k fits l = record {
    engine = with_row e (remove_row k);
    succeeds = refl;
    flushed' = flushed;
    unflushed' = unflushed ++ remove_row k ∷ [];
    represents = Represents-with_row p c h e flushed unflushed r (remove_row k) fits l;
    rows = sym (append_assoc flushed unflushed (remove_row k ∷ []));
    bytes = omega (arith, length-dump_rows_snoc unflushed (remove_row k));
    ids = omega arith;
    ids_grow = omega arith;
    moved = inl refl;
    files = λ n l. refl;
  }

  module _ (k : ℕ) (v w : Bytes) (compressed : c.compress v ≡ ok w) where
    abbrev pub row : SsTableRow
    row = put_row k w (h w)

    pub put_value_lem : put_value p k v e ≡ (
        if leb e.mem_table_limit (put_entry e.mem_table row).memory_size
        then make_snapshot p (with_row e row)
        else (ok tt, with_row e row))
    unfolding put_value MemTable.put_value checksum_of
    put_value_lem = ground (arith, r.compresses, r.hashes, compressed)

    -- A `put` whose value is compressed stores its row, and writes a segment if the table has grown
    -- to its limit.
    pub put_value-Stored :
        IsRow p.runtime row
        → length (dump_rows unflushed) + get_row_size row < 2 ^ 32
        → e.segment_id + 1 < 2 ^ 32
        → Stored p c h e flushed unflushed row (put_value p k v e)
    put_value-Stored fits l ids_left =
        rw put_value_lem (by_limit (leb e.mem_table_limit (put_entry e.mem_table row).memory_size))
      where
        stored : Represents p c h (with_row e row) flushed (unflushed ++ row ∷ [])
        stored = Represents-with_row p c h e flushed unflushed r row fits (omega arith)

        bytes_grow :
            length (dump_rows (unflushed ++ row ∷ []))
            ≡ length (dump_rows unflushed) + get_row_size row
        bytes_grow = length-dump_rows_snoc unflushed row

        by_limit :
            (is_full : Bool)
            → Stored p c h e flushed unflushed row
                (if is_full then make_snapshot p (with_row e row) else (ok tt, with_row e row))
        by_limit false = record {
          engine = with_row e row;
          succeeds = refl;
          flushed' = flushed;
          unflushed' = unflushed ++ row ∷ [];
          represents = stored;
          rows = sym (append_assoc flushed unflushed (row ∷ []));
          bytes = omega (arith, bytes_grow);
          ids = omega arith;
          ids_grow = omega arith;
          moved = inl refl;
          files = λ n l. refl;
        }
        by_limit true =
            let (e', done_at, rep, next) =
              make_snapshot-Represents p c h (with_row e row) flushed (unflushed ++ row ∷ []) stored
                (omega (arith, bytes_grow)) ids_left in
            record {
              engine = e';
              succeeds = done_at;
              flushed' = flushed ++ (unflushed ++ row ∷ []);
              unflushed' = [];
              represents = rep;
              rows = append-nil _ ∙ sym (append_assoc flushed unflushed (row ∷ []));
              bytes = unfold dump_rows in omega arith;
              ids = omega (arith, next);
              ids_grow = omega (arith, next);
              moved = inr refl;
              files = λ n older.
                  ap (λ x. read_from (segment_name n) x.1.disk.segments)
                    (sym done_at
                      ∙ make_snapshot_lem p c h (with_row e row) flushed (unflushed ++ row ∷ [])
                          stored)
                  ∙ read-snapshotted p c h (with_row e row) flushed (unflushed ++ row ∷ []) stored
                      (omega (arith, bytes_grow)) ids_left n older;
            }
