-- ===== src/Tests/Reopenings.antt =====
-- An index file read back, and a database closed and opened again.
use open_x_database.Shared.{◌≡◌, [], ◌∷◌, arith, ok, some, true, refl, ℕ}
use open_x_database.Bytes.{Bytes}
use open_x_database.SsTableIndex.{SsTableIndex, FileSearchHint, lookup, dump, load, new}
use open_x_database.SsTableIndex.Loading.{load-dump_index}
use open_x_database.Options.{default_options}
use open_x_database.Hasher.{no_hash_hash}
use open_x_database.Disk.{Disk, fresh}
use open_x_database.StorageEngine.State.{Engine}
use open_x_database.StorageEngine.Opening.{open_engine, close_engine}
use open_x_database.StorageEngine.Access.{get}
use open_x_database.StorageEngine.Sessions.{put_op, remove_op, run, new_engine, new_disk}
use open_x_database.StorageEngine.Map.{last_put}
use open_x_database.StorageEngine.Persistence.{Traverses}
use open_x_database.StorageEngine.Durability.{get-reopened}
use open_x_database.Shared.{none, ◌<◌}
use open_x_database.History.{steps}
use open_x_database.SsTable.{dump_rows}
use open_x_database.MemTable
use open_x_database.MemTable.{MemTable}
use open_x_database.MemTable.Recovery.{restore-dump_rows}
use open_x_database.Index
use open_x_database.BloomFilter
use open_x_database.Disk.{made}
use open_x_database.StorageEngine.State.{filter_size}
use open_x_database.StorageEngine.Opening.{make_directories, load_index, load_bloom_filter}
use open_x_database.StorageEngine.Reopening.{opens}
use open_x_database.StorageEngine.Losing.{open-close_engine}
use open_x_database.Tests.Tables.{rows-IsRow}
use open_x_database.Tests.Data.{
  platform, options, runtime, rows, put_seven, remove_four, put_seven_again,
}
use open_x_database.Tests.Engines.{ops, ops-IsAdmitted, is_no_hash, ops_small}
use open_x_database.Tests.Openings.{options-IsOptions}

abbrev hint : FileSearchHint
hint = record { offset = 0; size = 40 }

abbrev index : SsTableIndex
index = record { map = (7, hint) ∷ (5, record hint { offset = 40 }) ∷ []; file_id = 3 }

load-dump_index_example :
    (bs : Bytes) × (t' : SsTableIndex) × (dump (λ m. m) true index ≡ ok bs)
    × (load (new 9) (some bs) ≡ ok t')
    × (t'.file_id ≡ 3)
    × ((k : ℕ) → lookup k t'.map ≡ lookup k index.map)
load-dump_index_example =
    load-dump_index (λ m. m) index 9 (7, hint) ((5, record hint { offset = 40 }) ∷ []) (omega arith)
      refl ((omega arith, omega arith, omega arith), ((omega arith, omega arith, omega arith), tt))

traverses : Traverses platform.order
traverses = record { answers = λ m d k. refl; entries = λ m a. a; some_left = λ m h. h }

get-reopened_example :
    (e : Engine) × (e' : Engine) × (d : Disk) × (open_engine platform options fresh
      ≡ (ok (new_engine platform options), new_disk options))
    × (run platform ops (new_engine platform options) ≡ (ok tt, e))
    × (open_engine platform default_options (close_engine e) ≡ (ok e', d))
    × (get platform 7 e' ≡ (ok (last_put 7 ops), e'))
get-reopened_example =
    get-reopened platform options default_options no_hash_hash (put_op 7 (1 ∷ 2 ∷ []))
      (put_op 7 (3 ∷ []) ∷ remove_op 4 ∷ put_op 5 (9 ∷ []) ∷ []) 7 is_no_hash options-IsOptions
      traverses ops-IsAdmitted (omega arith, (omega arith, (omega arith, (omega arith, tt))))
      (tt, (tt, (refl, (tt, tt)))) (omega arith) ops_small (omega arith)

-- A directory whose log has three rows.
abbrev logged : Disk
logged = record (new_disk options) { wal = some (dump_rows rows) }

abbrev restored : MemTable
restored = steps MemTable.restore_row MemTable.empty rows

abbrev opened : Engine
opened = record (new_engine platform options) {
  mem_table = MemTable.set_write_ahead_log restored options.max_wal_buffer_size;
}

logged-opened :
    open_engine platform options logged
    ≡ (ok opened, make_directories (record logged { wal = some [] }))
unfolding load_index load_bloom_filter make_directories made
logged-opened =
    opens platform options options logged (dump_rows rows) restored Index.empty
      (BloomFilter.new filter_size) options-IsOptions refl refl
      (restore-dump_rows runtime put_seven (remove_four ∷ put_seven_again ∷ []) rows-IsRow) refl
      refl

open-close_engine_example :
    ((close_engine opened).wal ≡ some [])
    × (t : MemTable) × (MemTable.restore_from_log runtime MemTable.empty [] ≡ ok t)
    × ((k : ℕ) → 0 < k → MemTable.find k t.map ≡ none)
open-close_engine_example =
    open-close_engine platform options logged (make_directories (record logged { wal = some [] }))
      opened logged-opened tt
