-- ===== src/Tests/Tables.antt =====
-- Tables, logs and indexes on concrete rows.
use open_x_database.Shared.{ℕ, ◌≡◌, ◌^◌, ◌<◌, [], ◌∷◌, arith, length, All, ok, some, none, refl}
use open_x_database.SsTableRow.{get_row_size, put_row, no_checksum}
use open_x_database.SsTableRow.RoundTrip.{IsRow}
use open_x_database.SsTable
use open_x_database.SsTable.{dump_rows}
use open_x_database.SsTable.Loading.{load-dump_table}
use open_x_database.SsTableIndex
use open_x_database.SsTableIndex.Lookup.{Leads, get-of_table}
use open_x_database.WriteAheadLog.{WriteAheadLog, contents}
use open_x_database.MemTable
use open_x_database.MemTable.{
  MemTable, empty, put_entry, find, npos, create_sorted_strings_table,
  create_sorted_strings_table_index, restore_from_log,
}
use open_x_database.MemTable.Lookup.{Keeps, Holds-empty, put_entry-Keeps}
use open_x_database.MemTable.Snapshot.{index-eq-table, dump-eq-table, table_of_last_key}
use open_x_database.MemTable.Recovery.{session, restore-session, restore_empty_log, phantom}
use open_x_database.History.{last_row}
use open_x_database.Tests.Data.{runtime, put_seven, remove_four, put_seven_again, rows}

pub rows-IsRow : All (IsRow runtime) rows
unfolding get_row_size
rows-IsRow = (
  record {
    key_fits = omega arith;
    type_named = tt;
    first_fits = omega arith;
    second_fits = omega arith;
    row_granted = omega arith;
    size_fits = omega arith;
  },
  (
    record {
      key_fits = omega arith;
      type_named = tt;
      first_fits = omega arith;
      second_fits = omega arith;
      row_granted = omega arith;
      size_fits = omega arith;
    },
    (
      record {
        key_fits = omega arith;
        type_named = tt;
        first_fits = omega arith;
        second_fits = omega arith;
        row_granted = omega arith;
        size_fits = omega arith;
      },
      tt,
    ),
  ),
)

-- A table with two rows for one key.
abbrev table : MemTable
table = put_entry (put_entry empty put_seven) put_seven_again

one_row-Keeps : Keeps (put_entry empty put_seven) (put_seven ∷ [])
one_row-Keeps = put_entry-Keeps empty [] put_seven Holds-empty (omega arith)

table-Keeps : Keeps table (put_seven ∷ put_seven_again ∷ [])
table-Keeps =
    put_entry-Keeps (put_entry empty put_seven) (put_seven ∷ []) put_seven_again one_row-Keeps
      (omega arith)

put_entry-Keeps_example : Keeps table (put_seven ∷ put_seven_again ∷ [])
put_entry-Keeps_example =
    put_entry-Keeps (put_entry empty put_seven) (put_seven ∷ []) put_seven_again one_row-Keeps
      (omega arith)

index-eq-table_example :
    create_sorted_strings_table_index table 3
    ≡ SsTableIndex.of_table 3 (create_sorted_strings_table table)
index-eq-table_example = index-eq-table table 3 table-Keeps.sorted

dump-eq-table_example : MemTable.dump table ≡ SsTable.dump (create_sorted_strings_table table)
dump-eq-table_example = dump-eq-table table

abbrev last_key : MemTable
last_key = record {
  map = (record { id = 0; key = npos }, put_row npos [] no_checksum) ∷ [];
  counter = 1;
  memory_size = 35;
  wal = none;
}

table_of_last_key_example :
    ((create_sorted_strings_table last_key).rows ≡ [])
    × (find npos last_key.map ≡ some (put_row npos [] no_checksum))
table_of_last_key_example =
    table_of_last_key last_key (record { id = 0; key = npos }) (put_row npos [] no_checksum) refl
      refl

restore-session_example :
    (w : WriteAheadLog) × (t : MemTable) × ((session 16 rows).wal ≡ some w)
    × (restore_from_log runtime empty (contents w) ≡ ok t)
    × ((k : ℕ) → (find k t.map ≡ find k (session 16 rows).map) × (find k t.map ≡ last_row k rows))
restore-session_example =
    restore-session runtime 16 put_seven (remove_four ∷ put_seven_again ∷ []) rows-IsRow
      (omega arith)

restore_empty_log_example :
    (t : MemTable) × (restore_from_log runtime empty [] ≡ ok t)
    × (find 0 t.map ≡ some (phantom runtime.garbage))
    × ((k : ℕ) → 0 < k → find k t.map ≡ none)
restore_empty_log_example = restore_empty_log runtime tt

rows_small : length (dump_rows rows) < 2 ^ 32
unfolding dump_rows get_row_size open_x_database.SsTableRow.serialize open_x_database.Bytes.to_bytes
rows_small = omega arith

get-of_table_example :
    Leads
      (dump_rows rows)
      (SsTableIndex.get (SsTableIndex.of_table 3 (record { rows = rows })) 7)
      (last_row 7 rows)
get-of_table_example = get-of_table 3 7 (record { rows = rows }) rows_small

load-dump_table_example :
    SsTable.load runtime SsTable.empty (SsTable.dump (record { rows = rows }))
    ≡ ok (record { rows = rows })
load-dump_table_example =
    load-dump_table runtime SsTable.empty put_seven (remove_four ∷ put_seven_again ∷ []) rows-IsRow
