-- ===== src/MemTable.antt =====
-- src/MemTable.h, src/MemTable.cpp and src/MemTableKey.h: the table in memory. `std::map` is an
-- ordered list, and `find` with a search key stops at the first entry that is not below the key.
pub mod Lookup
pub mod Snapshot
pub mod Recovery
pub mod Keys
use open_x_database.Shared.{
  ℕ, zero, suc, ◌+◌, ◌-◌, ◌%◌, ◌^◌, Bool, true, false, List, [], ◌∷◌, ◌++◌, Option, none, some,
}
use open_x_database.Shared.{ltb, ◌==◌, if◌then◌else◌, length, Outcome, ok, throws, undefined}
use open_x_database.Key.{less_key}
use open_x_database.Bytes.{Bytes}
use open_x_database.Bytes.Stream.{Reader, pure, ◌>>=◌}
use open_x_database.Bytes.Loop.{read_all}
use open_x_database.SsTableRow.{
  SsTableRow, EntryType, UInt128, Runtime, put, remove, unnamed, no_checksum, get_row_size,
  serialize, deserialize_stream,
}
use open_x_database.WriteAheadLog
use open_x_database.WriteAheadLog.{WriteAheadLog}
use open_x_database.SsTable
use open_x_database.SsTable.{SsTable}
use open_x_database.SsTableIndex
use open_x_database.SsTableIndex.{SsTableIndex, file_hint}

pub record InsertKey : Type 0 where
  pub id : ℕ
  pub key : ℕ

-- `InsertKey::Comparator`: by key, and the newest first among equal keys.
unfoldable pub less : InsertKey → InsertKey → Bool
less lhs rhs =
    if less_key lhs.key rhs.key
    then true
    else if less_key rhs.key lhs.key
    then false
    else ltb rhs.id lhs.id

-- An entry against a searched key.
abbrev pub entry_below : InsertKey → ℕ → Bool
entry_below ik k = less_key ik.key k

abbrev pub entry_above : ℕ → InsertKey → Bool
entry_above k ik = less_key k ik.key

abbrev pub Entries : Type 0
Entries = List (InsertKey × SsTableRow)

-- `m_map.insert`, which does nothing if an equivalent key is there.
unfoldable pub insert : InsertKey → SsTableRow → Entries → Entries
unfolding less
insert ik row [] = (ik, row) ∷ []
insert ik row ((jk, r) ∷ m) =
    if less ik jk
    then (ik, row) ∷ (jk, r) ∷ m
    else if less jk ik
    then (jk, r) ∷ insert ik row m
    else (jk, r) ∷ m

-- `m_map.find(SearchKey(key))`: the lower bound of the key, if it is not above the key.
unfoldable pub find : ℕ → Entries → Option SsTableRow
find k [] = none
find k ((jk, r) ∷ m) =
    if entry_below jk k then find k m else if entry_above k jk then none else some r

pub record MemTable : Type 0 where
  pub map : Entries
  pub counter : ℕ
  pub memory_size : ℕ
  pub wal : Option WriteAheadLog

abbrev pub empty : MemTable
empty = record { map = []; counter = 0; memory_size = 0; wal = none }

unfoldable pub log : Option WriteAheadLog → SsTableRow → Option WriteAheadLog
log none row = none
log (some w) row = some (WriteAheadLog.log w row)

-- The private `put`, on the row that it builds.
unfoldable pub put_entry : MemTable → SsTableRow → MemTable
unfolding insert log
put_entry t row = record {
  map = insert (record { id = t.counter; key = row.key }) row t.map;
  counter = (t.counter + 1) % 2 ^ 64;
  memory_size = (t.memory_size + get_row_size row) % 2 ^ 64;
  wal = log t.wal row;
}

unfoldable pub put_value : MemTable → ℕ → Bytes → UInt128 → MemTable
unfolding put_entry
put_value t k v sum = put_entry t (record { key = k; value = v; entry_type = put; checksum = sum })

unfoldable pub remove_key : MemTable → ℕ → MemTable
unfolding put_entry
remove_key t k =
    put_entry t (record { key = k; value = []; entry_type = remove; checksum = no_checksum })

-- What `get` makes of the row that it finds; `none` is its answer `false`.
unfoldable pub live : Option SsTableRow → Option (Bytes × UInt128)
live none = none
live (some row) = elim row.entry_type [ remove ↦ none | _ ↦ some (row.value, row.checksum) ]

unfoldable pub get : MemTable → ℕ → Option (Bytes × UInt128)
unfolding live find
get t k = live (find k t.map)

-- `std::string::npos`, the first value of `prevKeyId` in the three loops below.
abbrev pub npos : ℕ
npos = 2 ^ 64 - 1

-- The loop of `dump`, over the entries left and from the bytes written so far.
unfoldable pub dump_loop : ℕ → Entries → Bytes → Bytes
dump_loop prev_key_id [] os = os
dump_loop prev_key_id ((ik, row) ∷ m) os =
    dump_loop (if prev_key_id == ik.key then prev_key_id else ik.key) m
      (if prev_key_id == ik.key then os else os ++ serialize row)

unfoldable pub dump : MemTable → Bytes
unfolding dump_loop
dump t = dump_loop npos t.map []

unfoldable pub set_write_ahead_log : MemTable → ℕ → MemTable
set_write_ahead_log t buffer_size = record t { wal = some (WriteAheadLog.open_log buffer_size) }

-- What a round of `restoreFromLog` does with the row: it is not logged, and not counted into
-- `memory_size`.
unfoldable pub restore_row : MemTable → SsTableRow → MemTable
unfolding insert
restore_row t row = record t {
  map = insert (record { id = t.counter; key = row.key }) row t.map;
  counter = (t.counter + 1) % 2 ^ 64;
}

unfoldable pub restore_round : Runtime → MemTable → Reader MemTable
restore_round rt t = do row ← deserialize_stream rt; pure (restore_row t row)

unfoldable pub restore_from_log : Runtime → MemTable → Bytes → Outcome MemTable
unfolding restore_round
restore_from_log rt t bs = read_all (restore_round rt) t bs

unfoldable pub table_loop : ℕ → Entries → SsTable → SsTable
table_loop prev_key_id [] table = table
table_loop prev_key_id ((ik, row) ∷ m) table =
    table_loop (if prev_key_id == ik.key then prev_key_id else ik.key) m
      (if prev_key_id == ik.key then table else SsTable.append table row)

unfoldable pub create_sorted_strings_table : MemTable → SsTable
unfolding table_loop
create_sorted_strings_table t = table_loop npos t.map SsTable.empty

-- `offset` is a `size_t` here, and is cut to 32 bits where the hint is made.
unfoldable pub index_loop : ℕ → ℕ → Entries → SsTableIndex → SsTableIndex
index_loop prev_key_id offset [] index = index
index_loop prev_key_id offset ((ik, row) ∷ m) index =
    index_loop (if prev_key_id == ik.key then prev_key_id else ik.key)
      (if prev_key_id == ik.key then offset else (offset + get_row_size row) % 2 ^ 64) m
      (if prev_key_id == ik.key
        then index
        else SsTableIndex.insert index ik.key (file_hint offset (get_row_size row)))

unfoldable pub create_sorted_strings_table_index : MemTable → ℕ → SsTableIndex
unfolding index_loop
create_sorted_strings_table_index t file_id = index_loop npos 0 t.map (SsTableIndex.new file_id)

-- `m_wal->flushAndClear()` is called without a test.
unfoldable pub clear : MemTable → Outcome MemTable
clear t = elim t.wal [
  | none ↦ undefined
  | some w ↦ ok (record {
    map = [];
    counter = 0;
    memory_size = 0;
    wal = some (WriteAheadLog.flush_and_clear w);
  })
]
