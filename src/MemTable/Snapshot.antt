-- ===== src/MemTable/Snapshot.antt =====
-- What a snapshot keeps of the entries: the newest row of each key, in the order of the keys.
use open_x_database.Shared.{ℕ, ◌+◌, ◌%◌, ◌^◌, ◌≡◌, ◌≤◌, ◌<◌, refl, sym, ◌∙◌, List, [], ◌∷◌, ◌++◌}
use open_x_database.Shared.{none, some, arith, ◌==◌, if◌then◌else◌, append_assoc, append-nil}
use open_x_database.Shared.{inl, inr, Bool-cases}
use open_x_database.Bytes.{Bytes}
use open_x_database.SsTableRow.{SsTableRow, serialize, get_row_size}
use open_x_database.SsTable
use open_x_database.SsTable.{SsTable, dump_rows}
use open_x_database.SsTableIndex
use open_x_database.SsTableIndex.{SsTableIndex, fill, file_hint}
use open_x_database.History.{last_row}
use open_x_database.MemTable.{
  MemTable, InsertKey, Entries, find, npos, dump_loop, table_loop, index_loop, dump,
  create_sorted_strings_table, create_sorted_strings_table_index,
}
use open_x_database.MemTable.Lookup.{IsSortedFrom, weight, Keeps}
use open_x_database.SsTableRow.RoundTrip.{length-serialize}
use open_x_database.Shared.{length, length-append}

-- The rows that the three loops take, from the key before them on.
unfoldable pub newest : ℕ → Entries → List SsTableRow
newest prev [] = []
newest prev ((ik, row) ∷ m) =
    let skipped = newest prev m in
    let taken = row ∷ newest ik.key m in if prev == ik.key then skipped else taken

rows-table_loop :
    (prev : ℕ) (m : Entries) (t : SsTable) → (table_loop prev m t).rows ≡ t.rows ++ newest prev m
unfolding table_loop newest SsTable.append
rows-table_loop prev [] t = sym (append-nil t.rows)
rows-table_loop prev ((ik, row) ∷ m) t = ground (
  arith,
  rows-table_loop prev m t,
  rows-table_loop ik.key m (SsTable.append t row),
  append_assoc t.rows (row ∷ []) (newest ik.key m),
)

dump_loop-newest :
    (prev : ℕ) (m : Entries) (os : Bytes) → dump_loop prev m os ≡ os ++ dump_rows (newest prev m)
unfolding dump_loop newest dump_rows
dump_loop-newest prev [] os = sym (append-nil os)
dump_loop-newest prev ((ik, row) ∷ m) os = ground (
  arith,
  dump_loop-newest prev m os,
  dump_loop-newest ik.key m (os ++ serialize row),
  append_assoc os (serialize row) (dump_rows (newest ik.key m)),
)

file_hint-mod : (offset size : ℕ) → file_hint (offset % 2 ^ 32) size ≡ file_hint offset size
unfolding file_hint
file_hint-mod offset size = ground arith

index_loop-fill :
    (lo prev offset : ℕ) (m : Entries) (t : SsTableIndex)
    → IsSortedFrom lo m
    → index_loop prev offset m t ≡ fill (offset % 2 ^ 32) (newest prev m) t
unfolding index_loop newest fill get_row_size
index_loop-fill lo prev offset [] t h = refl
index_loop-fill lo prev offset ((ik, row) ∷ m) t h = elim (Bool-cases (prev == ik.key)) [
  | inl same ↦ rw same (index_loop-fill ik.key prev offset m t h.2)
  | inr other ↦
      let size = get_row_size row in
      let wraps : (offset % 2 ^ 32 + size) % 2 ^ 32 ≡ (offset + size) % 2 ^ 64 % 2 ^ 32 =
        omega arith in
      rw (other, h.1, wraps, file_hint-mod offset size)
        (index_loop-fill ik.key ik.key ((offset + size) % 2 ^ 64) m
          (SsTableIndex.insert t ik.key (file_hint offset size)) h.2)
]

find_below : (k lo : ℕ) (m : Entries) → k < lo → IsSortedFrom lo m → find k m ≡ none
unfolding find
find_below k lo [] l h = refl
find_below k lo ((ik, row) ∷ m) l h = ground arith

-- A key that the loop has passed is gone; any other has the row that the map finds.
last_row-newest :
    (k prev : ℕ) (m : Entries)
    → IsSortedFrom prev m
    → last_row k (newest prev m) ≡ (if prev == k then none else find k m)
unfolding newest last_row find
last_row-newest k prev [] h = ground arith
last_row-newest k prev ((ik, row) ∷ m) h = ground (
  arith,
  last_row-newest k prev m,
  last_row-newest k ik.key m,
  find_below k prev m,
  find_below k ik.key m,
)

-- Before the first entry `prev` is `npos`, which is above every other key.
last_row-newest-npos :
    (k : ℕ) (m : Entries) → IsSortedFrom 0 m → k < npos → last_row k (newest npos m) ≡ find k m
unfolding newest last_row find
last_row-newest-npos k [] h l = refl
last_row-newest-npos k ((ik, row) ∷ m) h l =
    ground (arith, last_row-newest k npos m, last_row-newest k ik.key m, find_below k ik.key m)

length-newest : (prev : ℕ) (m : Entries) → length (dump_rows (newest prev m)) ≤ weight m
unfolding newest dump_rows weight
length-newest prev [] = omega arith
length-newest prev ((ik, row) ∷ m) = ground (
  arith,
  length-newest prev m,
  length-newest ik.key m,
  length-append (serialize row) (dump_rows (newest ik.key m)),
  length-serialize row,
)

module _ (t : MemTable) where
  pub rows-table : (create_sorted_strings_table t).rows ≡ newest npos t.map
  unfolding create_sorted_strings_table
  rows-table = rows-table_loop npos t.map SsTable.empty

  -- The snapshot is no larger than all the rows that were put.
  pub length-table :
      (rows : List SsTableRow)
      → Keeps t rows
      → length (dump_rows (create_sorted_strings_table t).rows) ≤ length (dump_rows rows)
  length-table rows h = rw rows-table (omega (arith, h.weighed, length-newest npos t.map))

  -- The bytes that `dump` writes are those that the table of `createSortedStringsTable` writes.
  pub dump-eq-table : dump t ≡ SsTable.dump (create_sorted_strings_table t)
  unfolding dump SsTable.dump
  dump-eq-table = dump_loop-newest npos t.map [] ∙ rw rows-table

  -- In a sorted table whose rows stand under their own keys, the index that is built beside the
  -- entries, with a 64-bit offset, is the one that is built from the table, with a 32-bit offset.
  pub index-eq-table :
      (file_id : ℕ)
      → IsSortedFrom 0 t.map
      → create_sorted_strings_table_index t file_id
        ≡ SsTableIndex.of_table file_id (create_sorted_strings_table t)
  unfolding create_sorted_strings_table_index SsTableIndex.of_table
  index-eq-table file_id h =
      rw rows-table (index_loop-fill 0 npos 0 t.map (SsTableIndex.new file_id) h)

  -- In a sorted table, a key below 2^64 - 1 has the same row in the snapshot as in memory.
  pub last_row-table :
      (k : ℕ)
      → IsSortedFrom 0 t.map
      → k < npos
      → last_row k (create_sorted_strings_table t).rows ≡ find k t.map
  last_row-table k h l = rw rows-table (last_row-newest-npos k t.map h l)

-- Where the key 2^64 - 1, the first value of `prevKeyId`, has the only entry, the table finds its
-- row but the snapshot is empty.
pub table_of_last_key :
    (t : MemTable) (ik : InsertKey) (row : SsTableRow)
    → ik.key ≡ npos
    → t.map ≡ (ik, row) ∷ []
    → ((create_sorted_strings_table t).rows ≡ []) × (find npos t.map ≡ some row)
table_of_last_key t ik row h e =
    (rw (rows-table, e) (unfold newest in ground arith), rw e (unfold find in ground arith))
