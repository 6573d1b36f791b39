-- ===== src/MemTable/Keys.antt =====
-- The keys of a table in memory and of its snapshot.
use open_x_database.Shared.{ℕ, ◌<◌, ◌^◌, ◌==◌, [], ◌∷◌, arith, All}
use open_x_database.Shared.{inl, inr, Bool-cases}
use open_x_database.SsTableRow.{SsTableRow}
use open_x_database.MemTable.{
  MemTable, InsertKey, Entries, insert, npos, create_sorted_strings_table,
}
use open_x_database.MemTable.Snapshot.{newest, rows-table}

-- Every row's key fits 64 bits.
abbrev pub HasKeys : Entries → Type 0
HasKeys m = All (λ e. e.1.key < 2 ^ 64) m

pub insert-HasKeys :
    (ik : InsertKey) (r : SsTableRow) (m : Entries)
    → r.key < 2 ^ 64
    → HasKeys m
    → HasKeys (insert ik r m)
unfolding insert
insert-HasKeys ik r [] l h = (l, tt)
insert-HasKeys ik r ((jk, q) ∷ m) l h = ground (arith, insert-HasKeys ik r m)

newest-All : (prev : ℕ) (m : Entries) → HasKeys m → All (λ r. r.key < 2 ^ 64) (newest prev m)
unfolding newest
newest-All prev [] h = tt
newest-All prev ((ik, row) ∷ m) h = elim (Bool-cases (prev == ik.key)) [
  | inl same ↦ rw same (newest-All prev m h.1)
  | inr other ↦ rw other (h.0, newest-All ik.key m h.1)
]

pub table-All :
    (t : MemTable) → HasKeys t.map → All (λ r. r.key < 2 ^ 64) (create_sorted_strings_table t).rows
table-All t h = rw (rows-table t) (newest-All npos t.map h)
