-- ===== src/SsTable.antt =====
-- src/SSTable.h and src/SSTable.cpp: a list of rows, and its file.
pub mod Files
pub mod Loading
pub mod Merging
use open_x_database.Shared.{ℕ, zero, suc, ◌+◌, Bool, true, false, List, [], ◌∷◌, ◌++◌, length}
use open_x_database.Shared.{not, ◌&&◌, ltb, ◌==◌, if◌then◌else◌, map}
use open_x_database.Shared.{Outcome, ok, throws, undefined, diverges}
use open_x_database.Bytes.{Bytes}
use open_x_database.Bytes.Stream.{Reader, pure, ◌>>=◌}
use open_x_database.Bytes.Loop.{read_all}
use open_x_database.SsTableRow.{SsTableRow, Runtime, serialize, deserialize_stream}

-- `m_rows`. The rows are shared pointers to rows that nothing changes.
pub record SsTable : Type 0 where
  pub rows : List SsTableRow

abbrev pub empty : SsTable
empty = record { rows = [] }

unfoldable pub append : SsTable → SsTableRow → SsTable
append t row = record { rows = t.rows ++ row ∷ [] }

-- The loop of `dump`: each row is serialized and written behind the last.
unfoldable pub dump_rows : List SsTableRow → Bytes
dump_rows [] = []
dump_rows (r ∷ rs) = serialize r ++ dump_rows rs

unfoldable pub dump : SsTable → Bytes
unfolding dump_rows
dump t = dump_rows t.rows

-- A shared pointer to a row. `address` is where the row is.
pub record Pointer : Type 0 where
  pub address : ℕ
  pub row : SsTableRow

unfoldable pub pointers : (ℕ → ℕ) → ℕ → List SsTableRow → List Pointer
pointers address i [] = []
pointers address i (r ∷ rs) = record { address = address i; row = r } ∷ pointers address (i + 1) rs

-- `operator<` of shared pointers compares addresses.
unfoldable pub is_sorted : List Pointer → Bool
is_sorted [] = true
is_sorted (x ∷ []) = true
is_sorted (x ∷ y ∷ xs) = not (ltb y.address x.address) && is_sorted (y ∷ xs)

-- The rounds of `std::merge` up to the one that takes `x`; `rest` has the others.
unfoldable pub merge_until : Pointer → (List Pointer → List Pointer) → List Pointer → List Pointer
merge_until x rest [] = x ∷ rest []
merge_until x rest (y ∷ ys) =
    let later = merge_until x rest ys in
    if ltb y.address x.address then y ∷ later else x ∷ rest (y ∷ ys)

unfoldable pub merge_pointers : List Pointer → List Pointer → List Pointer
unfolding merge_until
merge_pointers [] ys = ys
merge_pointers (x ∷ xs) ys = merge_until x (merge_pointers xs) ys

-- `std::unique` behind the pointer that it kept last.
unfoldable pub unique_behind : Pointer → List Pointer → List Pointer
unique_behind p [] = []
unique_behind p (x ∷ xs) =
    let skipped = unique_behind p xs in
    let kept = x ∷ unique_behind x xs in if p.row.key == x.row.key then skipped else kept

unfoldable pub unique : List Pointer → List Pointer
unfolding unique_behind
unique [] = []
unique (x ∷ xs) = x ∷ unique_behind x xs

-- `address` and `other_address` have the address of the row at each position. `std::merge` has no
-- defined behaviour on a range that is not sorted.
unfoldable pub merge : (ℕ → ℕ) → (ℕ → ℕ) → SsTable → SsTable → Outcome SsTable
unfolding pointers is_sorted merge_pointers unique
merge address other_address t other =
    let xs = pointers address 0 t.rows in
    let ys = pointers other_address 0 other.rows in
    if is_sorted xs && is_sorted ys
    then ok (record { rows = map (λ p. p.row) (unique (merge_pointers xs ys)) })
    else undefined

-- A round of `load`.
unfoldable pub load_row : Runtime → List SsTableRow → Reader (List SsTableRow)
load_row rt rows = do row ← deserialize_stream rt; pure (rows ++ row ∷ [])

-- The rows are in the object, where the loop ends.
abbrev pub loaded : Outcome (List SsTableRow) → Outcome SsTable
loaded (ok rows) = ok (record { rows = rows })
loaded (throws e) = throws e
loaded undefined = undefined
loaded diverges = diverges

unfoldable pub load : Runtime → SsTable → Bytes → Outcome SsTable
unfolding load_row
load rt t bs = loaded (read_all (load_row rt) t.rows bs)
