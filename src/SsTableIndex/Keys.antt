-- ===== src/SsTableIndex/Keys.antt =====
-- The entries of an index that was built from a table: each key once, with fields that fit, and only
-- keys of the table's rows.
use open_x_database.Shared.{
  ℕ, ◌+◌, ◌%◌, ◌≡◌, ◌≢◌, ◌<◌, ◌^◌, refl, ◌∙◌, List, [], ◌∷◌, none, arith, All,
}
use open_x_database.SsTableRow.{SsTableRow, get_row_size}
use open_x_database.SsTable.{SsTable}
use open_x_database.History.{last_row}
use open_x_database.SsTableIndex.{
  FileSearchHint, Hints, SsTableIndex, lookup, insert_or_assign, insert, fill, of_table, new,
  file_hint,
}
use open_x_database.SsTableIndex.Lookup.{fill-none, lookup-insert_or_assign}
use open_x_database.SsTableIndex.Loading.{IsEntry}

-- No key stands twice.
abbrev pub IsDistinct : Hints → Type 0
IsDistinct [] = Unit {0}
IsDistinct ((k, h) ∷ m) = (lookup k m ≡ none) × IsDistinct m

insert_or_assign-IsDistinct :
    (k : ℕ) (h : FileSearchHint) (m : Hints) → IsDistinct m → IsDistinct (insert_or_assign k h m)
unfolding insert_or_assign lookup
insert_or_assign-IsDistinct k h [] d = (refl, tt)
insert_or_assign-IsDistinct k h ((j, g) ∷ m) d =
    ground (arith, insert_or_assign-IsDistinct k h m, lookup-insert_or_assign k j h m)

insert_or_assign-IsEntry :
    (k : ℕ) (h : FileSearchHint) (m : Hints)
    → IsEntry (k, h)
    → All IsEntry m
    → All IsEntry (insert_or_assign k h m)
unfolding insert_or_assign
insert_or_assign-IsEntry k h [] e a = (e, tt)
insert_or_assign-IsEntry k h ((j, g) ∷ m) e a = ground (arith, insert_or_assign-IsEntry k h m)

insert_or_assign-ne-nil : (k : ℕ) (h : FileSearchHint) (m : Hints) → insert_or_assign k h m ≢ []
unfolding insert_or_assign
insert_or_assign-ne-nil k h [] = λ e. cc
insert_or_assign-ne-nil k h ((j, g) ∷ m) = λ e. ground arith

fill-ne-nil :
    (offset : ℕ) (rs : List SsTableRow) (t : SsTableIndex)
    → t.map ≢ []
    → (fill offset rs t).map ≢ []
unfolding fill insert
fill-ne-nil offset [] t h = h
fill-ne-nil offset (r ∷ rs) t h =
    fill-ne-nil ((offset + get_row_size r) % 2 ^ 32) rs
      (insert t r.key (file_hint offset (get_row_size r)))
      (insert_or_assign-ne-nil r.key (file_hint offset (get_row_size r)) t.map)

file_hint-IsEntry : (k offset size : ℕ) → k < 2 ^ 64 → IsEntry (k, file_hint offset size)
unfolding file_hint
file_hint-IsEntry k offset size h = (h, omega arith, omega arith)

-- What an index has that is built from rows.
pub record IsBuilt (m : Hints) : Type 0 where
  pub distinct : IsDistinct m
  pub entries : All IsEntry m

fill-IsBuilt :
    (offset : ℕ) (rs : List SsTableRow) (t : SsTableIndex)
    → All (λ r. r.key < 2 ^ 64) rs
    → IsBuilt t.map
    → IsBuilt (fill offset rs t).map
unfolding fill insert
fill-IsBuilt offset [] t a h = h
fill-IsBuilt offset (r ∷ rs) t a h =
    let hint = file_hint offset (get_row_size r) in
    fill-IsBuilt ((offset + get_row_size r) % 2 ^ 32) rs (insert t r.key hint) a.1 (record {
      distinct = insert_or_assign-IsDistinct r.key hint t.map h.distinct;
      entries =
          insert_or_assign-IsEntry r.key hint t.map
            (file_hint-IsEntry r.key offset (get_row_size r) a.0) h.entries;
    })

pub of_table-IsBuilt :
    (file_id : ℕ) (table : SsTable)
    → All (λ r. r.key < 2 ^ 64) table.rows
    → IsBuilt (of_table file_id table).map
unfolding of_table new
of_table-IsBuilt file_id table a =
    fill-IsBuilt 0 table.rows (new file_id) a (record { distinct = tt; entries = tt })

pub of_table-ne-nil :
    (file_id : ℕ) (table : SsTable) → table.rows ≢ [] → (of_table file_id table).map ≢ []
unfolding of_table new
of_table-ne-nil file_id table h = filled table.rows h
  where
    filled : (rs : List SsTableRow) → rs ≢ [] → (fill 0 rs (new file_id)).map ≢ []
    filled [] h = absurd (h refl)
    filled (r ∷ rs) h =
        fill-ne-nil ((0 + get_row_size r) % 2 ^ 32) rs
          (insert (new file_id) r.key (file_hint 0 (get_row_size r))) (λ e. cc)

pub lookup-of_table-none :
    (file_id k : ℕ) (table : SsTable)
    → last_row k table.rows ≡ none
    → lookup k (of_table file_id table).map ≡ none
unfolding of_table new
lookup-of_table-none file_id k table e =
    fill-none 0 k table.rows (new file_id) e ∙ (unfold lookup in refl)
