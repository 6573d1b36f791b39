-- ===== src/SsTable/Files.antt =====
-- The bytes of a list of rows.
use open_x_database.Shared.{
  ◌+◌, ◌≡◌, ◌≤◌, refl, sym, List, [], ◌∷◌, ◌++◌, arith, length, length-append, append_assoc,
}
use open_x_database.SsTableRow.{SsTableRow, serialize, get_row_size}
use open_x_database.SsTableRow.RoundTrip.{length-serialize}
use open_x_database.SsTable.{dump_rows}

pub dump_rows-append :
    (xs ys : List SsTableRow) → dump_rows (xs ++ ys) ≡ dump_rows xs ++ dump_rows ys
unfolding dump_rows
dump_rows-append [] ys = refl
dump_rows-append (x ∷ xs) ys =
    rw (dump_rows-append xs ys) (sym (append_assoc (serialize x) (dump_rows xs) (dump_rows ys)))

pub length-dump_rows_snoc :
    (xs : List SsTableRow) (r : SsTableRow)
    → length (dump_rows (xs ++ r ∷ [])) ≡ length (dump_rows xs) + get_row_size r
unfolding dump_rows
length-dump_rows_snoc [] r = omega (arith, length-append (serialize r) [], length-serialize r)
length-dump_rows_snoc (x ∷ xs) r = omega (
  arith,
  length-append (serialize x) (dump_rows (xs ++ r ∷ [])),
  length-append (serialize x) (dump_rows xs),
  length-dump_rows_snoc xs r,
)

-- A row has more than one byte.
pub length-dump_rows : (rs : List SsTableRow) → length rs ≤ length (dump_rows rs)
unfolding dump_rows get_row_size
length-dump_rows [] = omega arith
length-dump_rows (r ∷ rs) =
    omega
      (arith, length-append (serialize r) (dump_rows rs), length-serialize r, length-dump_rows rs)
