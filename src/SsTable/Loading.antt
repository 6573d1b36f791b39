-- ===== src/SsTable/Loading.antt =====
-- A table file read back, and the end of the loop that reads it.
use open_x_database.Shared.{
  ℕ, zero, suc, ◌+◌, ◌≡◌, ◌≢◌, ◌<◌, refl, ◌∙◌, List, [], ◌∷◌, ◌++◌, arith, length,
}
use open_x_database.Shared.{Outcome, ok, throws, undefined, diverges, append_assoc, append-nil}
use open_x_database.Shared.{All, sym}
use open_x_database.Bytes.{Bytes}
use open_x_database.Bytes.Stream.{Reader, pure, ◌>>=◌, opened}
use open_x_database.Bytes.Advance.{Advances, GetsOn, Ends, advance_rules, gets_on_rules, ends_rules}
use open_x_database.Bytes.Loop.{
  while_not_eof, read_all, while_end, while_round, read_all-ne-diverges,
}
use open_x_database.SsTableRow.{SsTableRow, Runtime, serialize, deserialize_stream}
use open_x_database.SsTableRow.RoundTrip.{
  IsRow, deserialize_stream-serialize, peek-serialize, peek_end,
}
use open_x_database.SsTableRow.Progress.{
  deserialize_stream-Advances, deserialize_stream-GetsOn, deserialize_stream-Ends,
}
use open_x_database.History.{steps}
use open_x_database.SsTable.Files.{length-dump_rows}
use open_x_database.SsTable.{SsTable, dump_rows, dump, load_row, load, loaded}

-- A loop whose rounds read one row each, on a file of rows: it goes through the rows in order.
module _ {ℓ} {S : Type ℓ} (rt : Runtime) (step : S → SsTableRow → S) where
  abbrev pub row_round : S → Reader S
  row_round st = do row ← deserialize_stream rt; pure (step st row)

  pub row_round-GetsOn : (st : S) → GetsOn (row_round st)
  row_round-GetsOn st = search (gets_on_rules, deserialize_stream-GetsOn)

  pub row_round-Advances : (st : S) → Advances (row_round st)
  row_round-Advances st = search (advance_rules, deserialize_stream-Advances)

  pub row_round-Ends : (st : S) → Ends (row_round st)
  row_round-Ends st = search (ends_rules, deserialize_stream-Ends)

  row_round-serialize :
      (st : S) (r : SsTableRow) (more : Bytes)
      → IsRow rt r
      → row_round st (opened (serialize r ++ more)) ≡ ok (step st r, opened more)
  row_round-serialize st r more h = rw (deserialize_stream-serialize rt r more h)

  while-dump_rows :
      (fuel : ℕ) (st : S) (r : SsTableRow) (rs : List SsTableRow)
      → All (IsRow rt) (r ∷ rs)
      → length rs + 1 < fuel
      → while_not_eof row_round fuel st (opened (dump_rows (r ∷ rs))) ≡ ok (steps step st (r ∷ rs))
  unfolding dump_rows
  while-dump_rows zero st r rs h l = absurd (omega arith)
  while-dump_rows (suc zero) st r rs h l = absurd (omega arith)
  while-dump_rows (suc (suc fuel)) st r [] h l =
      while_round row_round (suc fuel) st (step st r) (opened (serialize r ++ [])) (opened []) refl
        (row_round-serialize st r [] h.0)
      ∙ rw peek_end (while_end row_round fuel (step st r) _ refl)
  while-dump_rows (suc (suc fuel)) st r (q ∷ rs) h l =
      while_round row_round (suc fuel) st (step st r) (opened (serialize r ++ dump_rows (q ∷ rs)))
        (opened (dump_rows (q ∷ rs))) refl (row_round-serialize st r (dump_rows (q ∷ rs)) h.0)
      ∙ rw (peek-serialize q (dump_rows rs))
          (while-dump_rows (suc fuel) (step st r) q rs h.1 (omega arith))

  pub read_all-dump_rows :
      (st : S) (r : SsTableRow) (rs : List SsTableRow)
      → All (IsRow rt) (r ∷ rs)
      → read_all row_round st (dump_rows (r ∷ rs)) ≡ ok (steps step st (r ∷ rs))
  unfolding read_all
  read_all-dump_rows st r rs h =
      while-dump_rows (length (dump_rows (r ∷ rs)) + 2) st r rs h
        (omega (arith, length-dump_rows (r ∷ rs)))

steps-append :
    (before rows : List SsTableRow) → steps (λ rs r. rs ++ r ∷ []) before rows ≡ before ++ rows
steps-append before [] = sym (append-nil before)
steps-append before (r ∷ rs) = steps-append (before ++ r ∷ []) rs ∙ append_assoc before (r ∷ []) rs

-- A table with at least one row, whose rows fit their fields, is read back as it was written,
-- behind the rows that are there.
pub load-dump_table :
    (rt : Runtime) (old : SsTable) (r : SsTableRow) (rs : List SsTableRow)
    → All (IsRow rt) (r ∷ rs)
    → load rt old (dump (record { rows = r ∷ rs })) ≡ ok (record { rows = old.rows ++ r ∷ rs })
unfolding load dump load_row
load-dump_table rt old r rs h = rw (
  read_all-dump_rows rt (λ rows row. rows ++ row ∷ []) old.rows r rs h,
  steps-append old.rows (r ∷ rs),
)

loaded-ne-diverges : (o : Outcome (List SsTableRow)) → o ≢ diverges → loaded o ≢ diverges
loaded-ne-diverges (ok rows) h = λ e. cc
loaded-ne-diverges (throws x) h = λ e. cc
loaded-ne-diverges undefined h = λ e. cc
loaded-ne-diverges diverges h = absurd (h refl)

-- On any file and any table the loop of `SSTable::load` ends: the fuel is never used up.
pub load-ne-diverges : (rt : Runtime) (t : SsTable) (bs : Bytes) → load rt t bs ≢ diverges
unfolding load load_row
load-ne-diverges rt t bs = loaded-ne-diverges _ (
    read_all-ne-diverges (row_round rt append_row) (row_round-GetsOn rt append_row)
      (row_round-Advances rt append_row) (row_round-Ends rt append_row) t.rows bs)
  where
    append_row : List SsTableRow → SsTableRow → List SsTableRow
    append_row rows row = rows ++ row ∷ []
