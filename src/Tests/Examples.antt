-- ===== src/Tests/Examples.antt =====
-- The example's calls, on a table that has room for the value's row.
use open_x_database.Shared.{◌≡◌, [], ◌∷◌, arith, ok, refl}
use open_x_database.SsTableRow.{put_row, remove_row, get_row_size}
use open_x_database.SsTableRow.RoundTrip.{IsRow}
use open_x_database.Compression.{create_compressor}
use open_x_database.Hasher.{no_hash_hash}
use open_x_database.Disk.{fresh}
use open_x_database.Database
use open_x_database.Program.{returned}
use open_x_database.Program.Example.{print_values, with_database}
use open_x_database.Program.Example.Asserting.{with_database-open_at}
use open_x_database.Tests.Data.{platform, options}
use open_x_database.Tests.Engines.{is_no_hash}

put_row-IsRow : IsRow platform.runtime (put_row 7 (1 ∷ 2 ∷ []) (no_hash_hash (1 ∷ 2 ∷ [])))
unfolding get_row_size no_hash_hash
put_row-IsRow = record {
  key_fits = omega arith;
  type_named = tt;
  first_fits = omega arith;
  second_fits = omega arith;
  row_granted = omega arith;
  size_fits = omega arith;
}

remove_row-IsRow : IsRow platform.runtime (remove_row 7)
unfolding get_row_size
remove_row-IsRow = record {
  key_fits = omega arith;
  type_named = tt;
  first_fits = omega arith;
  second_fits = omega arith;
  row_granted = omega arith;
  size_fits = omega arith;
}

with_database-open_at_example :
    with_database platform 7 (1 ∷ 2 ∷ []) (Database.open_at platform options fresh)
    ≡ ok (returned 0 (print_values (1 ∷ 2 ∷ []) (1 ∷ 2 ∷ [])))
unfolding create_compressor get_row_size
with_database-open_at_example =
    with_database-open_at platform options no_hash_hash 7 (1 ∷ 2 ∷ []) (1 ∷ 2 ∷ []) is_no_hash refl
      refl put_row-IsRow remove_row-IsRow (omega arith) (omega arith)
