-- ===== src/Program/Example/Asserting.antt =====
-- The assertions of the example.
use open_x_database.Shared.{
  ℕ, ◌*◌, ◌≡◌, ◌<◌, ◌^◌, refl, ◌∙◌, ap, Bool, true, false, List, [], ◌∷◌, Option, none, some, arith,
  length, ok, leb, if◌then◌else◌,
}
use open_x_database.Bytes.{Bytes}
use open_x_database.Action.{after}
use open_x_database.SsTableRow.{SsTableRow, UInt128, put_row, remove_row, get_row_size}
use open_x_database.SsTableRow.RoundTrip.{IsRow}
use open_x_database.SsTable.{dump_rows}
use open_x_database.SsTable.Files.{length-dump_rows_snoc}
use open_x_database.MemTable
use open_x_database.MemTable.{npos, live, put_entry}
use open_x_database.Compression.{Compressor, create_compressor, lz4_compress, lz4_uncompress}
use open_x_database.Hasher.{Hasher, create_hasher, city_hash_hash}
use open_x_database.Options.{Options}
use open_x_database.Disk.{fresh}
use open_x_database.History.{or_else, last_row}
use open_x_database.StorageEngine.State.{Platform, Engine}
use open_x_database.StorageEngine.Access.{open_value, get, put_value}
use open_x_database.StorageEngine.Snapshot.{make_snapshot}
use open_x_database.StorageEngine.Snapshots.{make_snapshot-Represents}
use open_x_database.StorageEngine.Invariant.{Represents}
use open_x_database.StorageEngine.Operations.{with_row, Represents-with_row, put_value_lem}
use open_x_database.StorageEngine.Sessions.{new_engine, new_engine-Represents, open_engine-fresh}
use open_x_database.StorageEngine.Answers.{get_lem}
use open_x_database.StorageEngine.Handling.{open_value-stored}
use open_x_database.StorageEngine.Map.{get-remove_key}
use open_x_database.Database
use open_x_database.Database.{Database}
use open_x_database.Program.{returned, aborted}
use open_x_database.Program.Example.{
  print_values, assert_removed, assert_found, put_and_remove, with_database, main_example, options,
  example_input,
}

module _ (p : Platform) (c : Compressor) (h : Hasher) (k : ℕ) (v w : Bytes)
    (restored : c.uncompress w ≡ ok v) (fits' : IsRow p.runtime (remove_row k))
    (below : k < npos) where
  -- The assertions, where the key's value is found and `last` is what the segments have.
  assertions :
      (e : Engine) (flushed unflushed : List SsTableRow)
      → Represents p c h e flushed unflushed
      → or_else (live (last_row k unflushed)) (live (last_row k flushed)) ≡ some (w, h w)
      → (last : Option Bytes) → open_value e (live (last_row k flushed)) ≡ ok last
      → length (dump_rows unflushed) < 2 ^ 32
      → (after (assert_found p k v) (Database.get p k e)).0
        ≡ ok (assert_removed (print_values v v) last)
  unfolding assert_found Database.get Database.remove
  assertions e flushed unflushed r hit last opens bytes =
      let found : get p k e ≡ (ok (some v), e) =
        get_lem p c h e flushed unflushed r k below
        ∙ ap (λ x. (open_value e x, e)) hit
        ∙ ap (λ x. (x, e))
            (open_value-stored p c h e flushed unflushed r k v w e r.compresses r.hashes
              restored) in
      let (e', removes, gets) = get-remove_key p c h e flushed unflushed r k below fits' bytes in
      rw (found, removes, gets, opens) refl

-- What the segments have of a key, when its put row is the only row.
live-put_row :
    (k : ℕ) (w : Bytes) (sum : UInt128) → live (last_row k (put_row k w sum ∷ [])) ≡ some (w, sum)
unfolding live last_row
live-put_row k w sum = ground arith

module _ (p : Platform) (o : Options) (h : Hasher) (k : ℕ) (v w : Bytes) where
  abbrev compressor : Compressor
  compressor = create_compressor p.codecs p.runtime.max_size o.compression_type

  abbrev row : SsTableRow
  row = put_row k w (h w)

  abbrev filled : Engine
  filled = with_row (new_engine p o) row

  module _ (hasher : create_hasher p.hashes o.hash_type ≡ some h)
      (compressed : compressor.compress v ≡ ok w) (restored : compressor.uncompress w ≡ ok v)
      (fits : IsRow p.runtime row) (fits' : IsRow p.runtime (remove_row k)) (below : k < npos)
      (small : get_row_size row < 2 ^ 32) where
    filled-Represents : Represents p compressor h filled [] (row ∷ [])
    filled-Represents =
        Represents-with_row p compressor h (new_engine p o) [] []
          (new_engine-Represents p o h hasher) row fits (unfold dump_rows in omega arith)

    row_small : length (dump_rows (row ∷ [])) < 2 ^ 32
    row_small =
        let no_bytes : length (dump_rows []) ≡ 0 = unfold dump_rows in refl in
        omega (arith, small, no_bytes, length-dump_rows_snoc [] row)

    memory_size-filled : (put_entry (new_engine p o).mem_table row).memory_size ≡ get_row_size row
    unfolding put_entry MemTable.set_write_ahead_log
    memory_size-filled = omega (arith, small)

    put_first : put_value p k v (new_engine p o) ≡ (
        if leb o.max_mem_table_size (get_row_size row)
        then make_snapshot p filled
        else (ok tt, filled))
    put_first =
        put_value_lem p compressor h (new_engine p o) [] [] (new_engine-Represents p o h hasher) k v
          w compressed
        ∙ ap (λ n. if leb o.max_mem_table_size n then make_snapshot p filled else (ok tt, filled))
            memory_size-filled

    by_limit :
        (is_full : Bool)
        → (after
            (λ u s. after (assert_found p k v) (Database.get p k s))
            (if is_full then make_snapshot p filled else (ok tt, filled))).0
          ≡ ok (if is_full then aborted else returned 0 (print_values v v))
    unfolding assert_removed or_else
    by_limit false =
        assertions p compressor h k v w restored fits' below filled [] (row ∷ []) filled-Represents
          (ap (λ x. or_else x (live (last_row k []))) (live-put_row k w (h w))) none nothing_flushed
          row_small
      where
        nothing_flushed : open_value filled (live (last_row k [])) ≡ ok none
        nothing_flushed = unfold open_value live last_row in refl
    by_limit true =
        let (e', snapshot, rep, next) =
          make_snapshot-Represents p compressor h filled [] (row ∷ []) filled-Represents row_small
            (omega arith) in
        let on_disk = live-put_row k w (h w) in
        let nothing : live (last_row k []) ≡ none = unfold live last_row in refl in
        rw snapshot (
          assertions p compressor h k v w restored fits' below e' (row ∷ []) [] rep
            (ap (λ x. or_else x (live (last_row k (row ∷ [])))) nothing ∙ on_disk) (some v)
            (ap (open_value e') on_disk
              ∙ open_value-stored p compressor h e' (row ∷ []) [] rep k v w e' rep.compresses
                  rep.hashes restored)
            (unfold dump_rows in omega arith))

    -- On a new directory, with a hash function that exists, a value that the compressor takes and gives
    -- back, and rows that fit their fields: the example's calls succeed and print the value twice, if the
    -- value's row is smaller than the limit of the table; and if it is not, the value is found after
    -- it was removed, so that the second assertion fails.
    pub with_database-open_at :
        with_database p k v (Database.open_at p o fresh)
        ≡ ok (
            if leb o.max_mem_table_size (get_row_size row)
            then aborted
            else returned 0 (print_values v v))
    unfolding with_database put_and_remove Database.open_at Database.put
    with_database-open_at =
        ap (with_database p k v) (open_engine-fresh p o)
        ∙ ap (λ x. (after (λ u s. after (assert_found p k v) (Database.get p k s)) x).0) put_first
        ∙ by_limit (leb o.max_mem_table_size (get_row_size row))

-- The program itself, whose table has room for 1 MiB, where LZ4 codes its value as it documents, and
-- the values of CityHash are of 128 bits.
module _ (p : Platform) (w : Bytes)
    (compressed : lz4_compress p.codecs p.runtime.max_size example_input ≡ ok w)
    (restored : lz4_uncompress p.codecs p.runtime.max_size w ≡ ok example_input)
    (fits : IsRow p.runtime (put_row 1234 w (city_hash_hash p.hashes w)))
    (fits' : IsRow p.runtime (remove_row 1234))
    (small : get_row_size (put_row 1234 w (city_hash_hash p.hashes w)) < 1024 * 1024) where
  pub main_example-fresh :
      main_example p fresh ≡ ok (returned 0 (print_values example_input example_input))
  unfolding main_example create_hasher create_compressor
  main_example-fresh =
      with_database-open_at p options (city_hash_hash p.hashes) 1234 example_input w refl compressed
        restored fits fits' (omega arith) (omega (arith, small))
      ∙ ground (arith, small)
