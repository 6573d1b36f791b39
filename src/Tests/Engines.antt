-- ===== src/Tests/Engines.antt =====
-- An engine on concrete puts, removes and requests.
use open_x_database.Shared.{
  ◌≡◌, ◌≢◌, ◌<◌, ◌^◌, ◌+◌, List, [], ◌∷◌, ◌++◌, arith, length, All, ok, some, refl, throws,
  data_corrupted,
}
use open_x_database.Bytes.{Bytes}
use open_x_database.SsTableRow.{put_row, get_row_size}
use open_x_database.SsTableRow
use open_x_database.Bytes
use open_x_database.SsTable.{dump_rows}
use open_x_database.MemTable.{live}
use open_x_database.History.{last_row, or_else}
use open_x_database.Hasher.{no_hash_hash, create_hasher}
use open_x_database.Compression.{create_compressor, no_compressor}
use open_x_database.Message
use open_x_database.Message.{request, response}
use open_x_database.Disk.{fresh}
use open_x_database.StorageEngine.State.{Engine}
use open_x_database.StorageEngine.Opening.{open_engine}
use open_x_database.StorageEngine.Access.{
  get, handle, remove_key, open_value, checksum_of, same_checksum,
}
use open_x_database.StorageEngine.Snapshot.{make_snapshot}
use open_x_database.StorageEngine.Snapshots.{make_snapshot-Represents}
use open_x_database.StorageEngine.Invariant.{Represents}
use open_x_database.StorageEngine.Operations.{with_row, Represents-with_row}
use open_x_database.StorageEngine.Answers.{get_lem}
use open_x_database.StorageEngine.Sessions.{
  Op, put_op, remove_op, run, rows_of, stored, IsAdmitted, new_engine, new_disk,
  new_engine-Represents, run-Represents,
}
use open_x_database.StorageEngine.Map.{last_put, get-run, get-remove_key}
use open_x_database.StorageEngine.Handling.{handle-ne-throws, handle-put-get}
use open_x_database.Tests.Data.{platform, options, put_seven}

-- The second put fills the table, and the third comes behind the snapshot.
abbrev pub ops : List Op
ops = put_op 7 (1 ∷ 2 ∷ []) ∷ put_op 7 (3 ∷ []) ∷ remove_op 4 ∷ put_op 5 (9 ∷ []) ∷ []

pub ops-IsAdmitted :
    All
      (IsAdmitted platform
        (create_compressor platform.codecs platform.runtime.max_size options.compression_type)
        no_hash_hash)
      ops
unfolding create_compressor stored no_hash_hash get_row_size
ops-IsAdmitted = (
  (
    refl,
    refl,
    (record {
      key_fits = omega arith;
      type_named = tt;
      first_fits = omega arith;
      second_fits = omega arith;
      row_granted = omega arith;
      size_fits = omega arith;
    }),
  ),
  (
    (
      refl,
      refl,
      (record {
        key_fits = omega arith;
        type_named = tt;
        first_fits = omega arith;
        second_fits = omega arith;
        row_granted = omega arith;
        size_fits = omega arith;
      }),
    ),
    (
      (record {
        key_fits = omega arith;
        type_named = tt;
        first_fits = omega arith;
        second_fits = omega arith;
        row_granted = omega arith;
        size_fits = omega arith;
      }),
      (
        (
          refl,
          refl,
          (record {
            key_fits = omega arith;
            type_named = tt;
            first_fits = omega arith;
            second_fits = omega arith;
            row_granted = omega arith;
            size_fits = omega arith;
          }),
        ),
        tt,
      ),
    ),
  ),
)

pub is_no_hash : create_hasher platform.hashes options.hash_type ≡ some no_hash_hash
unfolding create_hasher
is_no_hash = refl

pub ops_small :
    length (
      dump_rows (
        rows_of
          (create_compressor platform.codecs platform.runtime.max_size options.compression_type)
          no_hash_hash
          ops))
    < 2 ^ 32
unfolding create_compressor stored no_hash_hash dump_rows SsTableRow.serialize Bytes.to_bytes
ops_small = omega arith

get-run_example :
    (e' : Engine) × (open_engine platform options fresh
      ≡ (ok (new_engine platform options), new_disk options))
    × (run platform ops (new_engine platform options) ≡ (ok tt, e'))
    × (get platform 7 e' ≡ (ok (last_put 7 ops), e'))
get-run_example =
    get-run platform options no_hash_hash ops 7 is_no_hash ops-IsAdmitted
      (tt, (tt, (refl, (tt, tt)))) (omega arith) ops_small (omega arith)

-- What is read back above.
last_put_run : last_put 7 ops ≡ some (3 ∷ [])
unfolding last_put
last_put_run = refl

fresh_engine : Represents platform no_compressor no_hash_hash (new_engine platform options) [] []
unfolding create_compressor
fresh_engine = new_engine-Represents platform options no_hash_hash is_no_hash

run-Represents_example :
    (e' : Engine) × (flushed' : List SsTableRow.SsTableRow) × (unflushed' : List
      SsTableRow.SsTableRow)
    × (run platform ops (new_engine platform options) ≡ (ok tt, e'))
    × Represents platform no_compressor no_hash_hash e' flushed' unflushed'
    × (flushed' ++ unflushed' ≡ ([] ++ []) ++ rows_of no_compressor no_hash_hash ops)
unfolding create_compressor SsTableRow.serialize Bytes.to_bytes stored
run-Represents_example =
    run-Represents platform no_compressor no_hash_hash ops (new_engine platform options) [] []
      fresh_engine ops-IsAdmitted (unfold dump_rows in ops_small) (omega arith)

-- One row in memory.
abbrev pub engine : Engine
engine = with_row (new_engine platform options) put_seven

pub engine-Represents : Represents platform no_compressor no_hash_hash engine [] (put_seven ∷ [])
unfolding dump_rows get_row_size
engine-Represents =
    Represents-with_row platform no_compressor no_hash_hash (new_engine platform options) [] []
      fresh_engine put_seven
      (record {
        key_fits = omega arith;
        type_named = tt;
        first_fits = omega arith;
        second_fits = omega arith;
        row_granted = omega arith;
        size_fits = omega arith;
      })
      (omega arith)

row_small : length (dump_rows (put_seven ∷ [])) < 2 ^ 32
unfolding dump_rows SsTableRow.serialize Bytes.to_bytes
row_small = omega arith

make_snapshot-Represents_example :
    (e' : Engine) × (make_snapshot platform engine ≡ (ok tt, e'))
    × Represents platform no_compressor no_hash_hash e' ([] ++ put_seven ∷ []) []
    × (e'.segment_id ≡ engine.segment_id + 1)
make_snapshot-Represents_example =
    make_snapshot-Represents platform no_compressor no_hash_hash engine [] (put_seven ∷ [])
      engine-Represents row_small (omega arith)

get_lem_example : get platform 7 engine ≡ (
  open_value engine (or_else (live (last_row 7 (put_seven ∷ []))) (live (last_row 7 []))),
  engine,
)
get_lem_example =
    get_lem platform no_compressor no_hash_hash engine [] (put_seven ∷ []) engine-Represents 7
      (omega arith)

-- The row of key 7 is in a segment.
abbrev flushed_engine : Engine
flushed_engine =
    (make_snapshot-Represents platform no_compressor no_hash_hash engine [] (put_seven ∷ [])
      engine-Represents row_small (omega arith)).0

flushed_engine-Represents :
    Represents platform no_compressor no_hash_hash flushed_engine (put_seven ∷ []) []
flushed_engine-Represents =
    (make_snapshot-Represents platform no_compressor no_hash_hash engine [] (put_seven ∷ [])
      engine-Represents row_small (omega arith)).2

get-remove_key_example :
    (e' : Engine) × (remove_key 7 flushed_engine ≡ (ok tt, e'))
    × (get platform 7 e' ≡ (open_value flushed_engine (live (last_row 7 (put_seven ∷ []))), e'))
unfolding dump_rows get_row_size
get-remove_key_example =
    get-remove_key platform no_compressor no_hash_hash flushed_engine (put_seven ∷ []) []
      flushed_engine-Represents 7 (omega arith)
      (record {
        key_fits = omega arith;
        type_named = tt;
        first_fits = omega arith;
        second_fits = omega arith;
        row_granted = omega arith;
        size_fits = omega arith;
      })
      (omega arith)

-- The removed key has its value again.
removed_key_returns :
    open_value flushed_engine (live (last_row 7 (put_seven ∷ []))) ≡ ok (some (1 ∷ 2 ∷ []))
unfolding open_value live last_row checksum_of same_checksum no_hash_hash
removed_key_returns =
    ground (arith, flushed_engine-Represents.hashes, flushed_engine-Represents.compresses)

handle-ne-throws_example :
    (handle platform (request Message.get 7 []) engine).0 ≢ throws data_corrupted
handle-ne-throws_example =
    handle-ne-throws platform (request Message.get 7 []) engine data_corrupted

pub put_small :
    length (dump_rows (put_seven ∷ [])) + get_row_size (put_row 9 (8 ∷ []) (no_hash_hash (8 ∷ [])))
    < 2 ^ 32
unfolding dump_rows SsTableRow.serialize Bytes.to_bytes get_row_size
put_small = omega arith

handle-put-get_example :
    (e' : Engine) × (handle platform (request Message.put 9 (8 ∷ [])) engine
      ≡ (ok (response Message.ok_status []), e'))
    × (handle platform (request Message.get 9 []) e'
        ≡ (ok (response Message.ok_status (8 ∷ [])), e'))
handle-put-get_example =
    handle-put-get platform no_compressor no_hash_hash engine [] (put_seven ∷ []) engine-Represents
      9 (8 ∷ []) (8 ∷ []) [] refl refl
      (unfold get_row_size no_hash_hash in
        (record {
          key_fits = omega arith;
          type_named = tt;
          first_fits = omega arith;
          second_fits = omega arith;
          row_granted = omega arith;
          size_fits = omega arith;
        }))
      (omega arith) put_small (omega arith)
