-- ===== src/Tests/Threads.antt =====
-- A `get` among writes, `get` on an engine with one row, a request that is answered, and a directory that
-- holds a log alone.
use open_x_database.Shared.{
  ◌≡◌, ◌≢◌, ◌++◌, List, [], ◌∷◌, Option, arith, ok, some, refl, Outcome, diverges,
}
use open_x_database.Bytes.{Bytes}
use open_x_database.SsTableRow.{UInt128}
use open_x_database.Hasher.{Hasher, no_hash_hash, create_hasher}
use open_x_database.Compression.{create_compressor}
use open_x_database.MemTable
use open_x_database.MemTable.{live}
use open_x_database.Message.{request, response, delete, ok_status}
use open_x_database.Disk.{Disk, fresh}
use open_x_database.StorageEngine.State.{Engine}
use open_x_database.StorageEngine.Opening.{open_engine}
use open_x_database.StorageEngine.Access.{
  get, find_anywhere, find_in_memory, open_value, checksum_of, same_checksum,
}
use open_x_database.StorageEngine.Sessions.{Op, put_op, remove_op, run, new_engine}
use open_x_database.StorageEngine.Map.{last_put}
use open_x_database.StorageEngine.Threads.{
  Event, look_event, write_event, play, ready, found, finished, writes,
}
use open_x_database.StorageEngine.Linearizing.{play-linearizes}
use open_x_database.StorageEngine.Reading.{get-IsChecked}
use open_x_database.StorageEngine.Responding.{IsProper, handle-IsProper}
use open_x_database.StorageEngine.Halting.{open_engine-ne-diverges}
use open_x_database.Tests.Data.{platform, options}
use open_x_database.Tests.Engines.{engine, is_no_hash, ops-IsAdmitted, ops_small}
use open_x_database.Tests.Connections.{delete_handled}

-- The second put of the key 7 comes behind the first step, and fills the table.
abbrev events : List Event
events =
    look_event
    ∷ write_event (put_op 7 (3 ∷ []))
    ∷ look_event
    ∷ write_event (remove_op 4)
    ∷ look_event
    ∷ write_event (put_op 5 (9 ∷ []))
    ∷ look_event
    ∷ []

play-linearizes_example :
    (e : Engine) × (e' : Engine) × (hit : Outcome (Option (Bytes × UInt128))) × (before : List Op)
    × (after : List Op) × (run platform (put_op 7 (1 ∷ 2 ∷ []) ∷ []) (new_engine platform options)
        ≡ (ok tt, e))
    × (play platform 7 events ready e ≡ (ok tt, (found hit, e')))
    × (writes events ≡ before ++ after)
    × (finished e' hit ≡ ok (last_put 7 (put_op 7 (1 ∷ 2 ∷ []) ∷ before)))
play-linearizes_example =
    play-linearizes platform options no_hash_hash (put_op 7 (1 ∷ 2 ∷ []) ∷ []) events 7 is_no_hash
      ops-IsAdmitted (tt, (tt, (refl, (tt, tt)))) (omega arith) (omega arith) ops_small
      (omega arith)

seven_answered : get platform 7 engine ≡ (ok (some (1 ∷ 2 ∷ [])), engine)
unfolding get find_in_memory find_anywhere open_value checksum_of same_checksum no_hash_hash
    MemTable.get live MemTable.put_entry MemTable.set_write_ahead_log create_hasher
    create_compressor
seven_answered = refl

get-IsChecked_example :
    (engine ≡ engine)
    × (compressed : Bytes) × (sum : UInt128) × (h : Hasher) × (find_anywhere platform 7
          (find_in_memory 7 engine)
          engine
        ≡ (ok (some (compressed, sum)), engine))
    × (engine.hasher ≡ some h)
    × (h compressed ≡ sum)
    × (engine.compressor.uncompress compressed ≡ ok (1 ∷ 2 ∷ []))
get-IsChecked_example = get-IsChecked platform 7 engine engine (1 ∷ 2 ∷ []) seven_answered

handle-IsProper_example : IsProper delete (response ok_status [])
unfolding request
handle-IsProper_example =
    handle-IsProper platform (request delete 4 []) engine _ (response ok_status []) delete_handled

-- A log that ends within a row.
abbrev broken : Disk
broken = record fresh { wal = some (0 ∷ 8 ∷ 1 ∷ []) }

open_engine-ne-diverges_example : (open_engine platform options broken).0 ≢ diverges
open_engine-ne-diverges_example = open_engine-ne-diverges platform options broken
