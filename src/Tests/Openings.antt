-- ===== src/Tests/Openings.antt =====
-- A directory that is opened twice.
use open_x_database.Shared.{◌≡◌, ok, arith, refl, [], some, throws, already_indexed}
use open_x_database.Options.{default_options}
use open_x_database.Disk.{fresh, write_file, segment_name}
use open_x_database.StorageEngine.Opening.{settle_options, save_options}
use open_x_database.StorageEngine.Settling.{IsOptions, settle_options-save_options}
use open_x_database.Tests.Data.{options, platform, put_seven}
use open_x_database.Tests.Engines.{engine}
use open_x_database.MemTable
use open_x_database.MemTable.{put_entry}
use open_x_database.WriteAheadLog
use open_x_database.SsTableIndex
use open_x_database.Index
use open_x_database.Index.{push, find_node}
use open_x_database.StorageEngine.State.{Engine}
use open_x_database.StorageEngine.Snapshot.{make_snapshot}
use open_x_database.StorageEngine.Renumbering.{make_snapshot-throws}

pub options-IsOptions : IsOptions options
options-IsOptions = record {
  size_fits = omega arith;
  buffer_fits = omega arith;
  compression_is = tt;
  hash_is = tt;
}

settle_options-save_options_example :
    settle_options default_options (save_options options fresh)
    ≡ (ok options, save_options options fresh)
settle_options-save_options_example =
    settle_options-save_options options default_options fresh options-IsOptions

-- A reopened engine: the index has a table for segment 0, and segment 0 is to be written next.
abbrev reopened : Engine
reopened = record engine { index = push Index.empty (SsTableIndex.new 0) }

make_snapshot-throws_example :
    (e' : Engine) × (make_snapshot platform reopened ≡ (throws already_indexed, e'))
    × (e'.mem_table.map ≡ [])
    × (e'.index ≡ reopened.index)
    × (e'.disk.segments ≡ some (write_file (segment_name 0) (MemTable.dump reopened.mem_table) []))
unfolding put_entry MemTable.log MemTable.set_write_ahead_log push find_node SsTableIndex.new
make_snapshot-throws_example =
    make_snapshot-throws platform reopened
      (WriteAheadLog.log (WriteAheadLog.open_log options.max_wal_buffer_size) put_seven) [] [] 0
      refl refl refl (omega arith) refl
