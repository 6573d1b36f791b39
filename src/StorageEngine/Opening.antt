-- ===== src/StorageEngine/Opening.antt =====
-- `StorageEngine::open`, `saveOptions` and `loadOptions` of src/StorageEngine.cpp.
use open_x_database.Shared.{ℕ, [], ◌∷◌, ◌++◌, none, some}
use open_x_database.Shared.{Outcome, ok, throws, undefined, diverges}
use open_x_database.Bytes.{Bytes, to_bytes}
use open_x_database.Bytes.Stream
use open_x_database.Bytes.Stream.{Reader, opened, result, read_uint}
use open_x_database.MemTable
use open_x_database.MemTable.{MemTable}
use open_x_database.WriteAheadLog
use open_x_database.Index
use open_x_database.Index.{Index}
use open_x_database.BloomFilter
use open_x_database.BloomFilter.{Bits}
use open_x_database.Hasher.{create_hasher}
use open_x_database.Compression.{create_compressor}
use open_x_database.Options.{Options, compression_code, compression_of, hash_code, hash_of}
use open_x_database.Disk
use open_x_database.Disk.{Disk}
use open_x_database.Action.{Action, done, modify, gets, ◌>>=◌, ◌>>◌}
use open_x_database.StorageEngine.State.{Platform, Engine, filter_size}

-- The bytes of `options.bin`.
unfoldable pub options_bytes : Options → Bytes
options_bytes o =
    to_bytes 8 o.max_mem_table_size
    ++ (to_bytes 4 o.max_wal_buffer_size
        ++ (to_bytes 1 (compression_code o.compression_type) ++ to_bytes 1 (hash_code o.hash_type)))

unfoldable pub options_reader : Options → Reader Options
options_reader old = Stream.◌>>=◌ (read_uint 8 8 old.max_mem_table_size) λ size.
    Stream.◌>>=◌ (read_uint 4 4 old.max_wal_buffer_size) λ buffer.
      Stream.◌>>=◌ (read_uint 1 1 (compression_code old.compression_type)) λ compression.
        Stream.◌>>=◌ (read_uint 1 1 (hash_code old.hash_type)) λ hash. Stream.pure (record {
          max_mem_table_size = size;
          max_wal_buffer_size = buffer;
          compression_type = compression_of compression;
          hash_type = hash_of hash;
        })

unfoldable pub read_options : Options → Bytes → Outcome Options
unfolding options_reader
read_options old bs = result (options_reader old (opened bs))

unfoldable pub save_options : Options → Disk → Disk
save_options o d = record d { options = some (options_bytes o) }

-- `if (fs::exists(m_optionsFileName)) loadOptions(); else saveOptions();`
unfoldable pub settle_options : Options → Action Disk Options
unfolding save_options
settle_options o d = elim d.options [
  | some bs ↦ (read_options o bs, d)
  | none ↦ (ok o, save_options o d)
]

abbrev pub with_new_log : Options → Disk → Outcome MemTable → Outcome MemTable × Disk
with_new_log o d (ok t) =
    (ok (MemTable.set_write_ahead_log t o.max_wal_buffer_size), record d { wal = some [] })
with_new_log o d (throws e) = (throws e, d)
with_new_log o d undefined = (undefined, d)
with_new_log o d diverges = (diverges, d)

-- The memory table that the log gives, if there is a log. Then the log is opened anew, which empties
-- the file.
unfoldable pub restore_mem_table : Platform → Options → Action Disk MemTable
restore_mem_table p o d = elim d.wal [
  | none ↦ (
    ok (MemTable.set_write_ahead_log MemTable.empty o.max_wal_buffer_size),
    record d { wal = some [] },
  )
  | some bs ↦ with_new_log o d (MemTable.restore_from_log p.runtime MemTable.empty bs)
]

unfoldable pub make_directories : Disk → Disk
make_directories d = record d { segments = Disk.made d.segments; indexes = Disk.made d.indexes }

-- `if (!fs::is_empty(m_indexDir)) m_index->load(m_indexDir);`
unfoldable pub load_index : Action Disk Index
load_index d = elim d.indexes [
  | none ↦ (ok Index.empty, d)
  | some [] ↦ (ok Index.empty, d)
  | some (f ∷ files) ↦ (Index.load Index.empty (some (f ∷ files)), d)
]

unfoldable pub load_bloom_filter : Action Disk Bits
load_bloom_filter d = elim d.bloom [
  | none ↦ (ok (BloomFilter.new filter_size), d)
  | some bs ↦ (BloomFilter.load filter_size (BloomFilter.new filter_size) (some bs), d)
]

-- `open`, on an engine that has just been constructed. The segments are numbered from 0 again.
unfoldable pub open_engine : Platform → Options → Action Disk Engine
unfolding settle_options restore_mem_table make_directories load_index load_bloom_filter
open_engine p options = do
  o ← settle_options options
  mem_table ← restore_mem_table p o
  modify make_directories
  index ← load_index
  bits ← load_bloom_filter
  disk ← gets (λ d. d)
  done (record {
    mem_table = mem_table;
    compressor = create_compressor p.codecs p.runtime.max_size o.compression_type;
    hasher = create_hasher p.hashes o.hash_type;
    index = index;
    segment_id = 0;
    mem_table_limit = o.max_mem_table_size;
    opts = o;
    bloom_filter = bits;
    disk = disk;
  })

-- What the filter's file leaves of a filter, if there is a file.
unfoldable pub load_over : Bits → Action Disk Bits
load_over bits d = elim d.bloom [
  | none ↦ (ok bits, d)
  | some bs ↦ (BloomFilter.load filter_size bits (some bs), d)
]

-- `open`, on an engine that was opened before: all members are as in a new one, but the number of the
-- next segment stays, and so does the filter, where no file is read over it.
unfoldable pub open_again : Platform → Options → ℕ → Bits → Action Disk Engine
unfolding open_engine load_over
open_again p options segment_id bits = do
  e ← open_engine p options
  kept ← load_over bits
  done (record e { segment_id = segment_id; bloom_filter = kept })

-- The destructor closes the log's stream.
unfoldable pub close_engine : Engine → Disk
close_engine e = elim e.mem_table.wal [
  | none ↦ e.disk
  | some w ↦ record e.disk { wal = some (WriteAheadLog.contents w) }
]
