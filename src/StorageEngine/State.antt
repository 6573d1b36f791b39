-- ===== src/StorageEngine/State.antt =====
-- src/StorageEngine.h: what the engine keeps, and what it takes from elsewhere.
use open_x_database.Shared.{ℕ, Option}
use open_x_database.SsTableRow.{Runtime}
use open_x_database.MemTable.{MemTable}
use open_x_database.SsTableIndex.{Hints}
use open_x_database.Index.{Index}
use open_x_database.BloomFilter.{Bits}
use open_x_database.Hasher.{Hashes, Hasher}
use open_x_database.Compression.{Codecs, Compressor}
use open_x_database.Options.{Options}
use open_x_database.Disk.{Disk}

abbrev pub filter_size : ℕ
filter_size = 10_000_000

abbrev pub num_hashes : ℕ
num_hashes = 7

-- What the engine takes from elsewhere: other libraries, the allocator, uninitialized memory, and
-- the order in which an unordered map is gone through.
pub record Platform : Type 0 where
  pub runtime : Runtime
  pub hashes : Hashes
  pub codecs : Codecs
  pub order : Hints → Hints

pub record Engine : Type 0 where
  pub mem_table : MemTable
  pub compressor : Compressor
  -- `none` is the null pointer.
  pub hasher : Option Hasher
  pub index : Index
  pub segment_id : ℕ
  pub mem_table_limit : ℕ
  pub opts : Options
  pub bloom_filter : Bits
  pub disk : Disk
