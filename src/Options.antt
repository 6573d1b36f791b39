-- ===== src/Options.antt =====
-- include/omx/Options.h: the options of a database. The enumerations are one byte each, and may hold
-- a value that they do not name.
use open_x_database.Shared.{ℕ, ◌*◌, ◌==◌, if◌then◌else◌}

pub data CompressionType : Type 0 where
  no_compression snappy lz4 : CompressionType
  unnamed : ℕ → CompressionType

pub data HashType : Type 0 where
  no_hash city_hash_128 murmur_hash_3 : HashType
  unnamed : ℕ → HashType

pub record Options : Type 0 where
  pub max_mem_table_size : ℕ
  pub max_wal_buffer_size : ℕ
  pub compression_type : CompressionType
  pub hash_type : HashType

abbrev pub default_options : Options
default_options = record {
  max_mem_table_size = 1 * 1024 * 1024;
  max_wal_buffer_size = 1 * 1024;
  compression_type = lz4;
  hash_type = city_hash_128;
}

abbrev pub compression_code : CompressionType → ℕ
compression_code no_compression = 0
compression_code snappy = 1
compression_code lz4 = 2
compression_code (CompressionType.unnamed b) = b

unfoldable pub compression_of : ℕ → CompressionType
compression_of b =
    if b == 0
    then no_compression
    else if b == 1
    then snappy
    else if b == 2
    then lz4
    else CompressionType.unnamed b

abbrev pub hash_code : HashType → ℕ
hash_code no_hash = 0
hash_code city_hash_128 = 1
hash_code murmur_hash_3 = 2
hash_code (HashType.unnamed b) = b

unfoldable pub hash_of : ℕ → HashType
hash_of b =
    if b == 0
    then no_hash
    else if b == 1
    then city_hash_128
    else if b == 2
    then murmur_hash_3
    else HashType.unnamed b
