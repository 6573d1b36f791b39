-- ===== src/Tests/Data.antt =====
-- A platform, rows, a filter and options to run the models on.
use open_x_database.Shared.{[], ◌∷◌, List}
use open_x_database.SsTableRow.{SsTableRow, UInt128, Runtime, put, put_row, remove_row}
use open_x_database.Hasher.{Hashes}
use open_x_database.Compression.{Codecs, ℤ, pos, negsuc}
use open_x_database.Bytes.{Bytes}
use open_x_database.Shared.{suc, ◌+◌, length}
use open_x_database.Options.{Options, no_compression, no_hash}
use open_x_database.StorageEngine.State.{Platform}

abbrev pub runtime : Runtime
runtime = record { max_size = 1000; garbage = put }

abbrev pub hashes : Hashes
hashes = record {
  city_hash_128 = λ bytes. record { first = 1; second = 2 };
  murmur_hash_3 = λ bytes seed. record { first = 3; second = 5 };
}

-- LZ4's bound, and a compressed form that is the input behind a zero.
abbrev bound : ℤ → ℤ
bound (pos n) = pos (n + 16)
bound (negsuc n) = pos 0

abbrev coded : Bytes → ℤ → ℤ → ℤ × Bytes
coded input size capacity = (pos (suc (length input)), 0 ∷ input)

abbrev decoded : Bytes → ℤ → ℤ → ℤ × Bytes
decoded [] size capacity = (negsuc 0, [])
decoded (b ∷ input) size capacity = (pos (length input), input)

abbrev pub codecs : Codecs
codecs = record {
  lz4_compress_bound = bound;
  lz4_compress_default = coded;
  lz4_decompress_safe = decoded;
  snappy_compress = λ input. input;
  snappy_uncompress = λ input. input;
}

abbrev pub platform : Platform
platform = record { runtime = runtime; hashes = hashes; codecs = codecs; order = λ m. m }

-- The table is full at 40 bytes, which is a row with five bytes of value.
abbrev pub options : Options
options = record {
  max_mem_table_size = 40;
  max_wal_buffer_size = 16;
  compression_type = no_compression;
  hash_type = no_hash;
}

abbrev pub no_sum : UInt128
no_sum = record { first = 0; second = 0 }

abbrev pub put_seven : SsTableRow
put_seven = put_row 7 (1 ∷ 2 ∷ []) no_sum

abbrev pub put_seven_again : SsTableRow
put_seven_again = put_row 7 (3 ∷ []) no_sum

abbrev pub remove_four : SsTableRow
remove_four = remove_row 4

abbrev pub rows : List SsTableRow
rows = put_seven ∷ remove_four ∷ put_seven_again ∷ []
