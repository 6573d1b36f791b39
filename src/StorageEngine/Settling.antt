-- ===== src/StorageEngine/Settling.antt =====
-- The options that a database has from its first opening on.
use open_x_database.Shared.{◌≡◌, ◌≤◌, ◌<◌, ◌^◌, refl, [], arith, ok, some, append-nil, ap}
use open_x_database.Bytes.Stream.{read_uint_front}
use open_x_database.Options.{
  Options, CompressionType, HashType, no_compression, snappy, lz4, no_hash, city_hash_128,
  murmur_hash_3, compression_code, compression_of, hash_code, hash_of,
}
use open_x_database.Disk.{Disk}
use open_x_database.StorageEngine.Opening.{
  options_bytes, options_reader, read_options, save_options, settle_options,
}

-- A byte that the enumeration can hold: a named value, or another byte.
abbrev pub IsCompressionType : CompressionType → Type 0
IsCompressionType (CompressionType.unnamed b) = (3 ≤ b) × (b < 256)
IsCompressionType _ = Unit {0}

abbrev pub IsHashType : HashType → Type 0
IsHashType (HashType.unnamed b) = (3 ≤ b) × (b < 256)
IsHashType _ = Unit {0}

compression_of-compression_code :
    (t : CompressionType)
    → IsCompressionType t
    → (compression_code t < 256) × (compression_of (compression_code t) ≡ t)
unfolding compression_of
compression_of-compression_code no_compression h = (omega arith, refl)
compression_of-compression_code snappy h = (omega arith, refl)
compression_of-compression_code lz4 h = (omega arith, refl)
compression_of-compression_code (CompressionType.unnamed b) h =
    (omega (arith, h.1), ground (arith, h.0))

hash_of-hash_code :
    (t : HashType) → IsHashType t → (hash_code t < 256) × (hash_of (hash_code t) ≡ t)
unfolding hash_of
hash_of-hash_code no_hash h = (omega arith, refl)
hash_of-hash_code city_hash_128 h = (omega arith, refl)
hash_of-hash_code murmur_hash_3 h = (omega arith, refl)
hash_of-hash_code (HashType.unnamed b) h = (omega (arith, h.1), ground (arith, h.0))

-- Options whose fields are in the ranges of their C++ types.
pub record IsOptions (o : Options) : Type 0 where
  pub size_fits : o.max_mem_table_size < 2 ^ 64
  pub buffer_fits : o.max_wal_buffer_size < 2 ^ 32
  pub compression_is : IsCompressionType o.compression_type
  pub hash_is : IsHashType o.hash_type

pub read_options-options_bytes :
    (old o : Options) → IsOptions o → read_options old (options_bytes o) ≡ ok o
unfolding read_options options_bytes options_reader
read_options-options_bytes old o h =
    let (compression_fits, compression_back) =
      compression_of-compression_code o.compression_type h.compression_is in
    let (hash_fits, hash_back) = hash_of-hash_code o.hash_type h.hash_is in
    let last = rw append-nil at (
      read_uint_front 1 (hash_code o.hash_type) (hash_code old.hash_type) []
        (omega (arith, hash_fits))) in
    rw
      (
        read_uint_front 8 o.max_mem_table_size old.max_mem_table_size _
            (omega (arith, h.size_fits)),
        read_uint_front 4 o.max_wal_buffer_size old.max_wal_buffer_size _
            (omega (arith, h.buffer_fits)),
        read_uint_front 1 (compression_code o.compression_type)
            (compression_code old.compression_type) _ (omega (arith, compression_fits)),
        last,
        compression_back,
        hash_back,
      )
      refl

-- Once options whose fields are in the ranges of their types have been saved, `open` takes those,
-- whatever options it is given, and leaves the file as it is.
pub settle_options-save_options :
    (o given : Options) (d : Disk)
    → IsOptions o
    → settle_options given (save_options o d) ≡ (ok o, save_options o d)
unfolding settle_options save_options
settle_options-save_options o given d h =
    ap (λ x. (x, record d { options = some (options_bytes o) }))
      (read_options-options_bytes given o h)
