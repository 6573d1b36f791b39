-- ===== src/Compression.antt =====
-- src/Compression: the compressors of values, behind the interface `ICompression`. The functions of
-- LZ4 and Snappy are other libraries', and arguments here.
pub mod RoundTrip
use open_x_database.Shared.{ℕ, suc, ◌+◌, ◌-◌, ◌%◌, ◌^◌, ◌++◌, length, take, drop}
use open_x_database.Shared.{ltb, if◌then◌else◌, replicate, Outcome, ok, throws, undefined}
use open_x_database.Shared.{length_error, invalid_input_size, compress_failed, uncompress_failed}
use open_x_database.Bytes.{Bytes, to_bytes, from_bytes}
use open_x_database.Bytes.Stream.{resize}
use open_x_database.Options.{CompressionType, no_compression, snappy, lz4}

-- `negsuc n` is -(n + 1).
pub data ℤ : Type 0 where
  pos : ℕ → ℤ
  negsuc : ℕ → ℤ

-- A `size_t` handed over as an `int`.
unfoldable pub to_int : ℕ → ℤ
to_int n = if ltb (n % 2 ^ 32) (2 ^ 31) then pos (n % 2 ^ 32) else negsuc (2 ^ 32 - n % 2 ^ 32 - 1)

pub record Codecs : Type 0 where
  -- LZ4_compressBound(inputSize)
  pub lz4_compress_bound : ℤ → ℤ
  -- LZ4_compress_default(src, dst, srcSize, dstCapacity): what it returns and what it writes
  pub lz4_compress_default : Bytes → ℤ → ℤ → ℤ × Bytes
  -- LZ4_decompress_safe(src, dst, compressedSize, dstCapacity)
  pub lz4_decompress_safe : Bytes → ℤ → ℤ → ℤ × Bytes
  -- snappy::Compress and snappy::Uncompress: the string that they leave in `output`
  pub snappy_compress : Bytes → Bytes
  pub snappy_uncompress : Bytes → Bytes

pub record Compressor : Type 0 where
  pub compress : Bytes → Outcome Bytes
  pub uncompress : Bytes → Outcome Bytes

-- Bytes written over the front of a buffer that has room for them.
unfoldable pub written_over : Bytes → Bytes → Bytes
written_over new old = new ++ drop (length new) old

-- Both calls of `output.resize` in `compress`, and the copy of the size before the second.
unfoldable pub lz4_finish : ℕ → Bytes → ℤ × Bytes → Outcome Bytes
unfolding written_over resize
lz4_finish max_compressed_size input (pos (suc n), out) = ok (
    resize (suc n + 8)
      (to_bytes 8 (length input) ++ written_over out (replicate max_compressed_size 0)))
lz4_finish max_compressed_size input (_, out) = throws compress_failed

unfoldable pub lz4_compress_bounded : Codecs → ℕ → Bytes → ℤ → Outcome Bytes
unfolding lz4_finish to_int
lz4_compress_bounded lib max_size input (pos (suc n)) =
    if ltb max_size (suc n + 8)
    then throws length_error
    else lz4_finish (suc n) input
        (lib.lz4_compress_default input (to_int (length input)) (to_int (suc n)))
lz4_compress_bounded lib max_size input _ = throws invalid_input_size

unfoldable pub lz4_compress : Codecs → ℕ → Bytes → Outcome Bytes
unfolding lz4_compress_bounded
lz4_compress lib max_size input =
    lz4_compress_bounded lib max_size input (lib.lz4_compress_bound (to_int (length input)))

unfoldable pub lz4_restore : ℕ → ℤ × Bytes → Outcome Bytes
unfolding written_over resize
lz4_restore output_size (pos (suc n), out) =
    ok (resize (suc n) (written_over out (replicate output_size 0)))
lz4_restore output_size (_, out) = throws uncompress_failed

-- The size is read through a cast pointer: past the end of a string of less than eight bytes.
unfoldable pub lz4_uncompress : Codecs → ℕ → Bytes → Outcome Bytes
unfolding lz4_restore to_int
lz4_uncompress lib max_size input =
    let output_size = from_bytes (take 8 input) in
    if ltb (length input) 8
    then undefined
    else if ltb max_size output_size
    then throws length_error
    else lz4_restore output_size
        (lib.lz4_decompress_safe (drop 8 input) (to_int (length input - 8)) (to_int output_size))

abbrev pub no_compressor : Compressor
no_compressor = record { compress = λ input. ok input; uncompress = λ input. ok input }

abbrev pub snappy_compressor : Codecs → Compressor
snappy_compressor lib = record {
  compress = λ input. ok (lib.snappy_compress input);
  uncompress = λ input. ok (lib.snappy_uncompress input);
}

abbrev pub lz4_compressor : Codecs → ℕ → Compressor
lz4_compressor lib max_size = record {
  compress = lz4_compress lib max_size;
  uncompress = lz4_uncompress lib max_size;
}

unfoldable pub create_compressor : Codecs → ℕ → CompressionType → Compressor
create_compressor lib max_size no_compression = no_compressor
create_compressor lib max_size snappy = snappy_compressor lib
create_compressor lib max_size lz4 = lz4_compressor lib max_size
create_compressor lib max_size (CompressionType.unnamed b) = no_compressor

unfoldable pub to_string : CompressionType → Prim.Native.String.String
to_string no_compression = "NoCompression"
to_string snappy = "Snappy"
to_string lz4 = "LZ4"
to_string (CompressionType.unnamed b) = "Unknown"
