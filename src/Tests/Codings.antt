-- ===== src/Tests/Codings.antt =====
-- Values that are compressed with LZ4.
use open_x_database.Shared.{◌≡◌, [], ◌∷◌, arith, ok, throws, uncompress_failed, refl}
use open_x_database.Bytes.{Bytes}
use open_x_database.Compression.{lz4_compress, lz4_uncompress}
use open_x_database.Compression.RoundTrip.{
  IsCoded, lz4_uncompress-lz4_compress, lz4_uncompress-lz4_compress_empty,
}
use open_x_database.Tests.Data.{codecs}

abbrev two_bytes : IsCoded codecs (5 ∷ 6 ∷ [])
two_bytes = record {
  bound = 17;
  bound_lem = refl;
  size = 2;
  coded = 0 ∷ 5 ∷ 6 ∷ [];
  compressed = refl;
  coded_size = refl;
  within = omega arith;
  decompressed = refl;
}

abbrev no_bytes : IsCoded codecs []
no_bytes = record {
  bound = 15;
  bound_lem = refl;
  size = 0;
  coded = 0 ∷ [];
  compressed = refl;
  coded_size = refl;
  within = omega arith;
  decompressed = refl;
}

lz4_uncompress-lz4_compress_example :
    (out : Bytes) × (lz4_compress codecs 1000 (5 ∷ 6 ∷ []) ≡ ok out)
    × (lz4_uncompress codecs 1000 out ≡ ok (5 ∷ 6 ∷ []))
lz4_uncompress-lz4_compress_example =
    lz4_uncompress-lz4_compress codecs 1000 (5 ∷ 6 ∷ []) two_bytes (omega arith) (omega arith)
      (omega arith) (omega arith) (omega arith)

lz4_uncompress-lz4_compress_empty_example :
    (out : Bytes) × (lz4_compress codecs 1000 [] ≡ ok out)
    × (lz4_uncompress codecs 1000 out ≡ throws uncompress_failed)
lz4_uncompress-lz4_compress_empty_example =
    lz4_uncompress-lz4_compress_empty codecs 1000 no_bytes (omega arith) (omega arith)
