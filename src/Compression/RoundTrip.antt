-- ===== src/Compression/RoundTrip.antt =====
-- The LZ4 adapter gives back what it has compressed, where the library does, unless that is empty.
use open_x_database.Shared.{
  ℕ, suc, ◌+◌, ◌-◌, ◌≡◌, ◌≤◌, ◌<◌, ◌^◌, refl, sym, ◌∙◌, [], ◌∷◌, ◌++◌, take, drop, length, arith,
  ap, append-nil,
}
use open_x_database.Shared.{
  false, ok, throws, replicate, length-append, take-append_of_length, drop-append_of_length,
  append_assoc, uncompress_failed, ltb,
}
use open_x_database.Bytes.{Bytes, to_bytes, from_bytes, length-to_bytes, from_bytes-to_bytes}
use open_x_database.Bytes.Stream.{resize}
use open_x_database.Compression.{
  pos, Codecs, to_int, written_over, lz4_finish, lz4_compress_bounded, lz4_compress, lz4_restore,
  lz4_uncompress,
}

-- What LZ4 documents of one input that it accepts: a positive bound, a compressed form that is not
-- empty and no longer than the bound, and that the form is decompressed to the input.
pub record IsCoded (lib : Codecs) (input : Bytes) : Type 0 where
  pub bound : ℕ
  pub bound_lem : lib.lz4_compress_bound (pos (length input)) ≡ pos (suc bound)
  pub size : ℕ
  pub coded : Bytes
  pub compressed :
      lib.lz4_compress_default input (pos (length input)) (pos (suc bound))
      ≡ (pos (suc size), coded)
  pub coded_size : length coded ≡ suc size
  pub within : size ≤ bound
  pub decompressed :
      lib.lz4_decompress_safe coded (pos (suc size)) (pos (length input))
      ≡ (pos (length input), input)

to_int-pos : (n : ℕ) → n < 2 ^ 31 → to_int n ≡ pos n
unfolding to_int
to_int-pos n h = ground arith

resize_front : (n : ℕ) (xs ys : Bytes) → length xs ≡ n → resize n (xs ++ ys) ≡ xs
unfolding resize replicate
resize_front n xs ys e =
    let no_more : n - length (xs ++ ys) ≡ 0 = omega (arith, e, length-append xs ys) in
    rw (no_more, take-append_of_length n xs ys e) (append-nil xs)

-- The size in front, and the compressed form.
abbrev frame : Bytes → Bytes → Bytes
frame input coded = to_bytes 8 (length input) ++ coded

length-frame : (input coded : Bytes) → length (frame input coded) ≡ 8 + length coded
length-frame input coded =
    omega (arith, length-append (to_bytes 8 (length input)) coded, length-to_bytes 8 (length input))

module _ (lib : Codecs) (max_size : ℕ) (input : Bytes) (c : IsCoded lib input)
    (small : length input < 2 ^ 31) (bound_small : c.bound + 1 < 2 ^ 31)
    (granted : c.bound + 9 ≤ max_size) (input_granted : length input ≤ max_size) where
  -- The buffer is cut to the size and the compressed form.
  finish_lem : lz4_finish (suc c.bound) input (pos (suc c.size), c.coded) ≡ ok (frame input c.coded)
  unfolding lz4_finish written_over
  finish_lem =
      let zeros = drop (length c.coded) (replicate {A = ℕ} (suc c.bound) 0) in
      let at_front : resize (suc c.size + 8) (frame input c.coded ++ zeros) ≡ frame input c.coded =
        resize_front (suc c.size + 8) (frame input c.coded) zeros
          (omega (arith, length-frame input c.coded, c.coded_size)) in
      ap ok (
        ap (resize (suc c.size + 8)) (sym (append_assoc (to_bytes 8 (length input)) c.coded zeros))
        ∙ at_front)

  not_too_long : ltb max_size (suc c.bound + 8) ≡ false
  not_too_long = ground (arith, granted)

  compress_lem : lz4_compress lib max_size input ≡ ok (frame input c.coded)
  unfolding lz4_compress lz4_compress_bounded
  compress_lem =
      rw
        (
          to_int-pos (length input) small,
          c.bound_lem,
          to_int-pos (length input) small,
          to_int-pos (suc c.bound) (omega (arith, bound_small)),
          c.compressed,
          not_too_long,
        )
        finish_lem

  front_size : from_bytes (take 8 (frame input c.coded)) ≡ length input
  front_size =
      ap from_bytes (
        take-append_of_length 8 (to_bytes 8 (length input)) c.coded
          (length-to_bytes 8 (length input)))
      ∙ from_bytes-to_bytes 8 (length input) (omega (arith, small))

  not_short : ltb (length (frame input c.coded)) 8 ≡ false
  not_short = ground (arith, length-frame input c.coded)

  input_not_too_long : ltb max_size (length input) ≡ false
  input_not_too_long = ground (arith, input_granted)

  behind_size : to_int (length (frame input c.coded) - 8) ≡ pos (suc c.size)
  behind_size =
      ap to_int (omega (arith, length-frame input c.coded, c.coded_size))
      ∙ to_int-pos (suc c.size) (omega (arith, c.within, bound_small))

  uncompress_lem :
      lz4_uncompress lib max_size (frame input c.coded)
      ≡ lz4_restore (length input) (pos (length input), input)
  unfolding lz4_uncompress
  uncompress_lem =
      rw
        (
          front_size,
          not_short,
          input_not_too_long,
          behind_size,
          to_int-pos (length input) small,
          drop-append_of_length 8 (to_bytes 8 (length input)) c.coded
              (length-to_bytes 8 (length input)),
          c.decompressed,
        )
        refl

restore_lem :
    (n : ℕ) (input : Bytes)
    → length input ≡ suc n
    → lz4_restore (suc n) (pos (suc n), input) ≡ ok input
unfolding lz4_restore written_over
restore_lem n input e =
    ap ok (resize_front (suc n) input (drop (length input) (replicate {A = ℕ} (suc n) 0)) e)

restore_input :
    (input : Bytes)
    → 0 < length input
    → lz4_restore (length input) (pos (length input), input) ≡ ok input
restore_input [] h = absurd (omega (arith, h))
restore_input (b ∷ bs) h = restore_lem (length bs) (b ∷ bs) refl

-- A value of one byte or more and less than 2 GiB that LZ4 accepts and codes as it documents, with
-- room to allocate it and its bound, is compressed, and uncompressed to what it was.
pub lz4_uncompress-lz4_compress :
    (lib : Codecs) (max_size : ℕ) (input : Bytes)
    → (c : IsCoded lib input) → length input < 2 ^ 31
    → c.bound + 1 < 2 ^ 31
    → c.bound + 9 ≤ max_size
    → length input ≤ max_size
    → 0 < length input
    → (out : Bytes) × (lz4_compress lib max_size input ≡ ok out)
      × (lz4_uncompress lib max_size out ≡ ok input)
lz4_uncompress-lz4_compress lib max_size input c small bound_small granted input_granted some_byte =
    (
      frame input c.coded,
      compress_lem lib max_size input c small bound_small granted input_granted,
      uncompress_lem lib max_size input c small bound_small granted input_granted
          ∙ restore_input input some_byte,
    )

-- The empty value, where LZ4 accepts it and codes it as it documents, is compressed, but what comes of
-- it cannot be uncompressed: the decompressed size 0 is taken for a failure.
pub lz4_uncompress-lz4_compress_empty :
    (lib : Codecs) (max_size : ℕ)
    → (c : IsCoded lib []) → c.bound + 1 < 2 ^ 31
    → c.bound + 9 ≤ max_size
    → (out : Bytes) × (lz4_compress lib max_size [] ≡ ok out)
      × (lz4_uncompress lib max_size out ≡ throws uncompress_failed)
lz4_uncompress-lz4_compress_empty lib max_size c bound_small granted = (
  frame [] c.coded,
  compress_lem lib max_size [] c (omega arith) bound_small granted (omega arith),
  uncompress_lem lib max_size [] c (omega arith) bound_small granted (omega arith)
      ∙ unfold lz4_restore in refl,
)
