-- ===== src/File/Mapped.antt =====
-- `File::read` and `File::write` of src/File.cpp.
use open_x_database.Shared.{
  ℕ, ◌+◌, ◌%◌, ◌^◌, ◌≡◌, ◌≤◌, ◌<◌, refl, sym, ◌∙◌, ap, true, [], ◌++◌, none, some, ltb, length,
  take, drop, replicate, ◌-◌, ◌⊎◌, inl, inr, Bool-cases, arith, ok,
}
use open_x_database.Shared.{
  length-append, length-take, take_all, take-append_of_length, drop-append_of_length, length-drop,
  append_assoc,
}
use open_x_database.Bytes.{Bytes}
use open_x_database.Bytes.Stream.{resize, length-resize}
use open_x_database.File.Slices.{slice, slice-append, slice-take, drop-append_drop}
use open_x_database.File.{
  Mapping, File, read, write, write_existing, enlarged, overwrite, copied, created, create,
}

-- A part of the file that is not empty is mapped as it stands.
pub record Maps (m : Mapping) : Type 0 where
  pub region :
      (offset size : ℕ) (bs : Bytes)
      → 0 < size
      → offset + size ≤ length bs
      → m.region offset size bs ≡ ok (take size (drop offset bs))

-- What was in the file before.
abbrev pub bytes_of : File → Bytes
bytes_of none = []
bytes_of (some bs) = bs

length-enlarged : (n : ℕ) (bs : Bytes) → n ≤ length (enlarged n bs)
unfolding enlarged
length-enlarged n bs = ground (arith, length-resize n bs)

length-enlarged_old : (n : ℕ) (bs : Bytes) → length bs ≤ length (enlarged n bs)
unfolding enlarged
length-enlarged_old n bs = ground (arith, length-resize n bs)

slice-enlarged :
    (offset size n : ℕ) (bs : Bytes)
    → offset + size ≤ length bs
    → slice offset size (enlarged n bs) ≡ slice offset size bs
unfolding enlarged resize
slice-enlarged offset size n bs l = elim (Bool-cases (ltb (length bs) n)) [
  | inl longer ↦
      let whole : take n bs ≡ bs = take_all n bs (ground (arith, longer)) in
      rw (longer, whole) (slice-append offset size bs (replicate (n - length bs) 0) l)
  | inr other ↦ rw other refl
]

module _ (m : Mapping) (maps : Maps m) (offset : ℕ) (src : Bytes) (some_bytes : 0 < length src)
    (in_range : offset + length src < 2 ^ 64) where
  unfoldable pub written : Bytes → Bytes
  written bs = overwrite offset src (enlarged (offset + length src) bs)

  write_existing_lem : (bs : Bytes) → write_existing m offset src bs ≡ (ok tt, some (written bs))
  unfolding write_existing written copied
  write_existing_lem bs =
      let no_wrap : (offset + length src) % 2 ^ 64 ≡ offset + length src =
        omega (arith, in_range) in
      rw
        (
          no_wrap,
          maps.region offset (length src) (enlarged (offset + length src) bs) some_bytes
              (length-enlarged (offset + length src) bs),
        )
        refl

  pub write_lem :
      (file : File) → write m true offset src file ≡ (ok tt, some (written (bytes_of file)))
  unfolding write created create
  write_lem none = write_existing_lem []
  write_lem (some bs) = write_existing_lem bs

  written_split :
      (bs : Bytes)
      → (front behind : Bytes) × (written bs ≡ front ++ (src ++ behind)) × (length front ≡ offset)
  unfolding written overwrite
  written_split bs =
      let ys = enlarged (offset + length src) bs in
      (
        take offset ys,
        drop (offset + length src) ys,
        refl,
        omega (arith, length-take offset ys, length-enlarged (offset + length src) bs),
      )

  read-written :
      (max_size : ℕ) (bs : Bytes)
      → length src ≤ max_size
      → read m max_size offset (length src) (some (written bs)) ≡ ok src
  unfolding read
  read-written max_size bs granted =
      let (front, behind, split, front_length) = written_split bs in
      let no_wrap : (offset + length src) % 2 ^ 64 ≡ offset + length src =
        omega (arith, in_range) in
      let long_enough : offset + length src ≤ length (written bs) = rw split (
        omega
          (arith, front_length, length-append front (src ++ behind), length-append src behind)) in
      let slice : take (length src) (drop offset (written bs)) ≡ src =
        rw (split, drop-append_of_length offset front (src ++ behind) front_length)
          (take-append_of_length (length src) src behind refl) in
      let taken : take (length src) src ≡ src = take_all (length src) src (omega arith) in
      ground (
        arith,
        no_wrap,
        long_enough,
        maps.region offset (length src) (written bs) some_bytes long_enough,
        slice,
        taken,
        granted,
      )

  length-written : (bs : Bytes) → length bs ≤ length (written bs)
  unfolding written overwrite
  length-written bs =
      let n = offset + length src in
      let ys = enlarged n bs in
      omega (
        arith,
        length-take offset ys,
        length-drop n ys,
        length-append (take offset ys) (src ++ drop n ys),
        length-append src (drop n ys),
        length-enlarged n bs,
        length-enlarged_old n bs,
      )

  slice-written :
      (at size : ℕ) (bs : Bytes)
      → at + size ≤ length bs
      → (at + size ≤ offset) ⊎ (offset + length src ≤ at)
      → slice at size (written bs) ≡ slice at size bs
  unfolding written overwrite
  slice-written at size bs l (inl before) =
      let ys = enlarged (offset + length src) bs in
      let enough : at + size ≤ length (take offset ys) =
        omega (arith, length-take offset ys, length-enlarged (offset + length src) bs) in
      slice-append at size (take offset ys) _ enough
      ∙ slice-take at size offset ys before
      ∙ slice-enlarged at size (offset + length src) bs l
  slice-written at size bs l (inr behind) =
      let n = offset + length src in
      let ys = enlarged n bs in
      let front_length : length (take offset ys ++ src) ≡ n =
        omega (
          arith,
          length-append (take offset ys) src,
          length-take offset ys,
          length-enlarged n bs,
        ) in
      ap (slice at size) (sym (append_assoc (take offset ys) src (drop n ys)))
      ∙ ap (take size) (drop-append_drop at n (take offset ys ++ src) ys front_length behind)
      ∙ slice-enlarged at size n bs l

  read-written_other :
      (max_size at size : ℕ) (bs : Bytes)
      → 0 < size
      → at + size < 2 ^ 64
      → at + size ≤ length bs
      → (at + size ≤ offset) ⊎ (offset + length src ≤ at)
      → read m max_size at size (some (written bs)) ≡ read m max_size at size (some bs)
  unfolding read
  read-written_other max_size at size bs some_size fits l apart =
      let no_wrap : (at + size) % 2 ^ 64 ≡ at + size = omega (arith, fits) in
      let longer = length-written bs in
      ground (
        arith,
        no_wrap,
        maps.region at size (written bs) some_size (omega (arith, l, longer)),
        maps.region at size bs some_size l,
        slice-written at size bs l apart,
        longer,
      )

  -- Let the parts of a file that are not empty be mapped as they stand. A `write` of some bytes, whose
  -- end is below 2^64, to a file that exists or can be created succeeds; `read` of as many bytes at its
  -- offset then gives those, if they can be allocated; and `read` of any other part of the old file, in
  -- front of them or behind them, gives what it gave before.
  pub read-write_part :
      (max_size : ℕ) (file : File)
      → length src ≤ max_size
      → (file' : File) × (write m true offset src file ≡ (ok tt, file'))
        × (read m max_size offset (length src) file' ≡ ok src)
        × ((at size : ℕ)
            → 0 < size
            → at + size < 2 ^ 64
            → at + size ≤ length (bytes_of file)
            → (at + size ≤ offset) ⊎ (offset + length src ≤ at)
            → read m max_size at size file' ≡ read m max_size at size file)
  read-write_part max_size none granted = (
    some (written []),
    write_lem none,
    read-written max_size [] granted,
    λ at size some_size fits l apart. absurd (omega (arith, some_size, l)),
  )
  read-write_part max_size (some bs) granted = (
    some (written bs),
    write_lem (some bs),
    read-written max_size bs granted,
    λ at size some_size fits l apart. read-written_other max_size at size bs some_size fits l apart,
  )
