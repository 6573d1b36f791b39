-- ===== src/File/Appending.antt =====
-- `File::append` of src/File.cpp.
use open_x_database.Shared.{
  ℕ, ◌+◌, ◌-◌, ◌^◌, ◌≡◌, ◌<◌, refl, sym, ◌∙◌, ap, true, List, [], ◌∷◌, ◌++◌, none, some, length,
  take, drop, replicate, arith, All, ok,
}
use open_x_database.Shared.{
  length-append, length-replicate, take_all, drop_all, append-nil, append_assoc,
  take-append_of_length, ltb,
}
use open_x_database.Action.{Action, done, ◌>>◌}
use open_x_database.Bytes.{Bytes}
use open_x_database.Bytes.Stream.{resize}
use open_x_database.File.{Mapping, File, append, enlarged, overwrite}
use open_x_database.File.Mapped.{Maps, bytes_of, written, write_lem}

-- One `append` for each string.
unfoldable pub append_all : Mapping → List Bytes → Action File Unit
append_all m [] = done tt
append_all m (src ∷ srcs) = do append m true src; append_all m srcs

-- The strings, one behind the other.
abbrev pub all_of : List Bytes → Bytes
all_of [] = []
all_of (src ∷ srcs) = src ++ all_of srcs

overwrite_end :
    (src bs : Bytes)
    → 0 < length src
    → overwrite (length bs) src (enlarged (length bs + length src) bs) ≡ bs ++ src
unfolding overwrite enlarged resize
overwrite_end src bs some_bytes =
    let n = length bs + length src in
    let zeros = replicate {A = ℕ} (n - length bs) 0 in
    let longer : ltb (length bs) n ≡ true = ground (arith, some_bytes) in
    let whole : take n bs ≡ bs = take_all n bs (omega arith) in
    let kept : take (length bs) (bs ++ zeros) ≡ bs =
      take-append_of_length (length bs) bs zeros refl in
    let nothing : drop n (bs ++ zeros) ≡ [] =
      drop_all n (bs ++ zeros)
        (omega (arith, length-append bs zeros, length-replicate {A = ℕ} (n - length bs) 0)) in
    rw (longer, whole, kept, nothing, append-nil src) refl

module _ (m : Mapping) (maps : Maps m) where
  append_lem :
      (src : Bytes) (file : File)
      → 0 < length src
      → length (bytes_of file) + length src < 2 ^ 64
      → append m true src file ≡ (ok tt, some (bytes_of file ++ src))
  unfolding append written
  append_lem src none some_bytes fits =
      write_lem m maps 0 src some_bytes (omega (arith, fits)) none
      ∙ ap (λ bs. (ok tt, some bs)) (overwrite_end src [] some_bytes)
  append_lem src (some bs) some_bytes fits =
      write_lem m maps (length bs) src some_bytes (omega (arith, fits)) (some bs)
      ∙ ap (λ bs. (ok tt, some bs)) (overwrite_end src bs some_bytes)

  -- Let the parts of a file that are not empty be mapped as they stand, and some strings that are not
  -- empty be appended one after the other to a file that exists or can be created, which stays below
  -- 2^64 bytes. Every `append` succeeds, and the file then has what it had and the strings behind it.
  pub append_all_lem :
      (srcs : List Bytes) (file : File)
      → All (λ src. 0 < length src) srcs
      → length (bytes_of file) + length (all_of srcs) < 2 ^ 64
      → (file' : File) × (append_all m srcs file ≡ (ok tt, file'))
        × (bytes_of file' ≡ bytes_of file ++ all_of srcs)
  unfolding append_all
  append_all_lem [] file some_bytes fits = (file, refl, sym (append-nil (bytes_of file)))
  append_all_lem (src ∷ srcs) file some_bytes fits =
      let old = bytes_of file in
      let lengths = length-append src (all_of srcs) in
      let first = append_lem src file some_bytes.0 (omega (arith, fits, lengths)) in
      let (file', rest, bytes) =
        append_all_lem srcs (some (old ++ src)) some_bytes.1
          (omega (arith, fits, lengths, length-append old src)) in
      (file', rw (first, rest) refl, bytes ∙ append_assoc old src (all_of srcs))
