-- ===== src/File.antt =====
-- src/File.h and src/File.cpp: a file that is read and written through a mapping of a part of it.
pub mod Slices
pub mod Mapped
pub mod Appending
use open_x_database.Shared.{
  ℕ, ◌+◌, ◌%◌, ◌^◌, ◌≡◌, ◌≤◌, ◌<◌, Bool, true, false, List, [], ◌∷◌, ◌++◌, Option, none, some, ltb,
  if◌then◌else◌, length, take, drop,
}
use open_x_database.Shared.{
  Outcome, ok, throws, undefined, diverges, ◌>>=◌, file_not_exist, invalid_size_and_offset,
  invalid_directory, length_error,
}
use open_x_database.Bytes.{Bytes}
use open_x_database.Bytes.Stream.{resize}
use open_x_database.Action.{Action}

-- What `file_mapping` and `mapped_region` of Boost give of a file's bytes, for an offset and a size.
pub record Mapping : Type 0 where
  pub region : ℕ → ℕ → Bytes → Outcome Bytes

-- The bytes of the file, `none` where it does not exist.
abbrev pub File : Type 0
File = Option Bytes

-- The result is what `dst` holds behind a call that returns.
unfoldable pub read : Mapping → ℕ → ℕ → ℕ → File → Outcome Bytes
read m max_size offset size none = throws file_not_exist
read m max_size offset size (some bs) =
    if ltb (length bs) ((offset + size) % 2 ^ 64)
    then throws invalid_size_and_offset
    else m.region offset size bs >>= λ r.
        if ltb max_size size then throws length_error else ok (take size r)

-- `is_directory` tells whether the parent path exists.
unfoldable pub create : Bool → Action File Unit
create true file = (ok tt, some [])
create false file = (throws invalid_directory, file)

-- `fs::resize_file`, which fills up with zeros.
unfoldable pub enlarged : ℕ → Bytes → Bytes
unfolding resize
enlarged n bs = if ltb (length bs) n then resize n bs else bs

-- The region's bytes are those of the file from then on.
unfoldable pub overwrite : ℕ → Bytes → Bytes → Bytes
overwrite offset src bs = take offset bs ++ (src ++ drop (offset + length src) bs)

unfoldable pub copied : ℕ → Bytes → Bytes → Outcome Bytes → Outcome (Unit {0}) × File
unfolding overwrite
copied offset src bs (ok r) = (ok tt, some (overwrite offset src bs))
copied offset src bs (throws e) = (throws e, some bs)
copied offset src bs undefined = (undefined, some bs)
copied offset src bs diverges = (diverges, some bs)

-- `write` from where the file exists.
unfoldable pub write_existing : Mapping → ℕ → Bytes → Bytes → Outcome (Unit {0}) × File
unfolding enlarged copied
write_existing m offset src bs =
    let bs' = enlarged ((offset + length src) % 2 ^ 64) bs in
    copied offset src bs' (m.region offset (length src) bs')

unfoldable pub created : Mapping → ℕ → Bytes → Outcome (Unit {0}) × File → Outcome (Unit {0}) × File
unfolding write_existing
created m offset src (ok u, some bs) = write_existing m offset src bs
created m offset src (ok u, none) = (throws file_not_exist, none)
created m offset src (throws e, file) = (throws e, file)
created m offset src (undefined, file) = (undefined, file)
created m offset src (diverges, file) = (diverges, file)

unfoldable pub write : Mapping → Bool → ℕ → Bytes → Action File Unit
unfolding create created write_existing
write m is_directory offset src none = created m offset src (create is_directory none)
write m is_directory offset src (some bs) = write_existing m offset src bs

-- The size of a file that does not exist is an error, and the offset is 0.
unfoldable pub append : Mapping → Bool → Bytes → Action File Unit
append m is_directory src none = write m is_directory 0 src none
append m is_directory src (some bs) = write m is_directory (length bs) src (some bs)
