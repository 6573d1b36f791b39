-- ===== src/Hasher.antt =====
-- src/Hasher: the checksums of values, behind the interface `IHasher`. CityHash128 and
-- MurmurHash3_x64_128 are other libraries' functions, and arguments here.
use open_x_database.Shared.{ℕ, Option, none, some}
use open_x_database.Bytes.{Bytes}
use open_x_database.SsTableRow.{UInt128}
use open_x_database.Options.{HashType, no_hash, city_hash_128, murmur_hash_3}

pub record Hashes : Type 0 where
  -- CityHash128(data, size)
  pub city_hash_128 : Bytes → UInt128
  -- MurmurHash3_x64_128(data, size, seed, out)
  pub murmur_hash_3 : Bytes → ℕ → UInt128

-- `IHasher::hash`
abbrev pub Hasher : Type 0
Hasher = Bytes → UInt128

unfoldable pub no_hash_hash : Hasher
no_hash_hash bytes = record { first = 0; second = 0 }

unfoldable pub city_hash_hash : Hashes → Hasher
city_hash_hash lib bytes = lib.city_hash_128 bytes

unfoldable pub murmur_hash_hash : Hashes → Hasher
murmur_hash_hash lib bytes = lib.murmur_hash_3 bytes 46

-- `none` is the null pointer.
unfoldable pub create_hasher : Hashes → HashType → Option Hasher
unfolding no_hash_hash city_hash_hash murmur_hash_hash
create_hasher lib no_hash = some no_hash_hash
create_hasher lib city_hash_128 = some (city_hash_hash lib)
create_hasher lib murmur_hash_3 = some (murmur_hash_hash lib)
create_hasher lib (HashType.unnamed b) = none

unfoldable pub to_string : HashType → Prim.Native.String.String
to_string no_hash = "NoHash"
to_string city_hash_128 = "CityHash128"
to_string murmur_hash_3 = "MurmurHash3"
to_string (HashType.unnamed b) = "Unknown"
