-- ===== src/BloomFilter.antt =====
-- src/BloomFilter.h. The template's parameters are `filter_size` and `num_hashes`; MurmurHash3 is
-- another library's function, and an argument.
pub mod Membership
use open_x_database.Shared.{
  ℕ, zero, suc, ◌+◌, ◌*◌, ◌%◌, ◌^◌, Bool, true, false, List, [], ◌∷◌, Option, none, some,
}
use open_x_database.Shared.{
  length, get_or, set, replicate, ◌==◌, if◌then◌else◌, Outcome, ok, throws,
}
use open_x_database.Shared.{undefined, diverges, take, invalid_output_stream, invalid_input_stream}
use open_x_database.Bytes.{Bytes, to_bytes}
use open_x_database.Bytes.Stream.{InStream, opened, result, read_object}
use open_x_database.SsTableRow.{UInt128}
use open_x_database.Hasher.{Hashes}

-- `m_bits`, a byte for each bit.
abbrev pub Bits : Type 0
Bits = List ℕ

unfoldable pub new : ℕ → Bits
new filter_size = replicate filter_size 0

-- The hash of the key's eight bytes.
unfoldable pub hash : Hashes → ℕ → UInt128
hash lib k = lib.murmur_hash_3 (to_bytes 8 k) 46

-- `uint64_t` arithmetic wraps before the remainder is taken.
unfoldable pub rehash : Bits → ℕ → UInt128 → ℕ
rehash bits index h = (h.first + index * h.second) % 2 ^ 64 % length bits

-- `for (i = 0; i < NumHashes; ++i)`, with the rounds that are left.
unfoldable pub add_loop : ℕ → ℕ → UInt128 → Bits → Bits
add_loop zero i h bits = bits
add_loop (suc rounds) i h bits = add_loop rounds (i + 1) h (set bits (rehash bits i h) 1)

unfoldable pub add : Hashes → ℕ → Bits → ℕ → Bits
unfolding add_loop
add lib num_hashes bits k = add_loop num_hashes 0 (hash lib k) bits

unfoldable pub contains_loop : ℕ → ℕ → UInt128 → Bits → Bool
contains_loop zero i h bits = true
contains_loop (suc rounds) i h bits =
    if get_or bits (rehash bits i h) 0 == 0 then false else contains_loop rounds (i + 1) h bits

unfoldable pub probably_contains : Hashes → ℕ → Bits → ℕ → Bool
unfolding contains_loop
probably_contains lib num_hashes bits k = contains_loop num_hashes 0 (hash lib k) bits

-- `is_open` tells whether the stream's file could be opened.
unfoldable pub dump : ℕ → Bool → Bits → Outcome Bytes
dump filter_size is_open bits =
    if is_open then ok (take filter_size bits) else throws invalid_output_stream

-- `none` is a stream whose file could not be opened.
unfoldable pub load : ℕ → Bits → Option Bytes → Outcome Bits
load filter_size bits none = throws invalid_input_stream
load filter_size bits (some bs) = result (read_object filter_size bits (opened bs))
