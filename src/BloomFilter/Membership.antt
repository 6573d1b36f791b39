-- ===== src/BloomFilter/Membership.antt =====
-- The filter has no false negatives: a key that was added is found, then and ever after.
use open_x_database.Shared.{
  ℕ, zero, suc, ◌+◌, ◌*◌, ◌%◌, ◌^◌, ◌≡◌, ◌<◌, refl, sym, ◌∙◌, true, false, [], ◌∷◌,
}
use open_x_database.Shared.{arith, length, get_or, set, ◌==◌, length-set, get_or-set_self}
use open_x_database.Shared.{ok, some, take_all, append-nil}
use open_x_database.Bytes.{Bytes}
use open_x_database.Bytes.Stream.{read_object_front_of_length}
use open_x_database.SsTableRow.{UInt128}
use open_x_database.Hasher.{Hashes}
use open_x_database.BloomFilter.{
  Bits, rehash, add_loop, add, contains_loop, probably_contains, hash, dump, load,
}

-- `bits'` has every bit that `bits` has.
pub record Covers (bits bits' : Bits) : Type 0 where
  pub same_length : length bits ≡ length bits'
  pub kept : (j : ℕ) → (get_or bits j 0 == 0) ≡ false → (get_or bits' j 0 == 0) ≡ false

Covers-refl : (bits : Bits) → Covers bits bits
Covers-refl bits = record { same_length = refl; kept = λ j h. h }

Covers-trans : {a b c : Bits} → Covers a b → Covers b c → Covers a c
Covers-trans p q = record {
  same_length = p.same_length ∙ q.same_length;
  kept = λ j h. q.kept j (p.kept j h);
}

set_kept :
    (bits : Bits) (i j : ℕ)
    → (get_or bits j 0 == 0) ≡ false
    → (get_or (set bits i 1) j 0 == 0) ≡ false
set_kept [] i j h = h
set_kept (b ∷ bits) zero zero h = refl
set_kept (b ∷ bits) zero (suc j) h = h
set_kept (b ∷ bits) (suc i) zero h = h
set_kept (b ∷ bits) (suc i) (suc j) h = set_kept bits i j h

Covers-set : (bits : Bits) (i : ℕ) → Covers bits (set bits i 1)
Covers-set bits i = record {
  same_length = sym (length-set bits i 1);
  kept = λ j h. set_kept bits i j h;
}

Covers-add_loop :
    (rounds i : ℕ) (h : UInt128) (bits : Bits) → Covers bits (add_loop rounds i h bits)
unfolding add_loop
Covers-add_loop zero i h bits = Covers-refl bits
Covers-add_loop (suc rounds) i h bits =
    Covers-trans (Covers-set bits (rehash bits i h))
      (Covers-add_loop rounds (i + 1) h (set bits (rehash bits i h) 1))

contains_loop-Covers :
    (rounds i : ℕ) (h : UInt128) (bits bits' : Bits)
    → Covers bits bits'
    → contains_loop rounds i h bits ≡ true
    → contains_loop rounds i h bits' ≡ true
unfolding contains_loop rehash
contains_loop-Covers zero i h bits bits' c e = refl
contains_loop-Covers (suc rounds) i h bits bits' c e = ground (
  arith,
  c.same_length,
  c.kept ((h.first + i * h.second) % 2 ^ 64 % length bits),
  contains_loop-Covers rounds (i + 1) h bits bits' c,
)

rehash-lt : (bits : Bits) (i : ℕ) (h : UInt128) → 0 < length bits → rehash bits i h < length bits
unfolding rehash
rehash-lt bits i h l = omega arith

-- The first round, on a filter that has its bit and answers the other rounds.
contains_round :
    (rounds i : ℕ) (h : UInt128) (bits : Bits)
    → (get_or bits (rehash bits i h) 0 == 0) ≡ false
    → contains_loop rounds (i + 1) h bits ≡ true
    → contains_loop (suc rounds) i h bits ≡ true
unfolding contains_loop
contains_round rounds i h bits marked others = rw (marked, others)

-- The bit that a round sets is set behind all rounds.
marked_bit :
    (rounds i : ℕ) (h : UInt128) (bits : Bits)
    → 0 < length bits
    → (get_or (add_loop (suc rounds) i h bits) (rehash (add_loop (suc rounds) i h bits) i h) 0 == 0)
      ≡ false
unfolding add_loop
marked_bit rounds i h bits l = rw same_place (
    later.kept (rehash bits i h)
      (rw (get_or-set_self bits (rehash bits i h) 1 0 (rehash-lt bits i h l)) refl))
  where
    later :
        Covers
          (set bits (rehash bits i h) 1)
          (add_loop rounds (i + 1) h (set bits (rehash bits i h) 1))
    later = Covers-add_loop rounds (i + 1) h (set bits (rehash bits i h) 1)

    same_place :
        rehash (add_loop rounds (i + 1) h (set bits (rehash bits i h) 1)) i h ≡ rehash bits i h
    same_place = unfold rehash in rw (← later.same_length, length-set bits (rehash bits i h) 1)

contains_loop-add_loop :
    (rounds i : ℕ) (h : UInt128) (bits : Bits)
    → 0 < length bits
    → contains_loop rounds i h (add_loop rounds i h bits) ≡ true
unfolding add_loop
contains_loop-add_loop zero i h bits l = unfold contains_loop in refl
contains_loop-add_loop (suc rounds) i h bits l =
    contains_round rounds i h (add_loop rounds (i + 1) h (set bits (rehash bits i h) 1))
      (marked_bit rounds i h bits l)
      (contains_loop-add_loop rounds (i + 1) h (set bits (rehash bits i h) 1)
        (omega (arith, length-set bits (rehash bits i h) 1)))

-- A key that was added to a filter with at least one bit is probably contained, for any hash
-- function and number of hashes.
pub probably_contains-add :
    (lib : Hashes) (num_hashes : ℕ) (bits : Bits) (k : ℕ)
    → 0 < length bits
    → probably_contains lib num_hashes (add lib num_hashes bits k) k ≡ true
unfolding probably_contains add
probably_contains-add lib num_hashes bits k l =
    contains_loop-add_loop num_hashes 0 (hash lib k) bits l

-- A key that is probably contained still is after any key has been added.
pub probably_contains-add_other :
    (lib : Hashes) (num_hashes : ℕ) (bits : Bits) (k j : ℕ)
    → probably_contains lib num_hashes bits k ≡ true
    → probably_contains lib num_hashes (add lib num_hashes bits j) k ≡ true
unfolding probably_contains add
probably_contains-add_other lib num_hashes bits k j h =
    contains_loop-Covers num_hashes 0 (hash lib k) bits _
      (Covers-add_loop num_hashes 0 (hash lib j) bits) h

pub length-add :
    (lib : Hashes) (num_hashes : ℕ) (bits : Bits) (k : ℕ)
    → length (add lib num_hashes bits k) ≡ length bits
unfolding add
length-add lib num_hashes bits k = sym (Covers-add_loop num_hashes 0 (hash lib k) bits).same_length

-- A filter of the template's size can be dumped, and is loaded as it was over any filter of that
-- size.
pub load-dump_filter :
    (filter_size : ℕ) (bits old : Bits)
    → length bits ≡ filter_size
    → length old ≡ filter_size
    → (bs : Bytes) × (dump filter_size true bits ≡ ok bs)
      × (load filter_size old (some bs) ≡ ok bits)
unfolding dump load
load-dump_filter filter_size bits old e k =
    let front = rw append-nil at (read_object_front_of_length filter_size bits [] old e k) in
    (bits, rw (take_all filter_size bits (omega arith)), rw front)
