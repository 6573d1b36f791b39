-- ===== src/Disk/Names.antt =====
-- Different segments have different files.
use open_x_database.Shared.{
  ℕ, zero, suc, ◌+◌, ◌-◌, ◌*◌, ◌/◌, ◌%◌, ◌^◌, ◌≡◌, ◌<◌, refl, ap, sym, ◌∙◌, false, [], ◌∷◌, ◌++◌,
}
use open_x_database.Shared.{some, arith, leb, ◌==◌, ◌&&◌, if◌then◌else◌, inl, inr}
use open_x_database.Shared.{Bool-cases, ==-true, ap}
use open_x_database.Bytes.{Bytes}
use open_x_database.Bytes.Equality.{same_bytes, same_bytes_self, same_bytes→eq}
use open_x_database.Index.{Directory}
use open_x_database.Disk.{digits, segment_name, dot_bin, read_file, write_file}

-- The number that the decimal digits of a name spell, whatever stands between them.
spelled : ℕ → Bytes → ℕ
spelled n [] = n
spelled n (c ∷ cs) = spelled (if leb 48 c && leb c 57 then 10 * n + (c - 48) else n) cs

spelled-append : (n : ℕ) (a b : Bytes) → spelled n (a ++ b) ≡ spelled (spelled n a) b
unfolding spelled
spelled-append n [] b = refl
spelled-append n (c ∷ cs) b =
    spelled-append (if leb 48 c && leb c 57 then 10 * n + (c - 48) else n) cs b

spelled-digits : (fuel n : ℕ) → n < 10 ^ fuel → spelled 0 (digits fuel n) ≡ n
unfolding spelled digits
spelled-digits zero n h = omega arith
spelled-digits (suc fuel) n h = ground (
  arith,
  spelled-digits fuel (n / 10) (omega arith),
  spelled-append 0 (digits fuel (n / 10)) ((48 + n % 10) ∷ []),
)

spelled-segment_name : (n : ℕ) → n < 2 ^ 64 → spelled 0 (segment_name n) ≡ n
unfolding segment_name spelled
spelled-segment_name n h =
    spelled-append 0 (digits 20 n) dot_bin ∙ rw (spelled-digits 20 n (omega arith)) refl

pub segment_name-injective :
    (a b : ℕ) → a < 2 ^ 64 → b < 2 ^ 64 → segment_name a ≡ segment_name b → a ≡ b
segment_name-injective a b ha hb e =
    sym (spelled-segment_name a ha) ∙ ap (spelled 0) e ∙ spelled-segment_name b hb

read-write_file :
    (p q bs : Bytes) (d : Directory)
    → read_file q (write_file p bs d) ≡ (if same_bytes p q then some bs else read_file q d)
unfolding read_file write_file
read-write_file p q bs [] = refl
read-write_file p q bs ((r, cs) ∷ d) = ground (
  arith,
  read-write_file p q bs d,
  same_bytes→eq r p,
  same_bytes→eq r q,
  same_bytes→eq p q,
  same_bytes_self p,
  same_bytes_self r,
  same_bytes_self q,
)

-- For segment ids below 2^64, what was written to one segment's file is read from it, and no other
-- segment's file changes.
pub read-write_segment :
    (a b : ℕ) (bs : Bytes) (d : Directory)
    → a < 2 ^ 64
    → b < 2 ^ 64
    → read_file (segment_name b) (write_file (segment_name a) bs d)
      ≡ (if a == b then some bs else read_file (segment_name b) d)
read-write_segment a b bs d ha hb = elim (Bool-cases (a == b)) [
  | inl same ↦ rw (
    same,
    ==-true a b same,
    read-write_file (segment_name b) (segment_name b) bs d,
    same_bytes_self (segment_name b),
  )
  | inr other ↦
      rw (other, read-write_file (segment_name a) (segment_name b) bs d, names_differ other)
]
  where
    names_differ : (a == b) ≡ false → same_bytes (segment_name a) (segment_name b) ≡ false
    names_differ other =
        ground
          (arith, same_bytes→eq (segment_name a) (segment_name b), segment_name-injective a b ha hb)
