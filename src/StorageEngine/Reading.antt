-- ===== src/StorageEngine/Reading.antt =====
-- `get` on any engine, whatever its files hold.
use open_x_database.Shared.{
  ℕ, ◌≡◌, refl, sym, ◌∙◌, ap, Option, none, some, arith, ok, Option-cases, inl, inr,
}
use open_x_database.Action.{after-ok, lift}
use open_x_database.Action.ReadOnly.{IsReadOnly, read_only_rules}
use open_x_database.Bytes.{Bytes}
use open_x_database.SsTableRow.{UInt128}
use open_x_database.Hasher.{Hasher}
use open_x_database.Index.{SearchHint}
use open_x_database.StorageEngine.State.{Platform, Engine}
use open_x_database.StorageEngine.Access.{
  get, find_in_memory, find_anywhere, find_on_disk, find_in_segment, open_value, checksum_of,
  same_checksum,
}

pub find_in_segment-IsReadOnly :
    (p : Platform) (hint : SearchHint) → IsReadOnly (find_in_segment p hint)
unfolding find_in_segment
find_in_segment-IsReadOnly p hint = search (read_only_rules) depth 20

pub find_on_disk-IsReadOnly : (p : Platform) (k : ℕ) → IsReadOnly (find_on_disk p k)
unfolding find_on_disk
find_on_disk-IsReadOnly p k = search (read_only_rules, find_in_segment-IsReadOnly) depth 20

pub find_anywhere-IsReadOnly :
    (p : Platform) (k : ℕ) (hit : Option (Bytes × UInt128)) → IsReadOnly (find_anywhere p k hit)
unfolding find_anywhere
find_anywhere-IsReadOnly p k none = find_on_disk-IsReadOnly p k
find_anywhere-IsReadOnly p k (some hit) = search (read_only_rules)

pub get-IsReadOnly : (p : Platform) (k : ℕ) → IsReadOnly (get p k)
unfolding get
get-IsReadOnly p k = search (read_only_rules, find_anywhere-IsReadOnly) depth 20

module _ (p : Platform) (e : Engine) where
  opened_value :
      (compressed : Bytes) (sum : UInt128) (v : Bytes)
      → open_value e (some (compressed, sum)) ≡ ok (some v)
      → (h : Hasher) × (e.hasher ≡ some h)
        × (h compressed ≡ sum)
        × (e.compressor.uncompress compressed ≡ ok v)
  unfolding open_value checksum_of same_checksum
  opened_value compressed sum v opens = elim (Option-cases e.hasher) [
    | inl missing ↦ absurd (ground (arith, missing, opens))
    | inr (h, here) ↦ (h, here, ground (arith, here, opens), ground (arith, here, opens))
  ]

  opened_hit :
      (hit : Option (Bytes × UInt128)) (v : Bytes)
      → open_value e hit ≡ ok (some v)
      → (compressed : Bytes) × (sum : UInt128) × (h : Hasher) × (hit ≡ some (compressed, sum))
        × (e.hasher ≡ some h)
        × (h compressed ≡ sum)
        × (e.compressor.uncompress compressed ≡ ok v)
  unfolding open_value
  opened_hit none v opens = cc
  opened_hit (some (compressed, sum)) v opens =
      let (h, here, same, back) = opened_value compressed sum v opens in
      (compressed, sum, h, refl, here, same, back)

-- In any engine, whatever memory, the index, the filter and the files hold: a value that `get` answers
-- is what the compressor gives back for bytes that memory or a segment has for the key, and the hash of
-- those bytes is the checksum that stands beside them. `get` changes nothing.
pub get-IsChecked :
    (p : Platform) (k : ℕ) (e e' : Engine) (v : Bytes)
    → get p k e ≡ (ok (some v), e')
    → (e' ≡ e)
      × (compressed : Bytes) × (sum : UInt128) × (h : Hasher) × (find_anywhere p k
            (find_in_memory k e)
            e
          ≡ (ok (some (compressed, sum)), e))
      × (e.hasher ≡ some h)
      × (h compressed ≡ sum)
      × (e.compressor.uncompress compressed ≡ ok v)
unfolding get
get-IsChecked p k e e' v answers =
    let (hit, s, searched, opens) =
      after-ok (λ found. lift (open_value e found)) (find_anywhere p k (find_in_memory k e) e)
        (some v) e' answers in
    let same_state : s ≡ e =
      sym (ap (λ x. x.1) searched) ∙ (find_anywhere-IsReadOnly p k (find_in_memory k e)).keeps e in
    let (compressed, sum, h, is_hit, here, same, back) =
      opened_hit p e hit v (ap (λ x. x.0) opens) in
    (
      sym (ap (λ x. x.1) opens) ∙ same_state,
      compressed,
      sum,
      h,
      rw (searched, is_hit, same_state) refl,
      here,
      same,
      back,
    )
