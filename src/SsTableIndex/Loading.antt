-- ===== src/SsTableIndex/Loading.antt =====
-- `SSTableIndex::load` of a file that `SSTableIndex::dump` wrote.
use open_x_database.Shared.{
  ℕ, zero, suc, ◌+◌, ◌≡◌, ◌≤◌, ◌<◌, ◌^◌, refl, sym, ◌∙◌, ap, ◌%◌, true, [], ◌∷◌, ◌++◌, none, some,
  arith,
}
use open_x_database.Shared.{
  ok, All, length, length-append, take-append_of_length, drop-append_of_length, ◌==◌, if◌then◌else◌,
}
use open_x_database.Bytes.{Bytes, to_bytes, length-to_bytes, from_bytes-to_bytes}
use open_x_database.Bytes.Stream.{opened, read_uint_front, read_object_front_of_length, peek}
use open_x_database.Bytes.Loop.{while_not_eof, while_end, while_round}
use open_x_database.History.{or_else, or_else_assoc, or_else-none}
use open_x_database.SsTableRow.RoundTrip.{peek_end}
use open_x_database.SsTableIndex.{
  FileSearchHint, Hints, SsTableIndex, lookup, insert_new, hint_bytes, hint_of, dump_hints, Round,
  read_round, load_round, read_file_id, first_round, load, dump, new,
}

-- An entry whose fields are in the ranges of their C++ types.
abbrev pub IsEntry : ℕ × FileSearchHint → Type 0
IsEntry (k, h) = (k < 2 ^ 64) × (h.offset < 2 ^ 32) × (h.size < 2 ^ 32)

-- The map that the loop makes.
unfoldable pub insert_all : Hints → Hints → Hints
insert_all acc [] = acc
insert_all acc ((k, h) ∷ m) = insert_all (insert_new k h acc) m

pub lookup-insert_new :
    (k j : ℕ) (h : FileSearchHint) (m : Hints)
    → lookup j (insert_new k h m) ≡ or_else (lookup j m) (if k == j then some h else none)
unfolding lookup insert_new
lookup-insert_new k j h [] = refl
lookup-insert_new k j h ((i, g) ∷ m) = ground (arith, lookup-insert_new k j h m)

or_else-lookup :
    (j k : ℕ) (h : FileSearchHint) (m : Hints)
    → or_else (if k == j then some h else none) (lookup j m) ≡ lookup j ((k, h) ∷ m)
unfolding lookup
or_else-lookup j k h m = ground arith

-- The first entry of a key counts.
pub lookup-insert_all :
    (j : ℕ) (acc m : Hints) → lookup j (insert_all acc m) ≡ or_else (lookup j acc) (lookup j m)
unfolding insert_all
lookup-insert_all j acc [] = unfold lookup in sym (or_else-none (lookup j acc))
lookup-insert_all j acc ((k, h) ∷ m) =
    lookup-insert_all j (insert_new k h acc) m
    ∙ ap (λ o. or_else o (lookup j m)) (lookup-insert_new k j h acc)
    ∙ or_else_assoc (lookup j acc) (if k == j then some h else none) (lookup j m)
    ∙ ap (or_else (lookup j acc)) (or_else-lookup j k h m)

hint_of-hint_bytes :
    (h : FileSearchHint) → h.offset < 2 ^ 32 → h.size < 2 ^ 32 → hint_of (hint_bytes h) ≡ h
unfolding hint_of
hint_of-hint_bytes h a b = rw (
  take-append_of_length 4 _ (to_bytes 4 h.size) (length-to_bytes 4 h.offset),
  drop-append_of_length 4 _ (to_bytes 4 h.size) (length-to_bytes 4 h.offset),
  from_bytes-to_bytes 4 h.offset (omega arith),
  from_bytes-to_bytes 4 h.size (omega arith),
)

length-hint_bytes : (h : FileSearchHint) → length (hint_bytes h) ≡ 8
length-hint_bytes h = simp (length-append, length-to_bytes)

-- What the variables hold after an entry was read.
abbrev pub round_of : ℕ → FileSearchHint → Round
round_of k h = record { size_of_key = 8; key = k; size_of_hint = 8; hint = h }

read_round_front :
    (r : Round) (k : ℕ) (h : FileSearchHint) (more : Bytes)
    → IsEntry (k, h)
    → read_round r
        (opened (to_bytes 1 8 ++ (to_bytes 8 k ++ (to_bytes 1 8 ++ (hint_bytes h ++ more)))))
      ≡ ok (round_of k h, opened more)
unfolding read_round
read_round_front r k h more (key_fits, offset_fits, size_fits) = rw (
  read_uint_front 1 8 r.size_of_key _ (omega arith),
  read_uint_front 8 k r.key _ (omega (arith, key_fits)),
  read_uint_front 1 8 r.size_of_hint _ (omega arith),
  read_object_front_of_length 8 (hint_bytes h) more (hint_bytes r.hint) (length-hint_bytes h)
      (length-hint_bytes r.hint),
  hint_of-hint_bytes h offset_fits size_fits,
)

load_round-dump_hints :
    (r : Round) (acc : Hints) (k : ℕ) (h : FileSearchHint) (m : Hints)
    → IsEntry (k, h)
    → load_round (r, acc) (opened (dump_hints ((k, h) ∷ m)))
      ≡ ok ((round_of k h, insert_new k h acc), opened (dump_hints m))
unfolding load_round dump_hints
load_round-dump_hints r acc k h m fits = rw (read_round_front r k h (dump_hints m) fits)

peek-dump_hints :
    (e : ℕ × FileSearchHint) (m : Hints)
    → peek (opened (dump_hints (e ∷ m))) ≡ opened (dump_hints (e ∷ m))
unfolding peek dump_hints to_bytes
peek-dump_hints (k, h) m = refl

last_round : Round → Hints → Round
last_round r [] = r
last_round r ((k, h) ∷ m) = last_round (round_of k h) m

while-dump_hints :
    (fuel : ℕ) (r : Round) (acc : Hints) (e : ℕ × FileSearchHint) (m : Hints)
    → All IsEntry (e ∷ m)
    → length m + 1 < fuel
    → while_not_eof load_round fuel (r, acc) (opened (dump_hints (e ∷ m)))
      ≡ ok (last_round r (e ∷ m), insert_all acc (e ∷ m))
unfolding insert_all last_round
while-dump_hints zero r acc e m h l = absurd (omega arith)
while-dump_hints (suc zero) r acc e m h l = absurd (omega arith)
while-dump_hints (suc (suc fuel)) r acc (k, g) [] h l =
    while_round load_round (suc fuel) (r, acc) (round_of k g, insert_new k g acc)
      (opened (dump_hints ((k, g) ∷ []))) (opened (dump_hints [])) refl
      (load_round-dump_hints r acc k g [] h.0)
    ∙ unfold dump_hints in
      rw peek_end (while_end load_round fuel (round_of k g, insert_new k g acc) _ refl)
while-dump_hints (suc (suc fuel)) r acc (k, g) (e ∷ m) h l =
    while_round load_round (suc fuel) (r, acc) (round_of k g, insert_new k g acc)
      (opened (dump_hints ((k, g) ∷ e ∷ m))) (opened (dump_hints (e ∷ m))) refl
      (load_round-dump_hints r acc k g (e ∷ m) h.0)
    ∙ rw (peek-dump_hints e m)
        (while-dump_hints (suc fuel) (round_of k g) (insert_new k g acc) e m h.1 (omega arith))

length-dump_hints : (m : Hints) → length m ≤ length (dump_hints m)
unfolding dump_hints
length-dump_hints [] = omega arith
length-dump_hints ((k, h) ∷ m) = omega (
  arith,
  length-append (to_bytes 1 8) (to_bytes 8 k ++ (to_bytes 1 8 ++ (hint_bytes h ++ dump_hints m))),
  length-to_bytes 1 8,
  length-append (to_bytes 8 k) (to_bytes 1 8 ++ (hint_bytes h ++ dump_hints m)),
  length-append (to_bytes 1 8) (hint_bytes h ++ dump_hints m),
  length-append (hint_bytes h) (dump_hints m),
  length-dump_hints m,
)

-- An index with an entry at least, whose fields fit, is dumped, and a new index that is loaded from
-- the file has its file id and answers every key as the map in the order in which it was dumped.
pub load-dump_index :
    (order : Hints → Hints) (t : SsTableIndex) (old_id : ℕ) (e : ℕ × FileSearchHint) (m : Hints)
    → t.file_id < 2 ^ 32
    → order t.map ≡ e ∷ m
    → All IsEntry (e ∷ m)
    → (bs : Bytes) × (t' : SsTableIndex) × (dump order true t ≡ ok bs)
      × (load (new old_id) (some bs) ≡ ok t')
      × (t'.file_id ≡ t.file_id)
      × ((k : ℕ) → lookup k t'.map ≡ lookup k (order t.map))
unfolding dump load new
load-dump_index order t old_id e m id_fits ordered fits =
    let bytes = to_bytes 1 4 ++ (to_bytes 4 t.file_id ++ dump_hints (e ∷ m)) in
    let read_id : read_file_id (old_id % 2 ^ 32) (opened bytes)
        ≡ ok (t.file_id, opened (dump_hints (e ∷ m))) =
      unfold read_file_id in
      rw (
        read_uint_front 1 4 0 _ (omega arith),
        read_uint_front 4 t.file_id (old_id % 2 ^ 32) _ (omega (arith, id_fits)),
      ) in
    let enough : length m + 1 < length bytes + 2 = omega (
      arith,
      length-append (to_bytes 1 4) (to_bytes 4 t.file_id ++ dump_hints (e ∷ m)),
      length-append (to_bytes 4 t.file_id) (dump_hints (e ∷ m)),
      length-dump_hints (e ∷ m),
    ) in
    (
      bytes,
      record { map = insert_all [] (e ∷ m); file_id = t.file_id },
      rw ordered refl,
      rw (read_id, while-dump_hints (length bytes + 2) first_round [] e m fits enough) refl,
      refl,
      λ k. lookup-insert_all k [] (e ∷ m) ∙ (unfold lookup in rw ordered refl),
    )
