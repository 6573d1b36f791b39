-- ===== src/SsTableIndex/Lookup.antt =====
-- An index that was built from a table leads from a key to the bytes of its last row.
use open_x_database.Shared.{
  ℕ, ◌+◌, ◌%◌, ◌^◌, ◌≡◌, ◌<◌, refl, sym, ◌∙◌, Bool, true, false, List, [], ◌∷◌, ◌++◌, Option,
}
use open_x_database.Shared.{
  none, some, arith, ◌==◌, if◌then◌else◌, length, length-append, append_assoc, ap,
}
use open_x_database.Shared.{inl, inr, Option-cases}
use open_x_database.Bytes.{Bytes}
use open_x_database.SsTableRow.{SsTableRow, serialize, get_row_size}
use open_x_database.SsTableRow.RoundTrip.{length-serialize}
use open_x_database.SsTable.{SsTable, dump_rows}
use open_x_database.History.{last_row}
use open_x_database.SsTableIndex.{
  SsTableIndex, FileSearchHint, Hints, file_hint, lookup, insert_or_assign, insert, get, fill, new,
  of_table, no_hint,
}

pub lookup-insert_or_assign :
    (k j : ℕ) (h : FileSearchHint) (m : Hints)
    → lookup j (insert_or_assign k h m) ≡ (if k == j then some h else lookup j m)
unfolding lookup insert_or_assign
lookup-insert_or_assign k j h [] = refl
lookup-insert_or_assign k j h ((i, g) ∷ m) = ground (arith, lookup-insert_or_assign k j h m)

-- Where the bytes of `r` stand in a file.
pub record IsAt (bytes : Bytes) (r : SsTableRow) (h : FileSearchHint) : Type 0 where
  pub before : Bytes
  pub behind : Bytes
  pub split : bytes ≡ before ++ (serialize r ++ behind)
  pub at_offset : h.offset ≡ length before
  pub of_size : h.size ≡ get_row_size r

-- A key of no row keeps what it had.
pub fill-none :
    (offset k : ℕ) (rs : List SsTableRow) (t : SsTableIndex)
    → last_row k rs ≡ none
    → lookup k (fill offset rs t).map ≡ lookup k t.map
unfolding fill last_row insert
fill-none offset k [] t e = refl
fill-none offset k (r ∷ rs) t e =
    let size = get_row_size r in
    ground (
      arith,
      fill-none ((offset + size) % 2 ^ 32) k rs (insert t r.key (file_hint offset size)),
      lookup-insert_or_assign r.key k (file_hint offset size) t.map,
    )

-- The first row `q` of the file, behind the bytes `start`.
module _ (start : Bytes) (q : SsTableRow) (rs : List SsTableRow) (t : SsTableIndex)
    (fits : length start + length (dump_rows (q ∷ rs)) < 2 ^ 32) where
  length-front : length start + get_row_size q + length (dump_rows rs) < 2 ^ 32
  unfolding dump_rows
  length-front = omega (arith, length-append (serialize q) (dump_rows rs), length-serialize q)

  length-behind : length (start ++ serialize q) + length (dump_rows rs) < 2 ^ 32
  length-behind = omega (arith, length-front, length-append start (serialize q), length-serialize q)

  placed : SsTableIndex
  placed = insert t q.key (file_hint (length start) (get_row_size q))

  fill_round : fill (length start) (q ∷ rs) t ≡ fill (length (start ++ serialize q)) rs placed
  unfolding fill placed
  fill_round = ap (λ n. fill n rs placed) offset_behind
    where
      offset_behind : (length start + get_row_size q) % 2 ^ 32 ≡ length (start ++ serialize q)
      offset_behind =
          omega (arith, length-front, length-append start (serialize q), length-serialize q)

  IsAt-front : IsAt (start ++ dump_rows (q ∷ rs)) q (file_hint (length start) (get_row_size q))
  unfolding file_hint dump_rows
  IsAt-front = record {
    before = start;
    behind = dump_rows rs;
    split = refl;
    at_offset = omega (arith, length-front);
    of_size = omega (arith, length-front);
  }

  IsAt-behind :
      (r : SsTableRow) (h : FileSearchHint)
      → IsAt ((start ++ serialize q) ++ dump_rows rs) r h
      → IsAt (start ++ dump_rows (q ∷ rs)) r h
  unfolding dump_rows
  IsAt-behind r h a = record {
    before = a.before;
    behind = a.behind;
    split = sym (append_assoc start (serialize q) (dump_rows rs)) ∙ a.split;
    at_offset = a.at_offset;
    of_size = a.of_size;
  }

  lookup-placed :
      (k : ℕ)
      → lookup k placed.map
        ≡ (if q.key == k then some (file_hint (length start) (get_row_size q)) else lookup k t.map)
  unfolding placed insert
  lookup-placed k =
      lookup-insert_or_assign q.key k (file_hint (length start) (get_row_size q)) t.map

  -- No later row has the key.
  found_first :
      (k : ℕ) (r : SsTableRow)
      → last_row k rs ≡ none
      → last_row k (q ∷ rs) ≡ some r
      → (h : FileSearchHint) × (lookup k (fill (length start) (q ∷ rs) t).map ≡ some h)
        × IsAt (start ++ dump_rows (q ∷ rs)) r h
  unfolding last_row
  found_first k r none_later e = (
    file_hint (length start) (get_row_size q),
    rw (fill_round, fill-none (length (start ++ serialize q)) k rs placed none_later)
        (ground (arith, lookup-placed k)),
    rw (← is_first) IsAt-front,
  )
    where
      is_first : q ≡ r
      is_first = ground arith

  last_behind :
      (k : ℕ) (r r' : SsTableRow)
      → last_row k rs ≡ some r'
      → last_row k (q ∷ rs) ≡ some r
      → last_row k rs ≡ some r
  unfolding last_row
  last_behind k r r' later e = ground arith

-- A key of some row gets the place of the last.
fill-some :
    (start : Bytes) (k : ℕ) (rs : List SsTableRow) (t : SsTableIndex) (r : SsTableRow)
    → length start + length (dump_rows rs) < 2 ^ 32
    → last_row k rs ≡ some r
    → (h : FileSearchHint) × (lookup k (fill (length start) rs t).map ≡ some h)
      × IsAt (start ++ dump_rows rs) r h
fill-some start k [] t r l e = absurd (unfold last_row in cc)
fill-some start k (q ∷ rs) t r l e = elim (Option-cases (last_row k rs)) [
  | inl none_later ↦ found_first start q rs t l k r none_later e
  | inr (r', later) ↦
      let (h, found, at) =
        fill-some (start ++ serialize q) k rs (placed start q rs t l) r
          (length-behind start q rs t l) (last_behind start q rs t l k r r' later e) in
      (h, rw (fill_round start q rs t l) found, IsAt-behind start q rs t l r h at)
]

-- The answer of an index that was built from a table.
pub data Leads (bytes : Bytes) (answer : Bool × FileSearchHint) : Option SsTableRow → Type 0 where
  nowhere : answer ≡ (false, no_hint) → Leads bytes answer none
  to_row :
      (r : SsTableRow) (h : FileSearchHint)
      → answer ≡ (true, h)
      → IsAt bytes r h
      → Leads bytes answer (some r)

-- Where the table's file is below 4 GiB, its index finds the keys of its rows and no others, and
-- the hint of a key is the place of the bytes of its last row in the file.
pub get-of_table :
    (file_id k : ℕ) (table : SsTable)
    → length (dump_rows table.rows) < 2 ^ 32
    → Leads (dump_rows table.rows) (get (of_table file_id table) k) (last_row k table.rows)
unfolding get of_table lookup new
get-of_table file_id k table l = elim (Option-cases (last_row k table.rows)) [
  | inl e ↦ rw e (nowhere (rw (fill-none 0 k table.rows (new file_id) e)))
  | inr (r, e) ↦
      let (h, found, at) = fill-some [] k table.rows (new file_id) r (omega arith) e in
      rw e (to_row r h (rw found) at)
]
