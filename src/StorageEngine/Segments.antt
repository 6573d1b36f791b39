-- ===== src/StorageEngine/Segments.antt =====
-- A new segment takes over the keys of its rows, and leaves the places of all other keys alone.
use open_x_database.Shared.{ℕ, ◌+◌, ◌%◌, ◌≡◌, ◌<◌, ◌^◌, refl, ◌∙◌, true, false, List, [], ◌∷◌}
use open_x_database.Shared.{Option, none, some, length, arith, Option-cases}
use open_x_database.Shared.{inl, inr}
use open_x_database.SsTableRow.{SsTableRow, get_row_size}
use open_x_database.SsTableRow.RoundTrip.{IsRow}
use open_x_database.SsTable.{SsTable, dump_rows}
use open_x_database.SsTableIndex
use open_x_database.SsTableIndex.{
  SsTableIndex, FileSearchHint, of_table, fill, new, insert, file_hint,
}
use open_x_database.SsTableIndex.Lookup.{IsAt, Leads, nowhere, to_row, get-of_table}
use open_x_database.Index.{Index, push, Directory}
use open_x_database.Index.Lookup.{get-push_found, get-push_missing}
use open_x_database.BloomFilter
use open_x_database.BloomFilter.{Bits}
use open_x_database.BloomFilter.Membership.{
  probably_contains-add, probably_contains-add_other, length-add,
}
use open_x_database.Disk.{segment_name, write_file}
use open_x_database.Disk.Names.{read-write_segment}
use open_x_database.History.{last_row, or_else}
use open_x_database.StorageEngine.State.{Platform, num_hashes}
use open_x_database.StorageEngine.Snapshot.{add_rows}
use open_x_database.StorageEngine.Invariant.{HasPlace, OnDisk}

file_id-fill :
    (offset : ℕ) (rs : List SsTableRow) (t : SsTableIndex) → (fill offset rs t).file_id ≡ t.file_id
unfolding fill insert
file_id-fill offset [] t = refl
file_id-fill offset (r ∷ rs) t =
    file_id-fill ((offset + get_row_size r) % 2 ^ 32) rs
      (insert t r.key (file_hint offset (get_row_size r)))

pub file_id-of_table : (id : ℕ) (table : SsTable) → id < 2 ^ 32 → (of_table id table).file_id ≡ id
unfolding of_table new
file_id-of_table id table l = file_id-fill 0 table.rows (new id) ∙ mod_fits
  where
    mod_fits : id % 2 ^ 32 ≡ id
    mod_fits = omega arith

module _ (p : Platform) where
  pub length-add_rows :
      (rs : List SsTableRow) (bits : Bits) → length (add_rows p rs bits) ≡ length bits
  unfolding add_rows
  length-add_rows [] bits = refl
  length-add_rows (r ∷ rs) bits =
      length-add_rows rs (BloomFilter.add p.hashes num_hashes bits r.key)
      ∙ length-add p.hashes num_hashes bits r.key

  passes-add_rows_old :
      (k : ℕ) (rs : List SsTableRow) (bits : Bits)
      → BloomFilter.probably_contains p.hashes num_hashes bits k ≡ true
      → BloomFilter.probably_contains p.hashes num_hashes (add_rows p rs bits) k ≡ true
  unfolding add_rows
  passes-add_rows_old k [] bits h = h
  passes-add_rows_old k (r ∷ rs) bits h =
      passes-add_rows_old k rs (BloomFilter.add p.hashes num_hashes bits r.key)
        (probably_contains-add_other p.hashes num_hashes bits k r.key h)

  -- Every key of a row passes the filter.
  passes-add_rows :
      (k : ℕ) (rs : List SsTableRow) (bits : Bits) (r : SsTableRow)
      → 0 < length bits
      → last_row k rs ≡ some r
      → BloomFilter.probably_contains p.hashes num_hashes (add_rows p rs bits) k ≡ true
  unfolding add_rows last_row
  passes-add_rows k [] bits r l e = cc
  passes-add_rows k (q ∷ rs) bits r l e = elim (Option-cases (last_row k rs)) [
    | inr (r', later) ↦
        passes-add_rows k rs (BloomFilter.add p.hashes num_hashes bits q.key) r'
          (omega (arith, length-add p.hashes num_hashes bits q.key)) later
    | inl none_later ↦
        passes-add_rows_old k rs (BloomFilter.add p.hashes num_hashes bits q.key)
          (added (has_key none_later))
  ]
    where
      has_key : last_row k rs ≡ none → q.key ≡ k
      has_key none_later = ground arith

      added :
          q.key ≡ k
          → BloomFilter.probably_contains p.hashes num_hashes
              (BloomFilter.add p.hashes num_hashes bits q.key)
              k
            ≡ true
      added same = rw (← same) (probably_contains-add p.hashes num_hashes bits q.key l)

-- The segment `next` is written from `table`.
module _ (p : Platform) (x : Index) (bits : Bits) (d : Directory) (next : ℕ) (table : SsTable)
    (id_fits : next < 2 ^ 32) (bytes_fit : length (dump_rows table.rows) < 2 ^ 32)
    (has_bits : 0 < length bits) where
  abbrev index' : Index
  index' = push x (of_table next table)

  abbrev files' : Directory
  files' = write_file (segment_name next) (dump_rows table.rows) d

  -- A row of the new segment.
  new_place :
      (k : ℕ) (r : SsTableRow) (h : FileSearchHint)
      → last_row k table.rows ≡ some r
      → SsTableIndex.get (of_table next table) k ≡ (true, h)
      → IsAt (dump_rows table.rows) r h
      → IsRow p.runtime r
      → HasPlace p index' (add_rows p table.rows bits) files' (next + 1) k r
  new_place k r h e found at fits = record {
    hint = record { file_id = next; offset = h.offset; size = h.size };
    indexed =
        get-push_found x (of_table next table) k h found ∙ rw (file_id-of_table next table id_fits);
    written = omega arith;
    bytes = dump_rows table.rows;
    in_file =
        read-write_segment next next (dump_rows table.rows) d (omega arith) (omega arith)
        ∙ ground arith;
    place = at;
    passes = passes-add_rows p k table.rows bits r has_bits e;
    is_row = fits;
  }

  -- A key that has no row in the new segment.
  old_place :
      (k : ℕ) (h : FileSearchHint) (old : Option SsTableRow)
      → SsTableIndex.get (of_table next table) k ≡ (false, h)
      → OnDisk p x bits d next k old
      → OnDisk p index' (add_rows p table.rows bits) files' (next + 1) k old
  old_place k h none missing was = rw (get-push_missing x (of_table next table) k h missing) was
  old_place k h (some r) missing was = record {
    hint = was.hint;
    indexed = get-push_missing x (of_table next table) k h missing ∙ was.indexed;
    written = omega (arith, was.written);
    bytes = was.bytes;
    in_file =
        read-write_segment next was.hint.file_id (dump_rows table.rows) d (omega arith)
          (omega (arith, was.written))
        ∙ ground (arith, was.written, was.in_file);
    place = was.place;
    passes = passes-add_rows_old p k table.rows bits was.passes;
    is_row = was.is_row;
  }

  by_answer :
      (k : ℕ) (new old : Option SsTableRow)
      → last_row k table.rows ≡ new
      → Leads (dump_rows table.rows) (SsTableIndex.get (of_table next table) k) new
      → ((r : SsTableRow) → last_row k table.rows ≡ some r → IsRow p.runtime r)
      → OnDisk p x bits d next k old
      → OnDisk p index' (add_rows p table.rows bits) files' (next + 1) k (or_else new old)
  by_answer k none old e (nowhere missing) fits was = old_place k _ old missing was
  by_answer k (some q) old e (to_row r h found at) fits was = new_place k r h e found at (fits r e)

  -- Behind the new segment a key has its last row there, or the place that it had.
  pub OnDisk-push :
      (k : ℕ) (flushed : List SsTableRow)
      → ((r : SsTableRow) → last_row k table.rows ≡ some r → IsRow p.runtime r)
      → OnDisk p x bits d next k (last_row k flushed)
      → OnDisk p index'
          (add_rows p table.rows bits)
          files'
          (next + 1)
          k
          (or_else (last_row k table.rows) (last_row k flushed))
  OnDisk-push k flushed fits was =
      by_answer k (last_row k table.rows) (last_row k flushed) refl
        (get-of_table next k table bytes_fit) fits was
