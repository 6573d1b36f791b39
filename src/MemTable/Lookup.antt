-- ===== src/MemTable/Lookup.antt =====
-- The ordered list of entries answers a key with the row that was inserted last.
use open_x_database.Shared.{ℕ, ◌+◌, ◌≡◌, ◌≤◌, ◌<◌, refl, List, [], ◌∷◌, ◌++◌, some, arith, All}
use open_x_database.Shared.{◌==◌, if◌then◌else◌}
use open_x_database.Shared.{◌%◌, ◌^◌, ◌∙◌, sym, length, length-append}
use open_x_database.SsTableRow.{SsTableRow}
use open_x_database.SsTableRow.{get_row_size}
use open_x_database.SsTable.{dump_rows}
use open_x_database.SsTable.Files.{length-dump_rows_snoc}
use open_x_database.History.{last_row, last_row-snoc}
use open_x_database.MemTable.{MemTable, Entries, insert, find, put_entry}

-- Every id is below `n`: an entry with the id `n` is newer than all.
abbrev pub IsFresh : ℕ → Entries → Type 0
IsFresh n m = All (λ e. e.0.id < n) m

-- The keys do not fall, and a row stands under its own key.
abbrev pub IsSortedFrom : ℕ → Entries → Type 0
IsSortedFrom lo [] = Unit {0}
IsSortedFrom lo ((ik, r) ∷ m) = (lo ≤ ik.key) × (r.key ≡ ik.key) × IsSortedFrom ik.key m

IsFresh-suc : (n : ℕ) (m : Entries) → IsFresh n m → IsFresh (n + 1) m
IsFresh-suc n [] h = tt
IsFresh-suc n (e ∷ m) h = (omega (arith, h.0), IsFresh-suc n m h.1)

pub IsFresh-insert :
    (n : ℕ) (k : ℕ) (r : SsTableRow) (m : Entries)
    → IsFresh n m
    → IsFresh (n + 1) (insert (record { id = n; key = k }) r m)
unfolding insert
IsFresh-insert n k r [] h = (omega arith, tt)
IsFresh-insert n k r ((jk, q) ∷ m) h = ground (arith, IsFresh-insert n k r m, IsFresh-suc n m)

pub IsSortedFrom-insert :
    (lo n : ℕ) (r : SsTableRow) (m : Entries)
    → lo ≤ r.key
    → IsSortedFrom lo m
    → IsSortedFrom lo (insert (record { id = n; key = r.key }) r m)
unfolding insert
IsSortedFrom-insert lo n r [] l h = (l, refl, tt)
IsSortedFrom-insert lo n r ((jk, q) ∷ m) l h = ground (arith, IsSortedFrom-insert jk.key n r m)

pub find-insert :
    (n : ℕ) (k j : ℕ) (r : SsTableRow) (m : Entries)
    → IsFresh n m
    → find j (insert (record { id = n; key = k }) r m) ≡ (if k == j then some r else find j m)
unfolding insert find
find-insert n k j r [] h = ground arith
find-insert n k j r ((jk, q) ∷ m) h = ground (arith, find-insert n k j r m)

-- The bytes of all entries' rows.
unfoldable pub weight : Entries → ℕ
weight [] = 0
weight ((ik, row) ∷ m) = get_row_size row + weight m

weight-insert :
    (n k : ℕ) (r : SsTableRow) (m : Entries)
    → IsFresh n m
    → weight (insert (record { id = n; key = k }) r m) ≡ get_row_size r + weight m
unfolding weight insert
weight-insert n k r [] h = refl
weight-insert n k r ((jk, q) ∷ m) h = ground (arith, weight-insert n k r m)

-- The entries and the counter that come of inserting `rows`, the oldest first.
pub record Holds (m : Entries) (counter : ℕ) (rows : List SsTableRow) : Type 0 where
  pub sorted : IsSortedFrom 0 m
  pub fresh : IsFresh counter m
  pub counted : counter ≡ length rows
  pub weighed : weight m ≡ length (dump_rows rows)
  pub answers : (k : ℕ) → find k m ≡ last_row k rows

pub Holds-empty : Holds [] 0 []
unfolding find last_row weight dump_rows
Holds-empty = record {
  sorted = tt;
  fresh = tt;
  counted = refl;
  weighed = refl;
  answers = λ k. refl;
}

pub Holds-insert :
    (m : Entries) (counter : ℕ) (rows : List SsTableRow) (r : SsTableRow)
    → Holds m counter rows
    → length rows + 1 < 2 ^ 64
    → Holds
        (insert (record { id = counter; key = r.key }) r m)
        ((counter + 1) % 2 ^ 64)
        (rows ++ r ∷ [])
Holds-insert m counter rows r h l = rw no_wrap (record {
  sorted = IsSortedFrom-insert 0 counter r m (omega arith) h.sorted;
  fresh = IsFresh-insert counter r.key r m h.fresh;
  counted = omega (arith, h.counted, length-append rows (r ∷ []));
  weighed =
      omega
        (arith, h.weighed, weight-insert counter r.key r m h.fresh, length-dump_rows_snoc rows r);
  answers = λ k.
      find-insert counter r.key k r m h.fresh ∙ rw (h.answers k) (sym (last_row-snoc k rows r));
})
  where
    no_wrap : (counter + 1) % 2 ^ 64 ≡ counter + 1
    no_wrap = omega (arith, h.counted)

abbrev pub Keeps : MemTable → List SsTableRow → Type 0
Keeps t rows = Holds t.map t.counter rows

-- Where a table holds fewer than 2^64 - 1 rows in order and answers every key with its last row,
-- it does so after one more `put` or `remove`, with the new row as the last.
pub put_entry-Keeps :
    (t : MemTable) (rows : List SsTableRow) (r : SsTableRow)
    → Keeps t rows
    → length rows + 1 < 2 ^ 64
    → Keeps (put_entry t r) (rows ++ r ∷ [])
unfolding put_entry
put_entry-Keeps t rows r h l = Holds-insert t.map t.counter rows r h l
