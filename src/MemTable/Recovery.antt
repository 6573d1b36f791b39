-- ===== src/MemTable/Recovery.antt =====
-- A log holds the rows of its session, and gives back a table that answers as the session's did.
use open_x_database.Shared.{
  ℕ, ◌+◌, ◌≡◌, ◌≢◌, ◌≤◌, ◌<◌, ◌^◌, refl, sym, ◌∙◌, true, List, [], ◌∷◌, ◌++◌, arith,
}
use open_x_database.Shared.{length, none, some, ok, diverges, All}
use open_x_database.Shared.{append_assoc, append-nil, length-append, replicate}
use open_x_database.Bytes.{Bytes, to_bytes, from_bytes}
use open_x_database.Bytes.Stream.{opened, read, read_object, read_uint, read_string, peek, resize}
use open_x_database.Bytes.Loop.{read_all, while_not_eof, read_all-ne-diverges}
use open_x_database.SsTableRow.{
  SsTableRow, EntryType, Runtime, entry_code, entry_of, no_checksum, deserialize_stream, put,
  remove, unnamed,
}
use open_x_database.SsTableRow.RoundTrip.{IsRow}
use open_x_database.WriteAheadLog
use open_x_database.WriteAheadLog.{WriteAheadLog, contents}
use open_x_database.SsTable.{dump_rows}
use open_x_database.SsTable.Files.{dump_rows-append}
use open_x_database.SsTable.Loading.{
  row_round, row_round-GetsOn, row_round-Advances, row_round-Ends, read_all-dump_rows,
}
use open_x_database.History.{steps, last_row}
use open_x_database.MemTable.{
  MemTable, empty, put_entry, set_write_ahead_log, restore_row, restore_round, restore_from_log,
  find,
}
use open_x_database.MemTable.Lookup.{Keeps, Holds-empty, Holds-insert, put_entry-Keeps}

-- The log of `t` will hold `rows` when it is closed.
abbrev pub IsLogged : MemTable → List SsTableRow → Type 0
IsLogged t rows = (w : WriteAheadLog) × (t.wal ≡ some w) × (contents w ≡ dump_rows rows)

pub put_entry-IsLogged :
    (t : MemTable) (rows : List SsTableRow) (r : SsTableRow)
    → IsLogged t rows
    → IsLogged (put_entry t r) (rows ++ r ∷ [])
unfolding put_entry WriteAheadLog.log dump_rows
put_entry-IsLogged t rows r (w, e, c) = (WriteAheadLog.log w r, rw e, logged)
  where
    logged : contents (WriteAheadLog.log w r) ≡ dump_rows (rows ++ r ∷ [])
    logged = rw (← append_assoc, c, dump_rows-append rows (r ∷ []), append-nil)

pub steps-Keeps :
    (step : MemTable → SsTableRow → MemTable)
    → ((t : MemTable) (rows : List SsTableRow) (r : SsTableRow)
        → Keeps t rows
        → length rows + 1 < 2 ^ 64
        → Keeps (step t r) (rows ++ r ∷ []))
    → (t : MemTable) (rows more : List SsTableRow) → Keeps t rows
    → length rows + length more < 2 ^ 64
    → Keeps (steps step t more) (rows ++ more)
steps-Keeps step keeps t rows [] h l = rw (append-nil rows) h
steps-Keeps step keeps t rows (r ∷ more) h l = rw (← append_assoc rows (r ∷ []) more) (
    steps-Keeps step keeps (step t r) (rows ++ r ∷ []) more (keeps t rows r h (omega arith))
      (omega (arith, length-append rows (r ∷ []))))

steps-IsLogged :
    (t : MemTable) (rows more : List SsTableRow)
    → IsLogged t rows
    → IsLogged (steps put_entry t more) (rows ++ more)
steps-IsLogged t rows [] h = rw (append-nil rows) h
steps-IsLogged t rows (r ∷ more) h =
    rw (← append_assoc rows (r ∷ []) more)
      (steps-IsLogged (put_entry t r) (rows ++ r ∷ []) more (put_entry-IsLogged t rows r h))

pub restore_row-Keeps :
    (t : MemTable) (rows : List SsTableRow) (r : SsTableRow)
    → Keeps t rows
    → length rows + 1 < 2 ^ 64
    → Keeps (restore_row t r) (rows ++ r ∷ [])
unfolding restore_row
restore_row-Keeps t rows r h l = Holds-insert t.map t.counter rows r h l

-- A file of rows, one at least, is restored row by row.
pub restore-dump_rows :
    (rt : Runtime) (r : SsTableRow) (rs : List SsTableRow)
    → All (IsRow rt) (r ∷ rs)
    → restore_from_log rt empty (dump_rows (r ∷ rs)) ≡ ok (steps restore_row empty (r ∷ rs))
unfolding restore_from_log restore_round
restore-dump_rows rt r rs h = read_all-dump_rows rt restore_row empty r rs h

-- A session's table, from nothing, with a log.
abbrev pub session : ℕ → List SsTableRow → MemTable
session buffer_size rows = steps put_entry (set_write_ahead_log empty buffer_size) rows

-- Let a table with an empty log take one row or more, fewer than 2^64, which fit their fields. The
-- table that is restored from its closed log answers every key as the table does: with the last
-- row that was put for it.
pub restore-session :
    (rt : Runtime) (buffer_size : ℕ) (r : SsTableRow) (rs : List SsTableRow)
    → All (IsRow rt) (r ∷ rs)
    → length rs + 1 < 2 ^ 64
    → (w : WriteAheadLog) × (t : MemTable) × ((session buffer_size (r ∷ rs)).wal ≡ some w)
      × (restore_from_log rt empty (contents w) ≡ ok t)
      × ((k : ℕ)
          → (find k t.map ≡ find k (session buffer_size (r ∷ rs)).map)
            × (find k t.map ≡ last_row k (r ∷ rs)))
restore-session rt buffer_size r rs h l =
    let (w, at, bytes) =
      steps-IsLogged (set_write_ahead_log empty buffer_size) [] (r ∷ rs) opened_log in
    let kept =
      steps-Keeps put_entry put_entry-Keeps (set_write_ahead_log empty buffer_size) [] (r ∷ rs)
        opened_keeps (omega arith) in
    let restored =
      steps-Keeps restore_row restore_row-Keeps empty [] (r ∷ rs) Holds-empty (omega arith) in
    (
      w,
      steps restore_row empty (r ∷ rs),
      at,
      rw bytes (restore-dump_rows rt r rs h),
      λ k. (restored.answers k ∙ sym (kept.answers k), restored.answers k),
    )
  where
    opened_log : IsLogged (set_write_ahead_log empty buffer_size) []
    opened_log =
        unfold set_write_ahead_log WriteAheadLog.open_log dump_rows in
        (WriteAheadLog.open_log buffer_size, refl, refl)

    opened_keeps : Keeps (set_write_ahead_log empty buffer_size) []
    opened_keeps = unfold set_write_ahead_log in Holds-empty

-- On any file and any table the loop of `restoreFromLog` ends: the fuel is never used up.
pub restore-ne-diverges :
    (rt : Runtime) (t : MemTable) (bs : Bytes) → restore_from_log rt t bs ≢ diverges
unfolding restore_from_log restore_round
restore-ne-diverges rt t bs =
    read_all-ne-diverges (row_round rt restore_row) (row_round-GetsOn rt restore_row)
      (row_round-Advances rt restore_row) (row_round-Ends rt restore_row) t bs

-- What stands in the uninitialized byte is a value of the enumeration.
abbrev pub IsByteEntry : EntryType → Type 0
IsByteEntry put = Unit {0}
IsByteEntry remove = Unit {0}
IsByteEntry (unnamed b) = (2 ≤ b) × (b < 256)

kept_entry : (g : EntryType) → IsByteEntry g → entry_of (from_bytes (to_bytes 1 (entry_code g))) ≡ g
unfolding entry_of from_bytes to_bytes
kept_entry put h = refl
kept_entry remove h = refl
kept_entry (unnamed b) h = ground arith

-- The row that no one put: it has the key 0 and whatever stood in the uninitialized `entryType`.
abbrev pub phantom : EntryType → SsTableRow
phantom g = record { key = 0; value = []; entry_type = g; checksum = no_checksum }

-- Where a stream has nothing left, every variable keeps what it had.
deserialize_stream_end :
    (rt : Runtime)
    → IsByteEntry rt.garbage
    → deserialize_stream rt (opened [])
      ≡ ok (phantom rt.garbage, record { rest = []; eof = true; fail = true })
unfolding deserialize_stream read_object read_uint read_string read resize to_bytes from_bytes
    replicate
deserialize_stream_end rt h = ground (arith, kept_entry rt.garbage h)

-- Where the uninitialized byte holds a value of the enumeration, an empty log gives a table with a
-- row for the key 0, of that entry type, which no one put, and with no other key.
pub restore_empty_log :
    (rt : Runtime)
    → IsByteEntry rt.garbage
    → (t : MemTable) × (restore_from_log rt empty [] ≡ ok t)
      × (find 0 t.map ≡ some (phantom rt.garbage))
      × ((k : ℕ) → 0 < k → find k t.map ≡ none)
unfolding restore_from_log restore_round read_all while_not_eof peek restore_row find
restore_empty_log rt h = (
  restore_row empty (phantom rt.garbage),
  rw (deserialize_stream_end rt h, while_not_eof),
  refl,
  λ k l. ground arith,
)
