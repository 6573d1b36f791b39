-- ===== src/StorageEngine/Durability.antt =====
-- What `get` answers once a database has been closed and opened again.
use open_x_database.Shared.{
  ℕ, suc, ◌+◌, ◌≡◌, ◌<◌, ◌^◌, refl, ◌∙◌, ap, List, [], ◌∷◌, none, some, arith, All, ok, length,
}
use open_x_database.Shared.{Option-cases, inl, inr}
use open_x_database.Bytes.Stream.{opened}
use open_x_database.SsTableRow.{SsTableRow}
use open_x_database.SsTableRow.RoundTrip.{IsRow}
use open_x_database.SsTable.{dump_rows}
use open_x_database.MemTable
use open_x_database.MemTable.{MemTable, npos, live}
use open_x_database.WriteAheadLog
use open_x_database.Compression.{Compressor, create_compressor}
use open_x_database.Hasher.{Hasher, create_hasher}
use open_x_database.Options.{Options}
use open_x_database.Disk.{Disk, fresh}
use open_x_database.History.{last_row, last_row-All}
use open_x_database.StorageEngine.State.{Platform, Engine}
use open_x_database.StorageEngine.Opening.{open_engine, close_engine}
use open_x_database.StorageEngine.Access.{
  get, find_in_memory, find_anywhere, find_on_disk, open_value,
}
use open_x_database.StorageEngine.Settling.{IsOptions}
use open_x_database.StorageEngine.Persistence.{Traverses, Persists}
use open_x_database.StorageEngine.Surviving.{IsBelow, run-Persists}
use open_x_database.StorageEngine.Sessions.{
  Op, put_op, remove_op, run, row_of, rows_of, IsAdmitted, new_engine, new_disk,
  new_engine-Represents, open_engine-fresh, run-Represents,
}
use open_x_database.StorageEngine.Map.{
  last_put, IsKept, IsLive, Opens-answer, Opens-rows_of, IsLive-rows_of, last_row-key,
}
use open_x_database.StorageEngine.Reopening.{Reopened, open_engine-Reopened}

-- Where no row is a removal of the key, the reopened engine answers from the key's last row.
get-Reopened :
    (p : Platform) (o : Options) (rows : List SsTableRow) (e : Engine)
    → Reopened p o rows e
    → (k : ℕ) → k < npos
    → All (IsLive k) rows
    → get p k e ≡ (open_value e (live (last_row k rows)), e)
unfolding get find_in_memory find_anywhere find_on_disk MemTable.get
get-Reopened p o rows e r k below is_live = elim (Option-cases (last_row k rows)) [
  | inl missing ↦
      let nothing : live none ≡ none = unfold live in refl in
      ground (arith, r.kept.answers k, missing, nothing, r.no_other k below missing)
  | inr (row, here) ↦
      let found = last_row-All (IsLive k) k rows row is_live here (last_row-key k rows row here) in
      ground (arith, r.kept.answers k, here, found)
]

rows-IsRow :
    (p : Platform) (c : Compressor) (h : Hasher) (ops : List Op)
    → All (IsAdmitted p c h) ops
    → All (IsRow p.runtime) (rows_of c h ops)
rows-IsRow p c h [] a = tt
rows-IsRow p c h (put_op k v ∷ ops) a = (a.0.2, rows-IsRow p c h ops a.1)
rows-IsRow p c h (remove_op k ∷ ops) a = (a.0, rows-IsRow p c h ops a.1)

length-rows_of_ops :
    (c : Compressor) (h : Hasher) (ops : List Op) → length (rows_of c h ops) ≡ length ops
length-rows_of_ops c h [] = refl
length-rows_of_ops c h (op ∷ ops) = ap suc (length-rows_of_ops c h ops)

new_engine-Persists : (p : Platform) (o : Options) → Persists o (new_engine p o) []
unfolding MemTable.set_write_ahead_log WriteAheadLog.open_log dump_rows
new_engine-Persists p o = record {
  logged = (WriteAheadLog.open_log o.max_wal_buffer_size, refl, refl);
  bounded = tt;
  saved = refl;
  files = [];
  has_files = refl;
  good = tt;
  apart = tt;
}

-- On a new directory, with a hash function that exists, options in the ranges of their types and an
-- unordered map that is gone through entry by entry, let puts and removes come that the engine
-- admits, one at least and fewer than 2^32, all with keys below 2^64 - 1 and with rows of less than
-- 4 GiB together. All of them succeed. If the engine is then closed and the directory opened again,
-- with any options, that succeeds, and `get` of a key below 2^64 - 1 that none of them removes
-- answers the value of its last put, or that there is none; it changes nothing. Snapshots that the
-- puts cause in between do not matter.
pub get-reopened :
    (p : Platform) (o given : Options) (h : Hasher) (op : Op) (ops : List Op) (k : ℕ)
    → create_hasher p.hashes o.hash_type ≡ some h
    → IsOptions o
    → Traverses p.order
    → All
        (IsAdmitted p (create_compressor p.codecs p.runtime.max_size o.compression_type) h)
        (op ∷ ops)
    → All IsBelow (op ∷ ops)
    → All (IsKept k) (op ∷ ops)
    → k < npos
    → length (
        dump_rows
          (rows_of (create_compressor p.codecs p.runtime.max_size o.compression_type) h (op ∷ ops)))
      < 2 ^ 32
    → length (op ∷ ops) < 2 ^ 32
    → (e : Engine) × (e' : Engine) × (d : Disk) × (open_engine p o fresh
        ≡ (ok (new_engine p o), new_disk o))
      × (run p (op ∷ ops) (new_engine p o) ≡ (ok tt, e))
      × (open_engine p given (close_engine e) ≡ (ok e', d))
      × (get p k e' ≡ (ok (last_put k (op ∷ ops)), e'))
get-reopened p o given h op ops k hasher is_options traverses a below kept k_below bytes ids =
    let c = create_compressor p.codecs p.runtime.max_size o.compression_type in
    let r = new_engine-Represents p o h hasher in
    let all = op ∷ ops in
    let rows = rows_of c h all in
    let no_bytes : length (dump_rows []) + length (dump_rows rows) < 2 ^ 32 =
      unfold dump_rows in omega (arith, bytes) in
    let (e, flushed, unflushed, ran, r', grown) =
      run-Represents p c h all (new_engine p o) [] [] r a no_bytes (omega (arith, ids)) in
    let persists : Persists o e rows =
      run-Persists p c h o traverses all (new_engine p o) [] [] r (new_engine-Persists p o) a below
        no_bytes (omega (arith, ids)) e ran in
    let (e', d, opened, reopened) =
      open_engine-Reopened p o given e (row_of c h op) (rows_of c h ops) persists is_options
        (rows-IsRow p c h all a) (omega (arith, ids, length-rows_of_ops c h all)) in
    let hashes = reopened.hashes ∙ hasher in
    let live_rows = IsLive-rows_of p c h e' k reopened.compresses hashes all kept in
    let answer =
      Opens-answer e' _ _ (Opens-rows_of p c h e' k reopened.compresses hashes all a kept) in
    (
      e,
      e',
      d,
      open_engine-fresh p o,
      ran,
      opened,
      get-Reopened p o rows e' reopened k k_below live_rows ∙ ap (λ x. (x, e')) answer,
    )
