-- ===== src/StorageEngine/Linearizing.antt =====
-- A `get` among the writes of other threads, against the sequence of the writes.
use open_x_database.Shared.{
  ℕ, ◌+◌, ◌≡◌, ◌≤◌, ◌<◌, ◌^◌, sym, ◌∙◌, ap, List, [], ◌++◌, Option, some, arith, All, ok, length,
  Outcome,
}
use open_x_database.Shared.{append_assoc, append-nil, length-append}
use open_x_database.Bytes.{Bytes}
use open_x_database.SsTableRow.{SsTableRow, UInt128}
use open_x_database.SsTable.{dump_rows}
use open_x_database.SsTable.Files.{dump_rows-append}
use open_x_database.MemTable.{npos, live}
use open_x_database.Compression.{Compressor, create_compressor}
use open_x_database.Hasher.{Hasher, create_hasher}
use open_x_database.Options.{Options}
use open_x_database.History.{last_row}
use open_x_database.StorageEngine.State.{Platform, Engine}
use open_x_database.StorageEngine.Invariant.{Represents}
use open_x_database.StorageEngine.Sessions.{
  Op, rows_of, run, IsAdmitted, new_engine, new_engine-Represents, run-Represents, run-ids,
}
use open_x_database.StorageEngine.Map.{
  IsKept, IsLive-rows_of, All-behind, last_put, Opens-answer, Opens-rows_of,
}
use open_x_database.StorageEngine.Threads.{ready, found, Event, play, writes, looks, finished}
use open_x_database.StorageEngine.Tracking.{Since}
use open_x_database.StorageEngine.Playing.{rows_of-append, All-front, play-Played, Played-Ended}

-- The answer of a search that has ended, from the writes up to some time.
answered :
    (p : Platform) (c : Compressor) (h : Hasher) (k : ℕ) (ops ops' : List Op) (e : Engine)
    (flushed unflushed : List SsTableRow)
    → Represents p c h e flushed unflushed
    → All (IsAdmitted p c h) (ops ++ ops')
    → All (IsKept k) (ops ++ ops')
    → (r : Option SsTableRow) (o : Outcome (Option (Bytes × UInt128)))
    → (since : Since c h k (rows_of c h ops) ops' r) → o ≡ ok (live r)
    → finished e o ≡ ok (last_put k (ops ++ since.before))
unfolding finished
answered p c h k ops ops' e flushed unflushed rep a kept r o since same =
    let regrouped : ops ++ ops' ≡ (ops ++ since.before) ++ since.after =
      ap (λ xs. ops ++ xs) since.split ∙ sym (append_assoc ops since.before since.after) in
    let a' = All-front (IsAdmitted p c h) (ops ++ since.before) since.after (rw (← regrouped) a) in
    let kept' = All-front (IsKept k) (ops ++ since.before) since.after (rw (← regrouped) kept) in
    let row : r ≡ last_row k (rows_of c h (ops ++ since.before)) =
      since.last ∙ ap (last_row k) (sym (rows_of-append c h ops since.before)) in
    rw (same, row)
      (Opens-answer e _ _
        (Opens-rows_of p c h e k rep.compresses rep.hashes (ops ++ since.before) a' kept'))

-- On a new directory, with a hash function that exists, let puts and removes come that the engine
-- admits, and then the steps of a `get`, four of them at least, with further such writes of other
-- threads before, between and behind them; fewer than 2^32 writes together, with rows of less than
-- 4 GiB. For a key below 2^64 - 1 that none of them removes, all writes succeed, the search of the
-- `get` ends, and its answer is the value of the key's last put among the writes before the steps and
-- some first ones of the others, or that there is none: the answer of a `get` that is done at once, at
-- some time between.
pub play-linearizes :
    (p : Platform) (o : Options) (h : Hasher) (ops : List Op) (evs : List Event) (k : ℕ)
    → create_hasher p.hashes o.hash_type ≡ some h
    → All
        (IsAdmitted p (create_compressor p.codecs p.runtime.max_size o.compression_type) h)
        (ops ++ writes evs)
    → All (IsKept k) (ops ++ writes evs)
    → k < npos
    → 4 ≤ looks evs
    → length (
        dump_rows (
          rows_of
            (create_compressor p.codecs p.runtime.max_size o.compression_type)
            h
            (ops ++ writes evs)))
      < 2 ^ 32
    → length (ops ++ writes evs) < 2 ^ 32
    → (e : Engine) × (e' : Engine) × (hit : Outcome (Option (Bytes × UInt128))) × (before : List Op)
      × (after : List Op) × (run p ops (new_engine p o) ≡ (ok tt, e))
      × (play p k evs ready e ≡ (ok tt, (found hit, e')))
      × (writes evs ≡ before ++ after)
      × (finished e' hit ≡ ok (last_put k (ops ++ before)))
play-linearizes p o h ops evs k hasher a kept below enough bytes ids =
    let c = create_compressor p.codecs p.runtime.max_size o.compression_type in
    let r = new_engine-Represents p o h hasher in
    let sizes : length (dump_rows (rows_of c h (ops ++ writes evs)))
        ≡ length (dump_rows (rows_of c h ops)) + length (dump_rows (rows_of c h (writes evs))) =
      rw
        (
          rows_of-append c h ops (writes evs),
          dump_rows-append (rows_of c h ops) (rows_of c h (writes evs)),
        )
        (length-append (dump_rows (rows_of c h ops)) (dump_rows (rows_of c h (writes evs)))) in
    let count = length-append ops (writes evs) in
    let a₀ = All-front (IsAdmitted p c h) ops (writes evs) a in
    let kept₀ = All-front (IsKept k) ops (writes evs) kept in
    let no_bytes : length (dump_rows []) + length (dump_rows (rows_of c h ops)) < 2 ^ 32 =
      unfold dump_rows in omega (arith, bytes, sizes) in
    let (e, flushed, unflushed, ran, r', rows) =
      run-Represents p c h ops (new_engine p o) [] [] r a₀ no_bytes (omega (arith, ids, count)) in
    let taken =
      run-ids p c h ops (new_engine p o) [] [] r a₀ no_bytes (omega (arith, ids, count)) e ran in
    let split_bytes : length (dump_rows (rows_of c h ops))
        ≡ length (dump_rows flushed) + length (dump_rows unflushed) =
      rw (← rows, dump_rows-append flushed unflushed)
        (length-append (dump_rows flushed) (dump_rows unflushed)) in
    let lives = IsLive-rows_of p c h e k r'.compresses r'.hashes ops kept₀ in
    let played =
      play-Played p c h k below (rows_of c h ops) lives evs [] ready e flushed unflushed r'
        (rows ∙ sym (append-nil (rows_of c h ops))) tt tt
        (All-behind (IsAdmitted p c h) ops (writes evs) a)
        (All-behind (IsKept k) ops (writes evs) kept) (omega (arith, bytes, sizes, split_bytes))
        (omega (arith, ids, count, taken)) in
    let end = Played-Ended p c h k below (rows_of c h ops) lives evs _ played enough in
    (
      e,
      played.engine,
      end.hit,
      end.since.before,
      end.since.after,
      ran,
      end.succeeds,
      end.since.split,
      answered p c h k ops (writes evs) played.engine played.flushed played.unflushed
          played.represents a kept end.row end.hit end.since end.same,
    )
