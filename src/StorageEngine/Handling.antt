-- ===== src/StorageEngine/Handling.antt =====
-- `handle`: no exception leaves it, and a client reads what it has written.
use open_x_database.Shared.{
  ℕ, ◌+◌, ◌≡◌, ◌≢◌, ◌<◌, ◌^◌, refl, sym, ◌∙◌, List, [], ◌++◌, Option, none, some, length, arith, ap,
}
use open_x_database.Shared.{Outcome, Error, ok, throws, undefined, diverges}
use open_x_database.Bytes.{Bytes}
use open_x_database.SsTableRow.{SsTableRow, UInt128, put_row, get_row_size}
use open_x_database.SsTableRow.RoundTrip.{IsRow}
use open_x_database.SsTable.{dump_rows}
use open_x_database.MemTable.{live, npos}
use open_x_database.Compression.{Compressor}
use open_x_database.Hasher.{Hasher}
use open_x_database.Message
use open_x_database.Message.{Request, Response, request, response}
use open_x_database.History.{or_else, last_row, last_row-append, last_row-snoc}
use open_x_database.StorageEngine.State.{Platform, Engine}
use open_x_database.StorageEngine.Access.{
  handle, dispatch, caught, answer, get, open_value, checksum_of, same_checksum,
}
use open_x_database.StorageEngine.Invariant.{Represents}
use open_x_database.StorageEngine.Answers.{get_lem}
use open_x_database.StorageEngine.Operations.{Stored, put_value-Stored}

caught-ne-throws : (o : Outcome Response × Engine) (x : Error) → (caught o).0 ≢ throws x
unfolding caught
caught-ne-throws (ok r, e) x = λ q. cc
caught-ne-throws (throws y, e) x = λ q. cc
caught-ne-throws (undefined, e) x = λ q. cc
caught-ne-throws (diverges, e) x = λ q. cc

-- Whatever the request and the engine's state are, `handle` throws nothing, as its `noexcept` says.
pub handle-ne-throws :
    (p : Platform) (r : Request) (e : Engine) (x : Error) → (handle p r e).0 ≢ throws x
unfolding handle
handle-ne-throws p r e x = caught-ne-throws (dispatch p r.request_type r.key r.value e) x

-- Where the last of all rows is a put row, it does not matter whether it is in memory or on disk.
or_else-live :
    (a b : Option SsTableRow) (row : SsTableRow) (x : Bytes × UInt128)
    → or_else a b ≡ some row
    → live (some row) ≡ some x
    → or_else (live a) (live b) ≡ some x
or_else-live none b row x e l =
    let none_first : live none ≡ none = unfold live in refl in rw (none_first, e) l
or_else-live (some a) b row x e l =
    let is_hit : live (some a) ≡ some x = ap live e ∙ l in rw is_hit refl

module _ (p : Platform) (c : Compressor) (h : Hasher) (e : Engine)
    (flushed unflushed : List SsTableRow) (r : Represents p c h e flushed unflushed) (k : ℕ)
    (v w : Bytes) where
  pub open_value-stored :
      (e' : Engine)
      → e'.compressor ≡ c
      → e'.hasher ≡ some h
      → c.uncompress w ≡ ok v
      → open_value e' (some (w, h w)) ≡ ok (some v)
  unfolding open_value checksum_of same_checksum
  open_value-stored e' compresses hashes u = ground (arith, compresses, hashes, u)

  get-Stored :
      (result : Outcome (Unit {0}) × Engine)
      → (s : Stored p c h e flushed unflushed (put_row k w (h w)) result) → k < npos
      → c.uncompress w ≡ ok v
      → get p k s.engine ≡ (ok (some v), s.engine)
  get-Stored result s below u =
      let row = put_row k w (h w) in
      let last : or_else (last_row k s.unflushed') (last_row k s.flushed') ≡ some row =
        sym (last_row-append k s.flushed' s.unflushed')
        ∙ ap (last_row k) s.rows
        ∙ last_row-snoc k (flushed ++ unflushed) row
        ∙ ground arith in
      let hit = or_else-live _ _ row (w, h w) last (unfold live in refl) in
      get_lem p c h s.engine s.flushed' s.unflushed' s.represents k below
      ∙ ap (λ o. (open_value s.engine o, s.engine)) hit
      ∙ ap (λ o. (o, s.engine))
          (open_value-stored s.engine s.represents.compresses s.represents.hashes u)

  -- A put request that comes to an engine, for a key below 2^64 - 1 and a value that the compressor
  -- takes and gives back, in a row that fits its fields and with rows in memory below 4 GiB and a
  -- 32-bit segment id left, is answered with `Ok`; a get request for the key that comes next is
  -- answered with `Ok` and the value, whether or not the put has caused a snapshot.
  pub handle-put-get :
      (ignored : Bytes)
      → c.compress v ≡ ok w
      → c.uncompress w ≡ ok v
      → IsRow p.runtime (put_row k w (h w))
      → k < npos
      → length (dump_rows unflushed) + get_row_size (put_row k w (h w)) < 2 ^ 32
      → e.segment_id + 1 < 2 ^ 32
      → (e' : Engine) × (handle p (request Message.put k v) e
          ≡ (ok (response Message.ok_status []), e'))
        × (handle p (request Message.get k ignored) e' ≡ (ok (response Message.ok_status v), e'))
  unfolding handle dispatch caught answer request
  handle-put-get ignored compressed restored fits below bytes ids =
      let s = put_value-Stored p c h e flushed unflushed r k v w compressed fits bytes ids in
      (s.engine, rw s.succeeds, rw (get-Stored _ s below restored))
