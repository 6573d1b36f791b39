-- ===== src/Program/Remembering.antt =====
-- The client program run twice against one server: a put, and a get of its key.
use open_x_database.Shared.{ℕ, ◌+◌, ◌≡◌, ◌≤◌, ◌<◌, ◌^◌, List, [], ◌∷◌, length, arith, some, ok}
use open_x_database.Bytes.{Bytes}
use open_x_database.SsTableRow.{SsTableRow, put_row, get_row_size}
use open_x_database.SsTableRow.RoundTrip.{IsRow}
use open_x_database.SsTable.{dump_rows}
use open_x_database.MemTable.{npos}
use open_x_database.Compression.{Compressor}
use open_x_database.Hasher.{Hasher}
use open_x_database.Message
use open_x_database.Message.{request, response, ok_status, serialize_request, serialize_response}
use open_x_database.StorageEngine.State.{Platform, Engine}
use open_x_database.StorageEngine.Invariant.{Represents}
use open_x_database.StorageEngine.Handling.{handle-put-get}
use open_x_database.Networking.{ServerSession, writing}
use open_x_database.Program.{
  Variables, returned, text, print_response, print_content, get_response_status, main_client,
}
use open_x_database.Program.Talking.{served, talking, Asks, main_client-handle}

module _ (p : Platform) (c : Compressor) (h : Hasher) (e : Engine)
    (flushed unflushed : List SsTableRow) (r : Represents p c h e flushed unflushed) (k : ℕ)
    (v w : Bytes) where
  -- Let a server's engine represent its rows, and a put of a key below 2^64 - 1 come to it with a value
  -- that the compressor takes and gives back, in a row and a message that fit their fields, with rows in
  -- memory below 4 GiB and a 32-bit segment id left. Let one run of the client program ask for that put and
  -- a next one for a get of the key, all bytes between them and the server being transferred. Then
  -- both end with 0; the first prints the status `OK` and no content, and the second prints the status `OK`
  -- and the value, if it is not empty.
  pub main_client-put-get :
      c.compress v ≡ ok w
      → c.uncompress w ≡ ok v
      → IsRow p.runtime (put_row k w (h w))
      → k < npos
      → length (dump_rows unflushed) + get_row_size (put_row k w (h w)) < 2 ^ 32
      → e.segment_id + 1 < 2 ^ 32
      → 13 + length v < 2 ^ 32
      → length v ≤ p.runtime.max_size
      → (put_vars get_vars : Variables) → Asks put_vars Message.put k v
      → Asks get_vars Message.get k []
      → (description : Prim.Native.String.String)
      → (s₁ s₂ : ServerSession) × (served p e (serialize_request (request Message.put k v)) ≡ ok s₁)
        × (s₁.phase ≡ writing (serialize_response (response ok_status [])))
        × (main_client p.runtime.max_size
              (talking
                (serialize_request (request Message.put k v))
                (serialize_response (response ok_status [])))
              description
              (some put_vars)
            ≡ ok (returned 0 (text "Response status: " ∷ text "OK" ∷ text "\n" ∷ [])))
        × (served p s₁.database (serialize_request (request Message.get k [])) ≡ ok s₂)
        × (s₂.phase ≡ writing (serialize_response (response ok_status v)))
        × (main_client p.runtime.max_size
              (talking
                (serialize_request (request Message.get k []))
                (serialize_response (response ok_status v)))
              description
              (some get_vars)
            ≡ ok (returned 0 (text "Response status: " ∷ text "OK" ∷ text "\n" ∷ print_content v)))
  unfolding print_response get_response_status response
  main_client-put-get compressed restored row below bytes ids fits granted put_vars get_vars
        asks_put asks_get description =
      let (e', put_handled, get_handled) =
        handle-put-get p c h e flushed unflushed r k v w [] compressed restored row below bytes
          ids in
      let (s₁, first, kept, writes, prints) =
        main_client-handle p e Message.put k v ok_status [] tt row.key_fits fits granted tt
          (omega arith) (omega arith) e' put_handled put_vars asks_put description in
      let (s₂, second, kept', writes', prints') =
        main_client-handle p e' Message.get k [] ok_status v tt row.key_fits (omega arith)
          (omega arith) tt (omega (arith, fits)) granted e' get_handled get_vars asks_get
          description in
      (s₁, s₂, first, writes, prints, rw kept second, writes', prints')
