-- ===== src/Message.antt =====
-- include/omx/Request.h, include/omx/Response.h, src/Request.cpp and src/Response.cpp: the messages
-- between client and server. The object representation of a `Key` is its eight-byte id.
pub mod RoundTrip
use open_x_database.Shared.{
  ℕ, ◌+◌, ◌%◌, ◌^◌, Bool, ◌&&◌, List, [], ◌∷◌, ◌++◌, length, ◌==◌, if◌then◌else◌, true, false,
}
use open_x_database.Shared.{Outcome, take}
use open_x_database.Bytes.{Bytes, to_bytes}
use open_x_database.Bytes.Equality.{same_bytes}
use open_x_database.Bytes.Stream.{
  InStream, Reader, opened, pure, ◌>>=◌, read_uint, read_string, result,
}

pub data RequestType : Type 0 where
  get put delete : RequestType
  unnamed : ℕ → RequestType

pub data ResponseStatus : Type 0 where
  ok_status not_found invalid_request_type unknown_error : ResponseStatus
  unnamed : ℕ → ResponseStatus

abbrev pub request_code : RequestType → ℕ
request_code get = 0
request_code put = 1
request_code delete = 2
request_code (RequestType.unnamed b) = b

unfoldable pub request_of : ℕ → RequestType
request_of b =
    if b == 0 then get else if b == 1 then put else if b == 2 then delete else RequestType.unnamed b

abbrev pub status_code : ResponseStatus → ℕ
status_code ok_status = 0
status_code not_found = 1
status_code invalid_request_type = 2
status_code unknown_error = 3
status_code (ResponseStatus.unnamed b) = b

unfoldable pub status_of : ℕ → ResponseStatus
status_of b =
    if b == 0
    then ok_status
    else if b == 1
    then not_found
    else if b == 2
    then invalid_request_type
    else if b == 3
    then unknown_error
    else ResponseStatus.unnamed b

pub record Request : Type 0 where
  pub content_length : ℕ
  pub request_type : RequestType
  pub key : ℕ
  pub value : Bytes

pub record Response : Type 0 where
  pub content_length : ℕ
  pub status : ResponseStatus
  pub value : Bytes

-- The constructors. `contentLength` is a `uint32_t` that sums wrap in.
unfoldable pub request : RequestType → ℕ → Bytes → Request
request t k v = record {
  content_length = (1 + 8 + 4 + length v) % 2 ^ 32;
  request_type = t;
  key = k;
  value = v;
}

unfoldable pub response : ResponseStatus → Bytes → Response
response s v = record { content_length = (1 + 4 + length v) % 2 ^ 32; status = s; value = v }

-- `valueSize` is a `uint32_t`, and that many bytes of the value are written.
unfoldable pub serialize_request : Request → Bytes
serialize_request r =
    to_bytes 4 r.content_length
    ++ (to_bytes 1 (request_code r.request_type)
        ++ (to_bytes 8 r.key
            ++ (to_bytes 4 (length r.value) ++ take (length r.value % 2 ^ 32) r.value)))

unfoldable pub serialize_response : Response → Bytes
serialize_response r =
    to_bytes 4 r.content_length
    ++ (to_bytes 1 (status_code r.status)
        ++ (to_bytes 4 (length r.value) ++ take (length r.value % 2 ^ 32) r.value))

-- `operator==` does not look at `contentLength`.
unfoldable pub same_request : Request → Request → Bool
same_request a b =
    (request_code a.request_type == request_code b.request_type)
    && ((a.key == b.key) && same_bytes a.value b.value)

unfoldable pub same_response : Response → Response → Bool
same_response a b = (status_code a.status == status_code b.status) && same_bytes a.value b.value

-- A short read leaves the old value of a field. `max_size` is the longest string that is granted.
read_request : ℕ → Request → Reader Request
read_request max_size old = do
  content_length ← read_uint 4 4 old.content_length
  t ← read_uint 1 1 (request_code old.request_type)
  k ← read_uint 8 8 old.key
  value_size ← read_uint 4 4 0
  v ← read_string max_size value_size old.value
  pure (record { content_length = content_length; request_type = request_of t; key = k; value = v })

unfoldable pub read_response : ℕ → Response → Reader Response
read_response max_size old = do
  content_length ← read_uint 4 4 old.content_length
  s ← read_uint 1 1 (status_code old.status)
  value_size ← read_uint 4 4 0
  v ← read_string max_size value_size old.value
  pure (record { content_length = content_length; status = status_of s; value = v })

unfoldable pub deserialize_request : ℕ → Request → Bytes → Outcome Request
unfolding read_request
deserialize_request max_size old buffer = result (read_request max_size old (opened buffer))

unfoldable pub deserialize_response : ℕ → Response → Bytes → Outcome Response
unfolding read_response
deserialize_response max_size old buffer = result (read_response max_size old (opened buffer))
