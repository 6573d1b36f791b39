-- ===== src/Message/RoundTrip.antt =====
-- What a peer serializes, the other side reads.
use open_x_database.Shared.{
  ℕ, ◌+◌, ◌%◌, ◌^◌, ◌≡◌, ◌≤◌, ◌<◌, [], refl, arith, length, take, take_all,
}
use open_x_database.Shared.{ok, append-nil, length-append, length-take}
use open_x_database.Bytes.{Bytes, length-to_bytes}
use open_x_database.Bytes.Stream.{read_uint_front, read_string_front}
use open_x_database.Message.{
  Request, Response, RequestType, ResponseStatus, get, put, delete, ok_status, not_found,
  invalid_request_type, unknown_error, request, response, request_code, request_of, status_code,
  status_of, serialize_request, serialize_response, deserialize_request, deserialize_response,
}

-- A byte that the enumeration can hold: a named value, or another byte.
abbrev pub IsRequestType : RequestType → Type 0
IsRequestType (RequestType.unnamed b) = (3 ≤ b) × (b < 256)
IsRequestType _ = Unit {0}

abbrev pub IsStatus : ResponseStatus → Type 0
IsStatus (ResponseStatus.unnamed b) = (4 ≤ b) × (b < 256)
IsStatus _ = Unit {0}

request_of-request_code :
    (t : RequestType) → IsRequestType t → (request_code t < 256) × (request_of (request_code t) ≡ t)
unfolding request_of
request_of-request_code get h = (omega arith, refl)
request_of-request_code put h = (omega arith, refl)
request_of-request_code delete h = (omega arith, refl)
request_of-request_code (RequestType.unnamed b) h = ground arith

status_of-status_code :
    (s : ResponseStatus) → IsStatus s → (status_code s < 256) × (status_of (status_code s) ≡ s)
unfolding status_of
status_of-status_code ok_status h = (omega arith, refl)
status_of-status_code not_found h = (omega arith, refl)
status_of-status_code invalid_request_type h = (omega arith, refl)
status_of-status_code unknown_error h = (omega arith, refl)
status_of-status_code (ResponseStatus.unnamed b) h = ground arith

whole_value : (v : Bytes) → length v < 2 ^ 32 → take (length v % 2 ^ 32) v ≡ v
whole_value v h = take_all (length v % 2 ^ 32) v (omega arith)

-- A request that its constructor built is read back as it was, into any object, where its type is
-- a byte, its key and the size of its value fit their fields and the reader may allocate the
-- value.
pub deserialize-serialize_request :
    (max_size : ℕ) (old : Request) (t : RequestType) (k : ℕ) (v : Bytes)
    → IsRequestType t
    → k < 2 ^ 64
    → length v < 2 ^ 32
    → length v ≤ max_size
    → deserialize_request max_size old (serialize_request (request t k v)) ≡ ok (request t k v)
unfolding deserialize_request serialize_request request
deserialize-serialize_request max_size old t k v ht hk hv hm =
    let (code_fits, code_back) = request_of-request_code t ht in
    let value_back = rw append-nil at (read_string_front max_size v [] old.value hm) in
    rw (
      whole_value v hv,
      read_uint_front 4 ((1 + 8 + 4 + length v) % 2 ^ 32) _ _ (omega arith),
      read_uint_front 1 (request_code t) _ _ (omega arith),
      read_uint_front 8 k _ _ (omega arith),
      read_uint_front 4 (length v) _ _ (omega arith),
      value_back,
      code_back,
    )

-- A response that its constructor built is read back as it was, into any object, where its status
-- is a byte, the size of its value fits its field and the reader may allocate the value.
pub deserialize-serialize_response :
    (max_size : ℕ) (old : Response) (s : ResponseStatus) (v : Bytes)
    → IsStatus s
    → length v < 2 ^ 32
    → length v ≤ max_size
    → deserialize_response max_size old (serialize_response (response s v)) ≡ ok (response s v)
unfolding deserialize_response serialize_response response
deserialize-serialize_response max_size old s v hs hv hm =
    let (code_fits, code_back) = status_of-status_code s hs in
    let value_back = rw append-nil at (read_string_front max_size v [] old.value hm) in
    rw (
      whole_value v hv,
      read_uint_front 4 ((1 + 4 + length v) % 2 ^ 32) _ _ (omega arith),
      read_uint_front 1 (status_code s) _ _ (omega arith),
      read_uint_front 4 (length v) _ _ (omega arith),
      value_back,
      code_back,
    )

-- A serialized request is four bytes longer than its `contentLength`, where that does not wrap: a
-- peer that reads four bytes, and then as many as they say, reads just the message.
pub length-serialize_request :
    (t : RequestType) (k : ℕ) (v : Bytes)
    → 13 + length v < 2 ^ 32
    → length (serialize_request (request t k v)) ≡ 4 + (request t k v).content_length
unfolding serialize_request request
length-serialize_request t k v h = simp (length-append, length-to_bytes, length-take) (omega arith)

-- A serialized response is four bytes longer than its `contentLength`, where that does not wrap.
pub length-serialize_response :
    (s : ResponseStatus) (v : Bytes)
    → 5 + length v < 2 ^ 32
    → length (serialize_response (response s v)) ≡ 4 + (response s v).content_length
unfolding serialize_response response
length-serialize_response s v h = simp (length-append, length-to_bytes, length-take) (omega arith)
