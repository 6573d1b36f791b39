-- ===== src/Networking/Serving.antt =====
-- A request that comes in over a connection.
use open_x_database.Shared.{
  ℕ, ◌+◌, ◌≡◌, ◌≤◌, ◌<◌, ◌^◌, ◌%◌, refl, sym, ◌∙◌, [], ◌++◌, take, length, arith, ap,
}
use open_x_database.Shared.{ok, length-append, take-append_of_length, take_all}
use open_x_database.Bytes.{Bytes, to_bytes, from_bytes, from_bytes-to_bytes}
use open_x_database.Message.{
  Response, RequestType, get, request, serialize_request, serialize_response,
}
use open_x_database.Message.RoundTrip.{
  IsRequestType, deserialize-serialize_request, length-serialize_request,
}
use open_x_database.StorageEngine.State.{Platform, Engine}
use open_x_database.StorageEngine.Access.{handle}
use open_x_database.Networking.{
  ServerSession, transferred, reading_request, on_content_length_received, on_request_received,
  writing, start_session, requested, on_event,
}

module _ (p : Platform) (e : Engine) (t : RequestType) (k : ℕ) (v : Bytes)
    (fits : 13 + length v < 2 ^ 32) (front behind : Bytes)
    (split : serialize_request (request t k v) ≡ front ++ behind) (four : length front ≡ 4) where
  front_lem : front ≡ to_bytes 4 (13 + length v)
  unfolding serialize_request request to_bytes
  front_lem =
      sym (take-append_of_length 4 front behind four)
      ∙ ap (take 4) (sym split)
      ∙ ap (λ n. to_bytes 4 n) no_wrap
    where
      no_wrap : (13 + length v) % 2 ^ 32 ≡ 13 + length v
      no_wrap = omega (arith, fits)

  announced : from_bytes (take 4 front) ≡ 13 + length v
  announced =
      ap from_bytes (take_all 4 front (omega (arith, four)) ∙ front_lem)
      ∙ from_bytes-to_bytes 4 (13 + length v) (omega (arith, fits))

  length-behind : length behind ≡ 13 + length v
  unfolding request
  length-behind = omega (
    arith,
    fits,
    four,
    length-serialize_request t k v fits,
    ap length split,
    length-append front behind,
  )

  abbrev asked : ServerSession
  asked = record {
    database = e;
    content_length = 13 + length v;
    request_buffer = front;
    phase = reading_request;
  }

  first_event : on_event p (transferred front) (start_session e) ≡ ok asked
  unfolding on_event on_content_length_received
  first_event = rw announced refl

  second_event :
      (resp : Response) (e' : Engine)
      → IsRequestType t
      → k < 2 ^ 64
      → length v ≤ p.runtime.max_size
      → handle p (request t k v) e ≡ (ok resp, e')
      → on_event p (transferred behind) asked
        ≡ ok (record asked {
          database = e';
          request_buffer = [];
          phase = writing (serialize_response resp);
        })
  unfolding on_event on_request_received
  second_event resp e' is_type key_fits granted handled =
      rw
        (
          ← split,
          deserialize-serialize_request p.runtime.max_size (request get 0 []) t k v is_type key_fits
              (omega (arith, fits)) granted,
          handled,
        )
        refl

  -- Let the bytes of a request that its constructor built, with fields that fit and a value that may
  -- be allocated, come in over a new connection, the first four and then the others. After the first
  -- four the session asks for as many bytes as there are; after the others the database has handled
  -- the request, and the bytes that are handed to the socket are those of its response.
  pub on_event-serialize_request :
      (resp : Response) (e' : Engine)
      → IsRequestType t
      → k < 2 ^ 64
      → length v ≤ p.runtime.max_size
      → handle p (request t k v) e ≡ (ok resp, e')
      → (s₁ : ServerSession) × (s₂ : ServerSession) × (on_event p
            (transferred front)
            (start_session e)
          ≡ ok s₁)
        × (requested s₁ ≡ length behind)
        × (on_event p (transferred behind) s₁ ≡ ok s₂)
        × (s₂.database ≡ e')
        × (s₂.phase ≡ writing (serialize_response resp))
  on_event-serialize_request resp e' is_type key_fits granted handled = (
    asked,
    _,
    first_event,
    sym length-behind,
    second_event resp e' is_type key_fits granted handled,
    refl,
    refl,
  )
