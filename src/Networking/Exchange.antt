-- ===== src/Networking/Exchange.antt =====
-- A client's request and the server's response, over connections that transfer all bytes.
use open_x_database.Shared.{
  ℕ, ◌+◌, ◌≡◌, ◌≤◌, ◌<◌, ◌^◌, ◌%◌, refl, sym, ◌∙◌, [], ◌∷◌, ◌++◌, take, length, arith, ap, true,
}
use open_x_database.Shared.{ok, length-append, take-append_of_length, take_all}
use open_x_database.Bytes.{Bytes, to_bytes, from_bytes, from_bytes-to_bytes}
use open_x_database.Message
use open_x_database.Message.{
  Response, RequestType, ResponseStatus, request, response, serialize_request, serialize_response,
}
use open_x_database.Message.RoundTrip.{
  IsRequestType, IsStatus, deserialize-serialize_response, length-serialize_response,
}
use open_x_database.StorageEngine.State.{Platform, Engine}
use open_x_database.StorageEngine.Access.{handle}
use open_x_database.Networking.{ServerSession, transferred, writing, start_session, on_event}
use open_x_database.Networking.Serving.{on_event-serialize_request}
use open_x_database.Networking.Client.{
  ClientSession, pending, value, sending, reading_length, reading_response, done, run_client,
  on_client_event, client_events, on_resolve, on_connect, on_send, on_content_length_receive,
  on_receive, set_promise,
}

module _ (max_size : ℕ) (s : ResponseStatus) (v : Bytes) (is_status : IsStatus s)
    (fits : 5 + length v < 2 ^ 32) (granted : length v ≤ max_size) (front behind : Bytes)
    (split : serialize_response (response s v) ≡ front ++ behind) (four : length front ≡ 4) where
  response_front : front ≡ to_bytes 4 (5 + length v)
  unfolding serialize_response response to_bytes
  response_front =
      sym (take-append_of_length 4 front behind four)
      ∙ ap (take 4) (sym split)
      ∙ ap (λ n. to_bytes 4 n) no_wrap
    where
      no_wrap : (5 + length v) % 2 ^ 32 ≡ 5 + length v
      no_wrap = omega (arith, fits)

  response_announced : from_bytes (take 4 front) ≡ 5 + length v
  response_announced =
      ap from_bytes (take_all 4 front (omega (arith, four)) ∙ response_front)
      ∙ from_bytes-to_bytes 4 (5 + length v) (omega (arith, fits))

  response_behind : length behind ≡ 5 + length v
  unfolding response
  response_behind = omega (
    arith,
    fits,
    four,
    length-serialize_response s v fits,
    ap length split,
    length-append front behind,
  )

  -- The session that has read the length.
  abbrev announced : ClientSession → ClientSession
  announced c = record c { buffer = front; content_length = 5 + length v; phase = reading_response }

  length_event :
      (c : ClientSession)
      → c.phase ≡ reading_length
      → c.buffer ≡ []
      → on_client_event max_size (transferred front) c ≡ ok (announced c)
  unfolding on_client_event on_content_length_receive
  length_event c at empty = ground (arith, at, empty, response_announced)

  content_event :
      (c : ClientSession)
      → c.promise ≡ pending
      → on_client_event max_size (transferred behind) (announced c)
        ≡ ok (record (announced c) { buffer = []; promise = value (response s v); phase = done })
  unfolding on_client_event on_receive set_promise
  content_event c e =
      rw
        (
          ← split,
          deserialize-serialize_response max_size (response Message.unknown_error []) s v is_status
              (omega (arith, fits)) granted,
          e,
          set_promise,
        )
        refl

  send_event :
      (c : ClientSession) (bs sent : Bytes)
      → c.phase ≡ sending bs
      → on_client_event max_size (transferred sent) c ≡ ok (record c { phase = reading_length })
  unfolding on_client_event on_send
  send_event c bs sent at = ground (arith, at)

  abbrev answered : ClientSession → ClientSession
  answered c = record (announced c) { buffer = []; promise = value (response s v); phase = done }

  answer_events :
      (c : ClientSession) (bs sent : Bytes)
      → c.phase ≡ sending bs
      → c.buffer ≡ []
      → c.promise ≡ pending
      → client_events max_size (transferred sent ∷ transferred front ∷ transferred behind ∷ []) c
        ≡ ok (answered c)
  unfolding client_events
  answer_events c bs sent at empty e =
      rw
        (
          send_event c bs sent at,
          length_event (record c { phase = reading_length }) refl empty,
          content_event c e,
        )
        refl

-- Two operations that ended well: resolving and connecting. Then the bytes of the request are sent.
connected :
    (max_size : ℕ) (t : RequestType) (k : ℕ) (v : Bytes)
    → client_events max_size
        (transferred [] ∷ transferred [] ∷ [])
        (run_client (request t k v) true)
      ≡ ok (record (run_client (request t k v) true) {
        phase = sending (serialize_request (request t k v));
      })
unfolding client_events on_client_event on_resolve on_connect run_client
connected max_size t k v = refl

module _ (p : Platform) (e : Engine) (t : RequestType) (k : ℕ) (v : Bytes) (s : ResponseStatus)
    (w : Bytes) (front behind front' behind' : Bytes) where
  -- Let a client's session start with a request that its constructor built, with fields that fit, and
  -- resolve and connect; then the bytes that it hands to the socket are those of the request. Let them
  -- come in over a new connection of a server, the first four and then the others, and let the database
  -- handle the request with a response that its constructor built and that fits. Then the bytes that the
  -- server hands to the socket are those of the response; and let those come in at the client, after its
  -- request was sent, the first four and then the others. Then the promise has that response.
  pub client_events-on_event :
      IsRequestType t
      → k < 2 ^ 64
      → 13 + length v < 2 ^ 32
      → length v ≤ p.runtime.max_size
      → IsStatus s
      → 5 + length w < 2 ^ 32
      → length w ≤ p.runtime.max_size
      → (e' : Engine) → handle p (request t k v) e ≡ (ok (response s w), e')
      → serialize_request (request t k v) ≡ front ++ behind
      → length front ≡ 4
      → serialize_response (response s w) ≡ front' ++ behind'
      → length front' ≡ 4
      → (c₁ c₂ : ClientSession) × (s₁ s₂ : ServerSession) × (client_events p.runtime.max_size
            (transferred [] ∷ transferred [] ∷ [])
            (run_client (request t k v) true)
          ≡ ok c₁)
        × (c₁.phase ≡ sending (front ++ behind))
        × (on_event p (transferred front) (start_session e) ≡ ok s₁)
        × (on_event p (transferred behind) s₁ ≡ ok s₂)
        × (s₂.database ≡ e')
        × (s₂.phase ≡ writing (front' ++ behind'))
        × (client_events p.runtime.max_size
              (transferred (front ++ behind) ∷ transferred front' ∷ transferred behind' ∷ [])
              c₁
            ≡ ok c₂)
        × (c₂.promise ≡ value (response s w))
  client_events-on_event is_type key_fits fits granted is_status fits' granted' e' handled split
        four split' four' =
      let (s₁, s₂, first, wants, second, kept, writes) =
        on_event-serialize_request p e t k v fits front behind split four (response s w) e' is_type
          key_fits granted handled in
      let c₁ = record (run_client (request t k v) true) {
        phase = sending (serialize_request (request t k v));
      } in
      (
        c₁,
        answered p.runtime.max_size s w is_status fits' granted' front' behind' split' four' c₁,
        s₁,
        s₂,
        connected p.runtime.max_size t k v,
        ap sending split,
        first,
        second,
        kept,
        writes ∙ ap writing split',
        answer_events p.runtime.max_size s w is_status fits' granted' front' behind' split' four' c₁
            (serialize_request (request t k v)) (front ++ behind) refl (unfold run_client in refl)
            (unfold run_client in refl),
        refl,
      )
