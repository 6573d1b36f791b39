-- ===== src/Networking/Client.antt =====
-- src/Networking/ClientSession.h and src/Networking/ClientSession.cpp: the session of one request. The
-- event of an operation that transfers nothing (`async_resolve`, `async_connect`) has no bytes.
use open_x_database.Shared.{ℕ, List, [], ◌∷◌, ◌++◌, Bool, true, false, take, ◌>>=◌}
use open_x_database.Shared.{Outcome, ok, throws, promise_already_satisfied}
use open_x_database.Bytes.{Bytes, from_bytes}
use open_x_database.Message
use open_x_database.Message.{Request, Response, response, deserialize_response, serialize_request}
use open_x_database.Networking.{Event, transferred, failed}

-- `std::promise<Response>`
pub data Promise : Type 0 where
  pending : Promise
  value : Response → Promise
  exception : Promise

-- The operation that the session waits for; `sending` has the bytes that were handed to the socket. In
-- the code they belong to a temporary string, which is gone when the callback returns.
pub data ClientPhase : Type 0 where
  resolving connecting reading_length reading_response done : ClientPhase
  sending : Bytes → ClientPhase

pub record ClientSession : Type 0 where
  pub request : Request
  pub content_length : ℕ
  pub buffer : Bytes
  pub promise : Promise
  pub phase : ClientPhase

-- A promise that is set twice throws.
unfoldable pub set_promise : Promise → ClientSession → Outcome ClientSession
set_promise new s = elim s.promise [
  | pending ↦ ok (record s { promise = new; phase = done })
  | _ ↦ throws promise_already_satisfied
]

-- The constructor and `run`; the argument tells whether `async_resolve` could be started. Where it
-- could not, its exception is caught and goes to the promise.
unfoldable pub run_client : Request → Bool → ClientSession
run_client r true = record {
  request = r;
  content_length = 0;
  buffer = [];
  promise = pending;
  phase = resolving;
}
run_client r false = record {
  request = r;
  content_length = 0;
  buffer = [];
  promise = exception;
  phase = done;
}

-- `onError`
unfoldable pub on_error : ClientSession → Outcome ClientSession
unfolding set_promise
on_error s = set_promise exception s

unfoldable pub on_resolve : Event → ClientSession → Outcome ClientSession
unfolding on_error
on_resolve failed s = on_error s
on_resolve (transferred bs) s = ok (record s { phase = connecting })

unfoldable pub on_connect : Event → ClientSession → Outcome ClientSession
unfolding on_error
on_connect failed s = on_error s
on_connect (transferred bs) s = ok (record s { phase = sending (serialize_request s.request) })

-- How many bytes were sent is not looked at.
unfoldable pub on_send : Event → ClientSession → Outcome ClientSession
unfolding on_error
on_send failed s = on_error s
on_send (transferred bs) s = ok (record s { phase = reading_length })

unfoldable pub on_content_length_receive : Event → ClientSession → Outcome ClientSession
unfolding on_error
on_content_length_receive failed s = on_error s
on_content_length_receive (transferred bs) s = ok (record s {
  buffer = s.buffer ++ bs;
  content_length = from_bytes (take 4 (s.buffer ++ bs));
  phase = reading_response;
})

-- The whole buffer is deserialized into a new response. What that throws leaves the callback.
unfoldable pub on_receive : ℕ → Event → ClientSession → Outcome ClientSession
unfolding on_error set_promise
on_receive max_size failed s = on_error s
on_receive max_size (transferred bs) s =
    deserialize_response max_size (response Message.unknown_error []) (s.buffer ++ bs) >>= λ r.
    set_promise (value r) (record s { buffer = [] })

-- The callback of the operation that has ended.
unfoldable pub on_client_event : ℕ → Event → ClientSession → Outcome ClientSession
unfolding on_resolve on_connect on_send on_content_length_receive on_receive
on_client_event max_size ev s = elim s.phase [
  | resolving ↦ on_resolve ev s
  | connecting ↦ on_connect ev s
  | sending bs ↦ on_send ev s
  | reading_length ↦ on_content_length_receive ev s
  | reading_response ↦ on_receive max_size ev s
  | done ↦ ok s
]

-- The number of bytes that `transfer_exactly` is given.
abbrev pub wanted : ClientSession → ℕ
wanted s = elim s.phase [ reading_length ↦ 4 | reading_response ↦ s.content_length | _ ↦ 0 ]

unfoldable pub client_events : ℕ → List Event → ClientSession → Outcome ClientSession
client_events max_size [] s = ok s
client_events max_size (ev ∷ evs) s =
    on_client_event max_size ev s >>= λ s'. client_events max_size evs s'
