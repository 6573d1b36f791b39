-- ===== src/Networking.antt =====
-- src/Networking: the server's part that accepts connections and the session of one connection. What
-- asio reports to a callback is an event: an error, or the bytes that were transferred.
pub mod Serving
pub mod Accepting
pub mod Client
pub mod Promising
pub mod Exchange
pub mod Server
pub mod Joining
pub mod Destroying
use open_x_database.Shared.{
  ℕ, ◌+◌, [], ◌++◌, Bool, true, false, take, Outcome, ok, throws, undefined, diverges,
}
use open_x_database.Bytes.{Bytes, from_bytes}
use open_x_database.Message
use open_x_database.Message.{Request, Response, request, deserialize_request, serialize_response}
use open_x_database.StorageEngine.State.{Platform, Engine}
use open_x_database.StorageEngine.Access.{handle}

-- The operation that a session waits for; `writing` has the bytes that were handed to the socket. In
-- the code they belong to a local string of the callback that hands them over.
pub data Phase : Type 0 where
  reading_length reading_request finished : Phase
  writing : Bytes → Phase

pub data Event : Type 0 where
  transferred : Bytes → Event
  failed : Event

pub record ServerSession : Type 0 where
  pub database : Engine
  pub content_length : ℕ
  pub request_buffer : Bytes
  pub phase : Phase

-- The constructor and `run`: the length is read first.
abbrev pub start_session : Engine → ServerSession
start_session e = record {
  database = e;
  content_length = 0;
  request_buffer = [];
  phase = reading_length;
}

-- The number of bytes that `transfer_exactly` is given.
abbrev pub requested : ServerSession → ℕ
requested s = elim s.phase [ reading_length ↦ 4 | reading_request ↦ s.content_length | _ ↦ 0 ]

unfoldable pub on_content_length_received : Event → ServerSession → ServerSession
on_content_length_received failed s = record s { phase = finished }
on_content_length_received (transferred bs) s = record s {
  request_buffer = s.request_buffer ++ bs;
  content_length = from_bytes (take 4 (s.request_buffer ++ bs));
  phase = reading_request;
}

-- The response of the database goes to the socket.
sent_response : ServerSession → Outcome Response × Engine → Outcome ServerSession
sent_response s (ok response, e) =
    ok (record s {
      database = e;
      request_buffer = [];
      phase = writing (serialize_response response);
    })
sent_response s (throws x, e) = throws x
sent_response s (undefined, e) = undefined
sent_response s (diverges, e) = diverges

-- `processRequest` takes the whole buffer. What is thrown here leaves the callback.
process_request : Platform → ServerSession → Outcome Request → Outcome ServerSession
unfolding sent_response
process_request p s (ok r) = sent_response s (handle p r s.database)
process_request p s (throws x) = throws x
process_request p s undefined = undefined
process_request p s diverges = diverges

unfoldable pub on_request_received : Platform → Event → ServerSession → Outcome ServerSession
unfolding process_request
on_request_received p failed s = ok (record s { phase = finished })
on_request_received p (transferred bs) s =
    process_request p s
      (deserialize_request p.runtime.max_size (request Message.get 0 []) (s.request_buffer ++ bs))

-- The session ends with its last callback, whether or not there was an error.
unfoldable pub on_response_sent : Event → ServerSession → ServerSession
on_response_sent ev s = record s { phase = finished }

-- The callback of the operation that has ended.
unfoldable pub on_event : Platform → Event → ServerSession → Outcome ServerSession
unfolding on_content_length_received on_request_received on_response_sent
on_event p ev s = elim s.phase [
  | reading_length ↦ ok (on_content_length_received ev s)
  | reading_request ↦ on_request_received p ev s
  | writing bs ↦ ok (on_response_sent ev s)
  | finished ↦ ok s
]

-- `m_isStopped`, whether an accept is waited for, whether `m_acceptor` was closed, and how many
-- sessions have been started.
pub record Acceptor : Type 0 where
  pub is_stopped : Bool
  pub is_accepting : Bool
  pub is_closed : Bool
  pub num_sessions : ℕ

abbrev pub new_acceptor : Acceptor
new_acceptor = record {
  is_stopped = false;
  is_accepting = false;
  is_closed = false;
  num_sessions = 0;
}

unfoldable pub init_accept : Acceptor → Acceptor
init_accept a = record a { is_accepting = true }

unfoldable pub start : Acceptor → Acceptor
unfolding init_accept
start a = init_accept a

-- `m_isStopped.store(false)`
unfoldable pub stop : Acceptor → Acceptor
stop a = record a { is_stopped = false }

-- The session of a new connection, unless there was an error.
start_accepted : Bool → Acceptor → Acceptor
start_accepted true a = record a { num_sessions = a.num_sessions + 1 }
start_accepted false a = a

next_accept : Acceptor → Acceptor
unfolding init_accept
next_accept a = elim a.is_stopped [
  | false ↦ init_accept a
  | true ↦ record a { is_closed = true; is_accepting = false }
]

-- The argument tells whether the connection was accepted without an error.
unfoldable pub on_accept : Bool → Acceptor → Acceptor
unfolding start_accepted next_accept
on_accept is_accepted a = next_accept (start_accepted is_accepted a)
