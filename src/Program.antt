-- ===== src/Program.antt =====
-- src/Networking/MainClient.cpp and src/Networking/DatabaseConnectorImpl.cpp: the client program, and the
-- connector that it sends its request with. Boost's parser of command lines is not modelled: what it
-- leaves in the map of variables is an argument, and so is what asio reports.
pub mod Talking
pub mod Remembering
pub mod Server
pub mod Example
use open_x_database.Shared.{
  ℕ, ◌+◌, ◌-◌, ◌%◌, Bool, true, false, List, [], ◌∷◌, Option, none, some, if◌then◌else◌, Outcome,
  ok, throws, undefined, diverges,
}
use open_x_database.Bytes.{Bytes}
use open_x_database.Compression.{ℤ, pos, negsuc}
use open_x_database.Message.{
  RequestType, ResponseStatus, Request, Response, request, request_of, ok_status, not_found,
  invalid_request_type, unknown_error,
}
use open_x_database.Networking.{Event}
use open_x_database.Networking.Client.{
  Promise, ClientSession, pending, value, exception, run_client, client_events,
}

-- What is written to the standard output, piece by piece: a text of the program, or a string of bytes.
pub data Printed : Type 0 where
  text : Prim.Native.String.String → Printed
  content : Bytes → Printed

-- How the program ends: `main` returns, and what it has printed; or it waits for a promise that is not
-- set; or an exception that nothing catches ends it. What it writes to the error
-- output is left out, and so are the log lines of the sessions.
pub data Ended : Type 0 where
  returned : ℕ → List Printed → Ended
  waiting aborted : Ended

-- `std::future<Response>`: of a session's promise, or of the one in which `execute` puts what it catches.
pub data Future : Type 0 where
  of_session : ClientSession → Future
  of_exception : Future

-- What the system does: whether the thread of the service could be started, whether the socket, the
-- resolver and the query could be made, whether `async_resolve` could be started, and what asio reports
-- to the callbacks.
pub record Service : Type 0 where
  pub is_started : Bool
  pub is_made : Bool
  pub is_resolving : Bool
  pub events : List Event

unfoldable pub execute : Service → Request → Future
execute s r = if s.is_made then of_session (run_client r s.is_resolving) else of_exception

unfoldable pub get_response_status : ResponseStatus → Prim.Native.String.String
get_response_status ok_status = "OK"
get_response_status not_found = "NotFound"
get_response_status invalid_request_type = "InvalidRequestType"
get_response_status unknown_error = "UnknownError"
get_response_status (ResponseStatus.unnamed b) = "UnknownResponseStatus"

unfoldable pub print_content : Bytes → List Printed
print_content [] = []
print_content (b ∷ bs) = text "Content        : " ∷ content (b ∷ bs) ∷ text "\n" ∷ []

unfoldable pub print_response : Response → List Printed
unfolding get_response_status print_content
print_response r =
    text "Response status: "
    ∷ text (get_response_status r.status)
    ∷ text "\n"
    ∷ print_content r.value

-- `std::future::get`, and what is left of `main`.
unfoldable pub print_promise : Promise → Ended
unfolding print_response
print_promise pending = waiting
print_promise (value r) = returned 0 (print_response r)
print_promise exception = returned 1 []

-- The callbacks run in the service's thread; what they throw ends the program.
unfoldable pub print_session : Outcome ClientSession → Outcome Ended
unfolding print_promise
print_session (ok c) = ok (print_promise c.promise)
print_session (throws x) = ok aborted
print_session undefined = undefined
print_session diverges = diverges

unfoldable pub print_future : ℕ → List Event → Future → Outcome Ended
unfolding print_session
print_future max_size events (of_session c) = print_session (client_events max_size events c)
print_future max_size events of_exception = ok (returned 1 [])

-- The variables, after `po::notify`; the others than these two have a default.
pub record Variables : Type 0 where
  pub help : Bool
  pub request_type : Option ℤ
  pub key : Option ℕ
  pub value_of : Bytes

-- `static_cast<RequestType>` of an `int`.
unfoldable pub to_request_type : ℤ → RequestType
unfolding request_of
to_request_type (pos n) = request_of (n % 256)
to_request_type (negsuc n) = request_of (255 - n % 256)

-- A variable that is not there cannot be cast to its type, which throws.
unfoldable pub make_request : Variables → Option Request
unfolding to_request_type request
make_request vars = elim vars.request_type [
  | none ↦ none
  | some t ↦ (elim vars.key [
    | none ↦ none
    | some k ↦ some (request (to_request_type t) k vars.value_of)
  ])
]

unfoldable pub perform : ℕ → Service → Option Request → Outcome Ended
unfolding execute print_future
perform max_size s none = ok (returned 1 [])
perform max_size s (some r) =
    if s.is_started then print_future max_size s.events (execute s r) else ok (returned 1 [])

-- `main`; `none` is a command line that cannot be parsed, and `description` the help text.
unfoldable pub main_client :
    ℕ → Service → Prim.Native.String.String → Option Variables → Outcome Ended
unfolding make_request perform
main_client max_size s description none = ok (returned 1 [])
main_client max_size s description (some vars) =
    if vars.help
    then ok (returned 1 (text description ∷ text "\n" ∷ []))
    else perform max_size s (make_request vars)
