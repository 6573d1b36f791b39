-- ===== src/Tests/Connections.antt =====
-- A connection to a server, and an acceptor.
use open_x_database.Shared.{◌≡◌, ◌++◌, [], ◌∷◌, length, arith, ok, true, false, refl}
use open_x_database.Message.{
  delete, request, response, ok_status, serialize_request, serialize_response,
}
use open_x_database.MemTable
use open_x_database.MemTable.{put_entry}
use open_x_database.StorageEngine.Access.{handle, dispatch, caught, remove_key}
use open_x_database.StorageEngine.Operations.{with_row}
use open_x_database.Networking.{
  ServerSession, transferred, writing, start_session, requested, on_event, start, new_acceptor,
}
use open_x_database.Networking.Serving.{on_event-serialize_request}
use open_x_database.Networking.Accepting.{calls, calls-start, stopped, accepted}
use open_x_database.Networking.{Event, failed}
use open_x_database.Networking.Client.{ClientSession, value, sending, run_client, client_events}
use open_x_database.Networking.Promising.{IsOpen, IsSettled, client_events-run_client}
use open_x_database.Networking.Exchange.{client_events-on_event}
use open_x_database.Shared.{◌≢◌, ◌⊎◌, List, Error, throws, promise_already_satisfied, length_error}
use open_x_database.Bytes.{Bytes, to_bytes}
use open_x_database.Tests.Data.{platform, remove_four}
use open_x_database.Tests.Engines.{engine}

abbrev front : Bytes
front = 13 ∷ 0 ∷ 0 ∷ 0 ∷ []

-- A delete request for the key 4.
abbrev behind : Bytes
behind = 2 ∷ 4 ∷ 0 ∷ 0 ∷ 0 ∷ 0 ∷ 0 ∷ 0 ∷ 0 ∷ 0 ∷ 0 ∷ 0 ∷ 0 ∷ []

delete_bytes : serialize_request (request delete 4 []) ≡ front ++ behind
unfolding serialize_request request to_bytes
delete_bytes = refl

pub delete_handled :
    handle platform (request delete 4 []) engine
    ≡ (ok (response ok_status []), with_row engine remove_four)
unfolding handle dispatch caught request remove_key MemTable.remove_key put_entry
delete_handled = refl

calls-start_example :
    ((calls (accepted true ∷ stopped ∷ []) (start new_acceptor)).is_accepting ≡ true)
    × ((calls (accepted true ∷ stopped ∷ []) (start new_acceptor)).is_closed ≡ false)
calls-start_example = calls-start (accepted true ∷ stopped ∷ [])

abbrev response_front : Bytes
response_front = 5 ∷ 0 ∷ 0 ∷ 0 ∷ []

abbrev response_behind : Bytes
response_behind = 0 ∷ 0 ∷ 0 ∷ 0 ∷ 0 ∷ []

response_bytes : serialize_response (response ok_status []) ≡ response_front ++ response_behind
unfolding serialize_response response to_bytes
response_bytes = refl

client_events-on_event_example :
    (c₁ c₂ : ClientSession) × (s₁ s₂ : ServerSession) × (client_events 1000
        (transferred [] ∷ transferred [] ∷ [])
        (run_client (request delete 4 []) true)
      ≡ ok c₁)
    × (c₁.phase ≡ sending (front ++ behind))
    × (on_event platform (transferred front) (start_session engine) ≡ ok s₁)
    × (on_event platform (transferred behind) s₁ ≡ ok s₂)
    × (s₂.database ≡ with_row engine remove_four)
    × (s₂.phase ≡ writing (response_front ++ response_behind))
    × (client_events 1000
          (transferred (front ++ behind)
            ∷ transferred response_front
            ∷ transferred response_behind
            ∷ [])
          c₁
        ≡ ok c₂)
    × (c₂.promise ≡ value (response ok_status []))
client_events-on_event_example =
    client_events-on_event platform engine delete 4 [] ok_status [] front behind response_front
      response_behind tt (omega arith) (omega arith) (omega arith) tt (omega arith) (omega arith)
      (with_row engine remove_four) delete_handled delete_bytes refl response_bytes refl

-- A whole exchange, and a failure behind it.
abbrev evs : List Event
evs =
    transferred []
    ∷ transferred []
    ∷ transferred (front ++ behind)
    ∷ transferred response_front
    ∷ transferred response_behind
    ∷ failed
    ∷ []

client_events-run_client_example :
    ((s : ClientSession)
      → client_events 1000 evs (run_client (request delete 4 []) true) ≡ ok s
      → (IsOpen s ⊎ IsSettled s)
        × (IsSettled s → (more : List Event) → client_events 1000 more s ≡ ok s))
    × ((x : Error)
        → client_events 1000 evs (run_client (request delete 4 []) true) ≡ throws x
        → (x ≢ promise_already_satisfied) × (x ≡ length_error))
client_events-run_client_example = client_events-run_client 1000 (request delete 4 []) true evs

on_event-serialize_request_example :
    (s₁ : ServerSession) × (s₂ : ServerSession) × (on_event platform
        (transferred front)
        (start_session engine)
      ≡ ok s₁)
    × (requested s₁ ≡ length behind)
    × (on_event platform (transferred behind) s₁ ≡ ok s₂)
    × (s₂.database ≡ with_row engine remove_four)
    × (s₂.phase ≡ writing (serialize_response (response ok_status [])))
on_event-serialize_request_example =
    on_event-serialize_request platform engine delete 4 [] (omega arith) front behind delete_bytes
      refl (response ok_status []) (with_row engine remove_four) tt (omega arith) (omega arith)
      delete_handled
