-- ===== src/Networking/Promising.antt =====
-- The promise of a client's session, src/Networking/ClientSession.cpp.
use mathlib.Core.Path.{subst}
use open_x_database.Shared.{
  ℕ, ◌≡◌, ◌≢◌, ◌⊎◌, inl, inr, refl, List, [], ◌∷◌, ◌++◌, Bool, true, false, arith,
}
use open_x_database.Shared.{
  Outcome, Error, ok, throws, undefined, diverges, promise_already_satisfied, length_error, ◌>>=◌,
}
use open_x_database.Bytes.{Bytes}
use open_x_database.Bytes.Stream.{opened}
use open_x_database.Bytes.Throwing.{OnlyLength, throwing_rules, result-OnlyLength}
use open_x_database.Message
use open_x_database.Message.{Request, Response, response, deserialize_response, read_response}
use open_x_database.Networking.{Event, transferred, failed}
use open_x_database.Networking.Client.{
  ClientSession, pending, value, ClientPhase, done, run_client, on_client_event, client_events,
  set_promise, on_error, resolving, connecting, sending, reading_length, reading_response,
  on_resolve, on_connect, on_send, on_content_length_receive, on_receive,
}

-- The promise is pending for as long as an operation is waited for, and set when none is.
abbrev pub IsOpen : ClientSession → Type 0
IsOpen s = (s.phase ≢ done) × (s.promise ≡ pending)

abbrev pub IsSettled : ClientSession → Type 0
IsSettled s = (s.phase ≡ done) × (s.promise ≢ pending)

deserialize_response-OnlyLength :
    (max_size : ℕ) (old : Response) (bs : Bytes) (x : Error)
    → deserialize_response max_size old bs ≡ throws x
    → x ≡ length_error
unfolding deserialize_response
deserialize_response-OnlyLength max_size old bs x =
    result-OnlyLength (read_response max_size old (opened bs)) x (reads.at (opened bs) x)
  where
    reads : OnlyLength (read_response max_size old)
    reads = unfold read_response in search throwing_rules depth 20

-- What a callback may leave of an open session.
abbrev Leaves : Outcome ClientSession → Type 0
Leaves (ok s) = IsOpen s ⊎ IsSettled s
Leaves (throws x) = x ≡ length_error
Leaves _ = Unit

received-Leaves :
    (s : ClientSession) (o : Outcome Response)
    → s.promise ≡ pending
    → ((x : Error) → o ≡ throws x → x ≡ length_error)
    → Leaves (o >>= λ r. set_promise (value r) (record s { buffer = [] }))
unfolding set_promise
received-Leaves s (ok r) e h = rw (e, set_promise) (inr (refl, λ q. cc))
received-Leaves s (throws x) e h = h x refl
received-Leaves s undefined e h = tt
received-Leaves s diverges e h = tt

failed-Leaves : (s : ClientSession) → s.promise ≡ pending → Leaves (on_error s)
unfolding on_error set_promise
failed-Leaves s e = rw (e, set_promise) (inr (refl, λ q. cc))

-- The callback of a phase, on an open session.
on_client_event-Leaves :
    (max_size : ℕ) (ev : Event) (s : ClientSession) (phase : ClientPhase)
    → s.phase ≡ phase
    → phase ≢ done
    → s.promise ≡ pending
    → Leaves (on_client_event max_size ev s)
unfolding on_client_event on_resolve on_connect on_send on_content_length_receive on_receive
on_client_event-Leaves max_size failed s resolving at h e =
    rw (at, on_client_event) (failed-Leaves s e)
on_client_event-Leaves max_size failed s connecting at h e =
    rw (at, on_client_event) (failed-Leaves s e)
on_client_event-Leaves max_size failed s (sending bs) at h e =
    rw (at, on_client_event) (failed-Leaves s e)
on_client_event-Leaves max_size failed s reading_length at h e =
    rw (at, on_client_event) (failed-Leaves s e)
on_client_event-Leaves max_size failed s reading_response at h e =
    rw (at, on_client_event) (failed-Leaves s e)
on_client_event-Leaves max_size (transferred bs) s resolving at h e =
    rw (at, on_client_event) (inl (λ q. cc, e))
on_client_event-Leaves max_size (transferred bs) s connecting at h e =
    rw (at, on_client_event) (inl (λ q. cc, e))
on_client_event-Leaves max_size (transferred bs) s (sending cs) at h e =
    rw (at, on_client_event) (inl (λ q. cc, e))
on_client_event-Leaves max_size (transferred bs) s reading_length at h e =
    rw (at, on_client_event) (inl (λ q. cc, e))
on_client_event-Leaves max_size (transferred bs) s reading_response at h e =
    rw (at, on_client_event)
      (received-Leaves s _ e (
        deserialize_response-OnlyLength max_size (response Message.unknown_error [])
          (s.buffer ++ bs)))
on_client_event-Leaves max_size ev s done at h e = absurd (h refl)

done_lem :
    (max_size : ℕ) (ev : Event) (s : ClientSession)
    → s.phase ≡ done
    → on_client_event max_size ev s ≡ ok s
unfolding on_client_event
done_lem max_size ev s at = ground (arith, at)

settled_stays :
    (max_size : ℕ) (evs : List Event) (s : ClientSession)
    → s.phase ≡ done
    → client_events max_size evs s ≡ ok s
unfolding client_events
settled_stays max_size [] s at = refl
settled_stays max_size (ev ∷ evs) s at =
    rw (done_lem max_size ev s at) (settled_stays max_size evs s at)

step-Leaves :
    (max_size : ℕ) (ev : Event) (s : ClientSession)
    → IsOpen s ⊎ IsSettled s
    → Leaves (on_client_event max_size ev s)
step-Leaves max_size ev s (inl open_session) =
    on_client_event-Leaves max_size ev s s.phase refl open_session.0 open_session.1
step-Leaves max_size ev s (inr settled) =
    unfold on_client_event in rw (settled.0, on_client_event) (inr settled)

later-Leaves :
    (next : ClientSession → Outcome ClientSession)
    → ((s : ClientSession) → IsOpen s ⊎ IsSettled s → Leaves (next s))
    → (o : Outcome ClientSession) → Leaves o
    → Leaves (o >>= next)
later-Leaves next keeps (ok s) h = keeps s h
later-Leaves next keeps (throws x) h = h
later-Leaves next keeps undefined h = tt
later-Leaves next keeps diverges h = tt

events-Leaves :
    (max_size : ℕ) (evs : List Event) (s : ClientSession)
    → IsOpen s ⊎ IsSettled s
    → Leaves (client_events max_size evs s)
unfolding client_events
events-Leaves max_size [] s h = h
events-Leaves max_size (ev ∷ evs) s h =
    later-Leaves (λ s'. client_events max_size evs s') (events-Leaves max_size evs)
      (on_client_event max_size ev s) (step-Leaves max_size ev s h)

run_client-IsOpen :
    (r : Request) (is_started : Bool)
    → IsOpen (run_client r is_started) ⊎ IsSettled (run_client r is_started)
unfolding run_client
run_client-IsOpen r true = inl (λ q. cc, refl)
run_client-IsOpen r false = inr (refl, λ q. cc)

ok-Leaves :
    (o : Outcome ClientSession) (s : ClientSession) → Leaves o → o ≡ ok s → IsOpen s ⊎ IsSettled s
ok-Leaves o s h e = subst Leaves e h

throws-Leaves : (o : Outcome ClientSession) (x : Error) → Leaves o → o ≡ throws x → x ≡ length_error
throws-Leaves o x h e = subst Leaves e h

-- Whatever events come to a client's session, in any order and with any bytes: while an operation is
-- waited for its promise is pending, and when none is the promise is set, once for all, since no later
-- event changes the session. Its callbacks never throw that a promise is already satisfied, but at most
-- the `length_error` of a response too long to be allocated.
pub client_events-run_client :
    (max_size : ℕ) (r : Request) (is_started : Bool) (evs : List Event)
    → ((s : ClientSession)
        → client_events max_size evs (run_client r is_started) ≡ ok s
        → (IsOpen s ⊎ IsSettled s)
          × (IsSettled s → (more : List Event) → client_events max_size more s ≡ ok s))
      × ((x : Error)
          → client_events max_size evs (run_client r is_started) ≡ throws x
          → (x ≢ promise_already_satisfied) × (x ≡ length_error))
client_events-run_client max_size r is_started evs =
    let left =
      events-Leaves max_size evs (run_client r is_started) (run_client-IsOpen r is_started) in
    (
      λ s e. (ok-Leaves _ s left e, λ settled more. settled_stays max_size more s settled.0),
      λ x e. let is_length = throws-Leaves _ x left e in (λ q. cc, is_length),
    )
