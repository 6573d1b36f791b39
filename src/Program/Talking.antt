-- ===== src/Program/Talking.antt =====
-- The client program and the server, over connections that transfer all bytes.
use open_x_database.Shared.{
  ℕ, ◌+◌, ◌≡◌, ◌≤◌, ◌<◌, ◌^◌, refl, sym, ◌∙◌, ap, true, false, List, [], ◌∷◌, ◌++◌, take, drop,
  length, arith, some, Outcome, ok, throws, undefined, diverges, ◌>>=◌,
}
use open_x_database.Shared.{take-append-drop, length-take}
use open_x_database.Bytes.{Bytes}
use open_x_database.Compression.{ℤ}
use open_x_database.Message.{
  RequestType, ResponseStatus, request, response, serialize_request, serialize_response,
}
use open_x_database.Message.RoundTrip.{
  IsRequestType, IsStatus, length-serialize_request, length-serialize_response,
}
use open_x_database.StorageEngine.State.{Platform, Engine}
use open_x_database.StorageEngine.Access.{handle}
use open_x_database.Networking.{ServerSession, Event, transferred, writing, start_session, on_event}
use open_x_database.Networking.Client.{ClientSession, run_client, on_client_event, client_events}
use open_x_database.Networking.Exchange.{client_events-on_event}
use open_x_database.Program.{
  Service, Variables, returned, execute, print_response, print_promise, print_session, print_future,
  to_request_type, make_request, perform, main_client,
}

-- The bytes of a request come in over a new connection of a server, the first four and then the others.
abbrev pub served : Platform → Engine → Bytes → Outcome ServerSession
served p e bs =
    on_event p (transferred (take 4 bs)) (start_session e) >>= on_event p (transferred (drop 4 bs))

-- The client's session resolves and connects, sends the bytes of its request, and receives those of a
-- response, the first four and then the others.
abbrev pub talking : Bytes → Bytes → Service
talking bs bs' = record {
  is_started = true;
  is_made = true;
  is_resolving = true;
  events =
      (transferred [] ∷ transferred [] ∷ [])
      ++ (transferred bs ∷ transferred (take 4 bs') ∷ transferred (drop 4 bs') ∷ []);
}

-- The variables of a command line that asks for a request.
pub record Asks (vars : Variables) (t : RequestType) (k : ℕ) (v : Bytes) : Type 0 where
  pub code : ℤ
  pub no_help : vars.help ≡ false
  pub asks_type : vars.request_type ≡ some code
  pub is_type : to_request_type code ≡ t
  pub asks_key : vars.key ≡ some k
  pub asks_value : vars.value_of ≡ v

make_request-Asks :
    (vars : Variables) (t : RequestType) (k : ℕ) (v : Bytes)
    → Asks vars t k v
    → make_request vars ≡ some (request t k v)
unfolding make_request
make_request-Asks vars t k v a =
    rw (a.asks_type, a.asks_key)
      (ap (λ u. some (request (to_request_type a.code) k u)) a.asks_value
        ∙ ap (λ u. some (request u k v)) a.is_type)

client_events-append :
    (max_size : ℕ) (evs evs' : List Event) (c : ClientSession)
    → client_events max_size (evs ++ evs') c
      ≡ client_events max_size evs c >>= client_events max_size evs'
unfolding client_events
client_events-append max_size [] evs' c = refl
client_events-append max_size (ev ∷ evs) evs' c =
    by_outcome (on_client_event max_size ev c) (client_events-append max_size evs evs')
  where
    by_outcome :
        (o : Outcome ClientSession)
        → ((c₁ : ClientSession)
            → client_events max_size (evs ++ evs') c₁
              ≡ client_events max_size evs c₁ >>= client_events max_size evs')
        → (o >>= client_events max_size (evs ++ evs'))
          ≡ (o >>= client_events max_size evs >>= client_events max_size evs')
    by_outcome (ok c₁) h = h c₁
    by_outcome (throws x) h = refl
    by_outcome undefined h = refl
    by_outcome diverges h = refl

module _ (p : Platform) (e : Engine) (t : RequestType) (k : ℕ) (v : Bytes) (s : ResponseStatus)
    (w : Bytes) where
  abbrev asked : Bytes
  asked = serialize_request (request t k v)

  abbrev answered : Bytes
  answered = serialize_response (response s w)

  -- `main` up to the events of the session.
  main_client-Asks :
      (vars : Variables)
      → Asks vars t k v
      → (description : Prim.Native.String.String) (service : Service) → service.is_started ≡ true
      → service.is_made ≡ true
      → service.is_resolving ≡ true
      → main_client p.runtime.max_size service description (some vars)
        ≡ print_session
            (client_events p.runtime.max_size service.events (run_client (request t k v) true))
  unfolding main_client perform execute print_future
  main_client-Asks vars a description service started made resolves =
      rw (a.no_help, make_request-Asks vars t k v a, started, made, resolves) refl

  asked_front : 13 + length v < 2 ^ 32 → length (take 4 asked) ≡ 4
  asked_front fits = omega (arith, fits, length-take 4 asked, length-serialize_request t k v fits)

  answered_front : 5 + length w < 2 ^ 32 → length (take 4 answered) ≡ 4
  answered_front fits =
      omega (arith, fits, length-take 4 answered, length-serialize_response s w fits)

  -- Let the variables ask for a request with fields that fit, which the database of a server handles with
  -- a response that its constructor built and that fits. Then the server's session, when the bytes of the
  -- request come in, hands those of the response to the socket; and the client program, between which and
  -- the server all bytes are transferred, ends with 0 and prints that response.
  pub main_client-handle :
      IsRequestType t
      → k < 2 ^ 64
      → 13 + length v < 2 ^ 32
      → length v ≤ p.runtime.max_size
      → IsStatus s
      → 5 + length w < 2 ^ 32
      → length w ≤ p.runtime.max_size
      → (e' : Engine) → handle p (request t k v) e ≡ (ok (response s w), e')
      → (vars : Variables) → Asks vars t k v
      → (description : Prim.Native.String.String)
      → (session : ServerSession) × (served p e asked ≡ ok session)
        × (session.database ≡ e')
        × (session.phase ≡ writing answered)
        × (main_client p.runtime.max_size (talking asked answered) description (some vars)
            ≡ ok (returned 0 (print_response (response s w))))
  unfolding print_session print_promise
  main_client-handle is_type key_fits fits granted is_status fits' granted' e' handled vars a
        description =
      let (c₁, c₂, s₁, s₂, connects, sends, first, second, kept, writes, receives, answer) =
        client_events-on_event p e t k v s w (take 4 asked) (drop 4 asked) (take 4 answered)
          (drop 4 answered) is_type key_fits fits granted is_status fits' granted' e' handled
          (sym (take-append-drop 4 asked)) (asked_front fits) (sym (take-append-drop 4 answered))
          (answered_front fits') in
      (
        s₂,
        rw first second,
        kept,
        writes ∙ ap writing (take-append-drop 4 answered),
        main_client-Asks vars a description (talking asked answered) refl refl refl
            ∙ ap print_session (
                client_events-append p.runtime.max_size (transferred [] ∷ transferred [] ∷ [])
                  (transferred asked
                    ∷ transferred (take 4 answered)
                    ∷ transferred (drop 4 answered)
                    ∷ [])
                  (run_client (request t k v) true)
                ∙ ap
                    (λ o.
                      o
                      >>= client_events p.runtime.max_size (
                          transferred asked
                          ∷ transferred (take 4 answered)
                          ∷ transferred (drop 4 answered)
                          ∷ []))
                    connects
                ∙ ap
                    (λ bs.
                      client_events p.runtime.max_size
                        (transferred bs
                          ∷ transferred (take 4 answered)
                          ∷ transferred (drop 4 answered)
                          ∷ [])
                        c₁)
                    (sym (take-append-drop 4 asked))
                ∙ receives)
            ∙ ap (λ pr. ok (print_promise pr)) answer,
      )
