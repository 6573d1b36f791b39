-- ===== src/StorageEngine/Responding.antt =====
-- What kind of response `handle` gives.
use mathlib.Core.Path.{subst}
use open_x_database.Shared.{
  ℕ, ◌≡◌, ◌≢◌, refl, [], Option, none, some, ok, throws, undefined, diverges, Outcome,
}
use open_x_database.Bytes.{Bytes}
use open_x_database.Action.{after-ok}
use open_x_database.Message
use open_x_database.Message.{
  Request, Response, RequestType, ResponseStatus, response, ok_status, not_found,
  invalid_request_type, unknown_error,
}
use open_x_database.StorageEngine.State.{Platform, Engine}
use open_x_database.StorageEngine.Access.{
  handle, dispatch, caught, answer, get, put_value, remove_key,
}

-- A value of the enumeration that has a name.
abbrev pub IsNamed : ResponseStatus → Type 0
IsNamed (ResponseStatus.unnamed b) = ⊥
IsNamed _ = Unit {0}

-- The constructor built the response, with a named status; and only a found value is not empty.
pub record IsProper (t : RequestType) (r : Response) : Type 0 where
  pub built : r ≡ response r.status r.value
  pub named : IsNamed r.status
  pub has_value : r.value ≢ [] → (t ≡ Message.get) × (r.status ≡ ok_status)

no_value : (t : RequestType) (s : ResponseStatus) → IsNamed s → IsProper t (response s [])
unfolding response
no_value t s h = record { built = refl; named = h; has_value = λ ne. absurd (ne refl) }

answer-IsProper : (o : Option Bytes) → IsProper Message.get (answer o)
unfolding answer
answer-IsProper none = no_value Message.get not_found tt
answer-IsProper (some v) =
    unfold response in record { built = refl; named = tt; has_value = λ ne. (refl, refl) }

response_of :
    {a b : Response} {s s' : Engine}
    → ◌≡◌ {A = Outcome Response × Engine} (ok a, s) (ok b, s')
    → a ≡ b
response_of e = cc

module _ (p : Platform) (k : ℕ) (v : Bytes) (e e' : Engine) (r : Response) where
  dispatch-IsProper : (t : RequestType) → dispatch p t k v e ≡ (ok r, e') → IsProper t r
  unfolding dispatch
  dispatch-IsProper Message.get h =
      let (o, s, got, same) = after-ok _ (get p k e) r e' h in
      subst (IsProper Message.get) (response_of same) (answer-IsProper o)
  dispatch-IsProper Message.put h =
      let (u, s, done_at, same) = after-ok _ (put_value p k v e) r e' h in
      subst (IsProper Message.put) (response_of same) (no_value Message.put ok_status tt)
  dispatch-IsProper Message.delete h =
      let (u, s, done_at, same) = after-ok _ (remove_key k e) r e' h in
      subst (IsProper Message.delete) (response_of same) (no_value Message.delete ok_status tt)
  dispatch-IsProper (RequestType.unnamed b) h =
      subst (IsProper (RequestType.unnamed b)) (response_of h)
        (no_value (RequestType.unnamed b) invalid_request_type tt)

caught-IsProper :
    (t : RequestType) (o : Outcome Response × Engine) (r : Response) (e' : Engine)
    → ((r' : Response) (s : Engine) → o ≡ (ok r', s) → IsProper t r')
    → caught o ≡ (ok r, e')
    → IsProper t r
unfolding caught
caught-IsProper t (ok r', s) r e' h same = subst (IsProper t) (response_of same) (h r' s refl)
caught-IsProper t (throws x, s) r e' h same =
    subst (IsProper t) (response_of same) (no_value t unknown_error tt)
caught-IsProper t (undefined, s) r e' h same = cc
caught-IsProper t (diverges, s) r e' h same = cc

-- In any engine, whatever it holds, every response that `handle` gives was built by the constructor from
-- a status that has a name and a value, and so announces its own length; its value is empty but for
-- a `Get` that is answered with `Ok`.
pub handle-IsProper :
    (p : Platform) (q : Request) (e e' : Engine) (r : Response)
    → handle p q e ≡ (ok r, e')
    → IsProper q.request_type r
unfolding handle
handle-IsProper p q e e' r h =
    caught-IsProper q.request_type (dispatch p q.request_type q.key q.value e) r e'
      (λ r' s same. dispatch-IsProper p q.key q.value e s r' q.request_type same) h
