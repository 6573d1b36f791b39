-- ===== src/Networking/Accepting.antt =====
-- What `stop` does to an acceptor.
use open_x_database.Shared.{arith, ◌≡◌, List, [], ◌∷◌, Bool, true, false, refl}
use open_x_database.Networking.{Acceptor, new_acceptor, start, stop, on_accept}

-- What happens to an acceptor after `start`.
pub data Call : Type 0 where
  stopped : Call
  accepted : Bool → Call

unfoldable pub calls : List Call → Acceptor → Acceptor
calls [] a = a
calls (stopped ∷ cs) a = calls cs (stop a)
calls (accepted b ∷ cs) a = calls cs (on_accept b a)

on_accept_open :
    (b : Bool) (a : Acceptor)
    → a.is_stopped ≡ false
    → a.is_closed ≡ false
    → ((on_accept b a).is_stopped ≡ false)
      × ((on_accept b a).is_accepting ≡ true)
      × ((on_accept b a).is_closed ≡ false)
unfolding on_accept
on_accept_open true a s c = ground (arith, s, c)
on_accept_open false a s c = ground (arith, s, c)

still_accepting :
    (cs : List Call) (a : Acceptor)
    → a.is_stopped ≡ false
    → a.is_accepting ≡ true
    → a.is_closed ≡ false
    → ((calls cs a).is_accepting ≡ true) × ((calls cs a).is_closed ≡ false)
unfolding calls stop
still_accepting [] a s w c = (w, c)
still_accepting (stopped ∷ cs) a s w c = still_accepting cs (stop a) refl w c
still_accepting (accepted b ∷ cs) a s w c =
    let (s', w', c') = on_accept_open b a s c in still_accepting cs (on_accept b a) s' w' c'

-- Whatever calls of `stop` and accepted or failed connections come after `start`, the acceptor
-- waits for a connection and was not closed: `stop` does not stop it.
pub calls-start :
    (cs : List Call)
    → ((calls cs (start new_acceptor)).is_accepting ≡ true)
      × ((calls cs (start new_acceptor)).is_closed ≡ false)
calls-start cs = unfold start in still_accepting cs (start new_acceptor) refl refl refl
