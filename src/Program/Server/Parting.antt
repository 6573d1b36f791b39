-- ===== src/Program/Server/Parting.antt =====
-- What destroying the server of the program comes to.
use open_x_database.Shared.{ℕ, ◌≡◌, ◌≢◌, refl, Bool, true, false, [], Option, none, some, replicate}
use open_x_database.Shared.{Outcome, ok, throws, undefined, diverges, invalid_argument, List}
use open_x_database.Networking
use open_x_database.Networking.{new_acceptor}
use open_x_database.Networking.Server.{
  Server, Serving, stop_server, joined, destroy, destroyed, close, join_all,
}
use open_x_database.Networking.Joining.{any_joinable-replicate-false, join_all-replicate-true}
use open_x_database.Program.{returned, aborted}
use open_x_database.Program.Server.{left, waited}

-- A server whose threads are all joinable can be destroyed.
destroy-close :
    (n : ℕ) (s : Server Serving)
    → s.threads ≡ replicate n true
    → (s' : Server Serving) × (destroy close s ≡ some (ok tt, s'))
unfolding destroy destroyed stop_server joined close
destroy-close n s joinable = (
  record s {
    derived = record s.derived { acceptor = Networking.stop s.derived.acceptor };
    threads = replicate n false;
    is_service_stopped = true;
  },
  rw (joinable, join_all-replicate-true n, any_joinable-replicate-false n) refl,
)

left-destroy :
    (m n : ℕ) (s : Server Serving)
    → s.threads ≡ replicate n true
    → left m (destroy close s) ≡ ok (returned m [])
unfolding left
left-destroy m n s joinable = let (s', e) = destroy-close n s joinable in rw e refl

pub left-ne-aborted :
    (m n : ℕ) (s : Server Serving)
    → s.threads ≡ replicate n true
    → left m (destroy close s) ≢ ok aborted
left-ne-aborted m n s joinable = rw (left-destroy m n s joinable) (λ q. cc)

pub waited-ne-aborted :
    (run : Option (Outcome (Unit {0}))) (n : ℕ) (s : Server Serving)
    → s.threads ≡ replicate n true
    → waited run s ≢ ok aborted
unfolding waited
waited-ne-aborted none n s joinable = λ q. cc
waited-ne-aborted (some (ok u)) n s joinable = left-ne-aborted 0 n s joinable
waited-ne-aborted (some (throws x)) n s joinable = left-ne-aborted 1 n s joinable
waited-ne-aborted (some undefined) n s joinable = λ q. cc
waited-ne-aborted (some diverges) n s joinable = λ q. cc

-- The server is destroyed while a place of its pool has no thread.
pub left-unjoinable :
    (m : ℕ) (s : Server Serving) (ts : List Bool)
    → join_all s.threads ≡ (throws invalid_argument, ts)
    → left m (destroy close s) ≡ ok aborted
unfolding left destroy destroyed stop_server joined close
left-unjoinable m s ts joins = rw joins refl
