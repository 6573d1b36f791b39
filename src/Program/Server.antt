-- ===== src/Program/Server.antt =====
-- src/Networking/MainServer.cpp: the server program. What is in the database's directory, whether the
-- acceptor could be bound to its port, the first thread of the pool that the system cannot start, and what
-- running the service comes to are arguments. What ends the program in a thread of the pool is not modelled.
pub mod Parting
pub mod Leaving
use open_x_database.Shared.{ℕ, Bool, true, false, [], ◌∷◌, Option, none, some, if◌then◌else◌}
use open_x_database.Shared.{Outcome, ok, throws, undefined, diverges}
use open_x_database.Disk.{Disk}
use open_x_database.Options.{default_options}
use open_x_database.StorageEngine.State.{Platform}
use open_x_database.Networking.{new_acceptor}
use open_x_database.Networking.Server.{
  Server, Serving, Ending, unopened, new_server, start_server, destroy, init, close,
}
use open_x_database.Program.{Ended, returned, waiting, aborted, text}

pub record ServerVariables : Type 0 where
  pub help : Bool
  pub threads : ℕ

-- `main` returns once the server is destroyed.
unfoldable pub left : ℕ → Ending Serving → Outcome Ended
left n none = ok aborted
left n (some (ok u, s)) = ok (returned n [])
left n (some (throws x, s)) = ok aborted
left n (some (undefined, s)) = undefined
left n (some (diverges, s)) = diverges

-- `wait` runs the service; `none` is that it goes on. What it throws is caught when the server has been
-- destroyed.
unfoldable pub waited : Option (Outcome (Unit {0})) → Server Serving → Outcome Ended
unfolding left
waited none s = ok waiting
waited (some (ok u)) s = left 0 (destroy close s)
waited (some (throws x)) s = left 1 (destroy close s)
waited (some undefined) s = undefined
waited (some diverges) s = diverges

unfoldable pub started : Option (Outcome (Unit {0})) → Ending Serving → Outcome Ended
unfolding left waited
started run none = ok aborted
started run (some (ok u, s)) = waited run s
started run (some (throws x, s)) = left 1 (destroy close s)
started run (some (undefined, s)) = undefined
started run (some (diverges, s)) = diverges

abbrev pub unstarted : ℕ → Disk → Server Serving
unstarted num_threads d =
    new_server num_threads (record { acceptor = new_acceptor; disk = d; database = unopened })

unfoldable pub serve : Platform → Option ℕ → Option (Outcome (Unit {0})) → Disk → ℕ → Outcome Ended
unfolding started
serve p failing run d num_threads =
    started run (start_server failing (init p default_options) (unstarted num_threads d))

-- `main`; `none` is a command line that cannot be parsed.
unfoldable pub main_server :
    Platform
    → Bool
    → Option ℕ
    → Option (Outcome (Unit {0}))
    → Disk
    → Prim.Native.String.String
    → Option ServerVariables
    → Outcome Ended
unfolding serve
main_server p is_bound failing run d description none = ok (returned 1 [])
main_server p is_bound failing run d description (some vars) =
    if vars.help
    then ok (returned 1 (text description ∷ text "\n" ∷ []))
    else if is_bound
    then serve p failing run d vars.threads
    else ok (returned 1 [])
