-- ===== src/Networking/Server.antt =====
-- src/Networking/ServerBase.h and src/Networking/ServerBase.cpp: a pool of threads that run one
-- `io_service`; and src/Networking/DatabaseServerImpl.cpp, the server that fills its virtual functions.
-- A thread ends once the service is stopped. `wait` only runs the service on the
-- thread that calls it.
use open_x_database.Shared.{
  ℕ, zero, suc, ◌-◌, List, [], ◌∷◌, ◌++◌, Bool, true, false, ◌||◌, if◌then◌else◌, replicate, take,
  drop, length,
}
use open_x_database.Shared.{
  Option, none, some, Outcome, ok, throws, undefined, diverges, invalid_argument,
  resource_unavailable,
}
use open_x_database.Action.{Action}
use open_x_database.Options.{Options}
use open_x_database.Disk.{Disk}
use open_x_database.StorageEngine.State.{Platform, Engine, filter_size}
use open_x_database.StorageEngine.Opening.{open_engine, open_again, close_engine}
use open_x_database.BloomFilter
use open_x_database.BloomFilter.{Bits}
use open_x_database.Networking
use open_x_database.Networking.{Acceptor}

-- `threads` has whether each `std::thread` is joinable; `derived` is the state of the derived class.
pub record Server (S : Type 0) : Type 0 where
  pub num_threads : ℕ
  pub threads : List Bool
  pub is_service_stopped : Bool
  pub derived : S

unfoldable pub new_server : {S : Type 0} → ℕ → S → Server S
new_server num_threads derived = record {
  num_threads = num_threads;
  threads = [];
  is_service_stopped = false;
  derived = derived;
}

-- What a call comes to; `none` is `std::terminate`.
abbrev pub Ending : Type 0 → Type 0
Ending S = Option (Outcome (Unit {0}) × Server S)

unfoldable pub any_joinable : List Bool → Bool
any_joinable [] = false
any_joinable (b ∷ ts) = b || any_joinable ts

-- `join` throws on a thread that is not joinable; the threads behind it are not reached.
unfoldable pub join_all : List Bool → Outcome (Unit {0}) × List Bool
join_all [] = (ok tt, [])
join_all (true ∷ ts) = let (o, rest) = join_all ts in (o, false ∷ rest)
join_all (false ∷ ts) = (throws invalid_argument, false ∷ ts)

-- `resize`, for the threads that stay.
unfoldable pub resized : ℕ → List Bool → List Bool
resized n ts = take n ts ++ replicate (n - length ts) false

-- A new thread is assigned to a place, which must not be joinable.
unfoldable pub assigned :
    Bool → Option (Outcome (Unit {0}) × List Bool) → Option (Outcome (Unit {0}) × List Bool)
assigned true rest = none
assigned false none = none
assigned false (some (o, ts)) = some (o, true ∷ ts)

-- A new thread in each place, one after the other. The constructor of a thread throws where the system
-- cannot start it: `failing` is the place of the first such one, and `none` that there is none.
unfoldable pub launch_all : Option ℕ → List Bool → Option (Outcome (Unit {0}) × List Bool)
unfolding assigned
launch_all failing [] = some (ok tt, [])
launch_all none (t ∷ ts) = let rest = launch_all none ts in assigned t rest
launch_all (some zero) (t ∷ ts) = some (throws resource_unavailable, t ∷ ts)
launch_all (some (suc k)) (t ∷ ts) = let rest = launch_all (some k) ts in assigned t rest

module _ {S : Type 0} where
  unfoldable pub with_threads : Server S → Option (Outcome (Unit {0}) × List Bool) → Ending S
  with_threads s none = none
  with_threads s (some (o, ts)) = some (o, record s { threads = ts })

  -- What is left of `start` behind `init`. A thread that `resize` drops while it is joinable ends the
  -- program.
  unfoldable pub launched : Option ℕ → Server S → Outcome Bool × S → Ending S
  unfolding any_joinable resized launch_all with_threads
  launched failing s (ok true, d) =
      if any_joinable (drop s.num_threads s.threads)
      then none
      else with_threads (record s { derived = d })
          (launch_all failing (resized s.num_threads s.threads))
  launched failing s (ok false, d) = some (ok tt, record s { derived = d })
  launched failing s (throws e, d) = some (throws e, record s { derived = d })
  launched failing s (undefined, d) = some (undefined, record s { derived = d })
  launched failing s (diverges, d) = some (diverges, record s { derived = d })

  -- `ServerBase::start`, with the virtual function `init`.
  unfoldable pub start_server : Option ℕ → Action S Bool → Server S → Ending S
  unfolding launched
  start_server failing init s = launched failing s (init s.derived)

  unfoldable pub joined : Server S → Outcome Bool × S → Ending S
  unfolding join_all
  joined s (ok true, d) =
      let (o, ts) = join_all s.threads in
      some (o, record s { derived = d; is_service_stopped = true; threads = ts })
  joined s (ok false, d) = some (ok tt, record s { derived = d })
  joined s (throws e, d) = some (throws e, record s { derived = d })
  joined s (undefined, d) = some (undefined, record s { derived = d })
  joined s (diverges, d) = some (diverges, record s { derived = d })

  -- `ServerBase::stop`, with the virtual function `close`.
  unfoldable pub stop_server : Action S Bool → Server S → Ending S
  unfolding joined
  stop_server close s = joined s (close s.derived)

  -- What is left of the destructor behind `stop`: an exception does not leave it, and no thread may
  -- be joinable when it is destroyed.
  unfoldable pub destroyed : Ending S → Ending S
  unfolding any_joinable
  destroyed none = none
  destroyed (some (ok u, s)) = if any_joinable s.threads then none else some (ok u, s)
  destroyed (some (throws e, s)) = none
  destroyed (some (undefined, s)) = some (undefined, s)
  destroyed (some (diverges, s)) = some (diverges, s)

  -- `~DatabaseServerImpl`
  unfoldable pub destroy : Action S Bool → Server S → Ending S
  unfolding destroyed
  destroy close s = destroyed (stop_server close s)

-- A database that was never opened, one that is open, and one whose last opening did not return, which
-- has kept the number of its next segment and its filter.
pub data DatabaseState : Type 0 where
  unopened : DatabaseState
  is_open : Engine → DatabaseState
  half_open : ℕ → Bits → DatabaseState

-- What `DatabaseServerImpl` has besides.
pub record Serving : Type 0 where
  pub acceptor : Acceptor
  pub disk : Disk
  pub database : DatabaseState

-- `Database::open`. An open database closes the stream of its log when it takes a new table in memory.
unfoldable pub open_database : Platform → Options → Serving → Outcome Engine × Disk
open_database p o s = elim s.database [
  | unopened ↦ open_engine p o s.disk
  | is_open e ↦ open_again p o e.segment_id e.bloom_filter (close_engine e)
  | half_open segment_id bits ↦ open_again p o segment_id bits s.disk
]

unfoldable pub kept_database : DatabaseState → DatabaseState
kept_database unopened = half_open 0 (BloomFilter.new filter_size)
kept_database (is_open e) = half_open e.segment_id e.bloom_filter
kept_database (half_open segment_id bits) = half_open segment_id bits

unfoldable pub opened_database :
    Acceptor → DatabaseState → Outcome Engine × Disk → Outcome Bool × Serving
unfolding kept_database
opened_database a old (ok e, d) = (ok true, record { acceptor = a; disk = d; database = is_open e })
opened_database a old (throws x, d) =
    (throws x, record { acceptor = a; disk = d; database = kept_database old })
opened_database a old (undefined, d) =
    (undefined, record { acceptor = a; disk = d; database = kept_database old })
opened_database a old (diverges, d) =
    (diverges, record { acceptor = a; disk = d; database = kept_database old })

-- `DatabaseServerImpl::init`: the acceptor is started, and then the database opened.
unfoldable pub init : Platform → Options → Action Serving Bool
unfolding open_database opened_database
init p o s = opened_database (Networking.start s.acceptor) s.database (open_database p o s)

-- `DatabaseServerImpl::close`
unfoldable pub close : Action Serving Bool
close s = (ok true, record s { acceptor = Networking.stop s.acceptor })
