-- ===== src/Networking/Destroying.antt =====
-- What the destructor of a server comes to.
use open_x_database.Shared.{ℕ, ◌≡◌, ◌∙◌, ap, refl, true, false, replicate, suc, none, some, ok}
use open_x_database.Options.{Options}
use open_x_database.Disk.{Disk}
use open_x_database.StorageEngine.State.{Platform, Engine}
use open_x_database.StorageEngine.Opening.{open_engine}
use open_x_database.Networking
use open_x_database.Networking.{Acceptor}
use open_x_database.Networking.Server.{
  unopened, is_open, open_database, with_threads, Server, Serving, new_server, start_server,
  launched, stop_server, joined, destroy, destroyed, init, close, opened_database, any_joinable,
}
use open_x_database.Networking.Joining.{
  launch_all-replicate, launched-new_server, any_joinable-replicate-false, join_all-replicate-true,
  join_all-replicate-false,
}

-- A server of one thread at least, each of which the system can start, and whose database can be opened,
-- starts, and then can be destroyed,
-- which joins its threads. But where `stop` is called first, it succeeds, its acceptor still waits for a
-- connection, and the destructor ends the program.
pub destroy-stop_server :
    (p : Platform) (o : Options) (n : ℕ) (a : Acceptor) (d d' : Disk) (e : Engine)
    → open_engine p o d ≡ (ok e, d')
    → (s₁ : Server Serving) × (s₂ : Server Serving) × (s₃ : Server Serving) × (start_server none
          (init p o)
          (new_server (suc n) (record { acceptor = a; disk = d; database = unopened }))
        ≡ some (ok tt, s₁))
      × (s₁.derived.database ≡ is_open e)
      × (destroy close s₁ ≡ some (ok tt, s₂))
      × (s₂.threads ≡ replicate (suc n) false)
      × (stop_server close s₁ ≡ some (ok tt, s₃))
      × (s₃.derived.acceptor.is_accepting ≡ true)
      × (destroy close s₃ ≡ none)
unfolding start_server launched open_database with_threads stop_server joined destroy destroyed init
    close new_server opened_database any_joinable Networking.start Networking.stop
    Networking.init_accept
destroy-stop_server p o n a d d' e opens =
    let unstarted : Serving = record { acceptor = a; disk = d; database = unopened } in
    let running : Server Serving = record {
      num_threads = suc n;
      threads = replicate (suc n) true;
      is_service_stopped = false;
      derived = record { acceptor = Networking.start a; disk = d'; database = is_open e };
    } in
    let left : Server Serving = record {
      num_threads = suc n;
      threads = replicate (suc n) false;
      is_service_stopped = true;
      derived = record {
        acceptor = Networking.stop (Networking.start a);
        disk = d';
        database = is_open e;
      };
    } in
    (
      running,
      left,
      left,
      ap (launched none (new_server (suc n) unstarted))
            (ap (opened_database (Networking.start a) unopened) opens)
          ∙ launched-new_server none (suc n) unstarted running.derived
          ∙ ap (with_threads (record (new_server (suc n) unstarted) { derived = running.derived }))
              (launch_all-replicate (suc n)),
      refl,
      rw (join_all-replicate-true (suc n), any_joinable-replicate-false (suc n)) refl,
      refl,
      rw (join_all-replicate-true (suc n)) refl,
      refl,
      rw (join_all-replicate-false n) refl,
    )
