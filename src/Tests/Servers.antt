-- ===== src/Tests/Servers.antt =====
-- Servers that are started, stopped and destroyed.
use open_x_database.Shared.{◌≡◌, true, false, some, none, ok, replicate}
use open_x_database.Disk.{fresh}
use open_x_database.StorageEngine.Sessions.{new_engine, new_disk, open_engine-fresh}
use open_x_database.Networking.{new_acceptor}
use open_x_database.Networking.Server.{
  unopened, is_open, Server, Serving, new_server, start_server, stop_server, destroy, init, close,
}
use open_x_database.Networking.Destroying.{destroy-stop_server}
use open_x_database.Tests.Data.{platform, options}

destroy-stop_server_example :
    (s₁ : Server Serving) × (s₂ : Server Serving) × (s₃ : Server Serving) × (start_server none
        (init platform options)
        (new_server 4 (record { acceptor = new_acceptor; disk = fresh; database = unopened }))
      ≡ some (ok tt, s₁))
    × (s₁.derived.database ≡ is_open (new_engine platform options))
    × (destroy close s₁ ≡ some (ok tt, s₂))
    × (s₂.threads ≡ replicate 4 false)
    × (stop_server close s₁ ≡ some (ok tt, s₃))
    × (s₃.derived.acceptor.is_accepting ≡ true)
    × (destroy close s₃ ≡ none)
destroy-stop_server_example =
    destroy-stop_server platform options 3 new_acceptor fresh (new_disk options)
      (new_engine platform options) (open_engine-fresh platform options)
