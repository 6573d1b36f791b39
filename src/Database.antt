-- ===== src/Database.antt =====
-- src/Database.cpp: the interface of the library, which hands each call to the engine that it holds in
-- place (include/omx/internal/FastPimpl.h). The path is that of the directory.
use open_x_database.Shared.{ℕ, Option, Outcome}
use open_x_database.Bytes.{Bytes}
use open_x_database.Action.{Action}
use open_x_database.Message.{Request, Response}
use open_x_database.Options.{Options}
use open_x_database.Disk.{Disk}
use open_x_database.StorageEngine.State.{Platform, Engine}
use open_x_database.StorageEngine.Opening.{open_engine}
use open_x_database.StorageEngine.Access

abbrev pub Database : Type 0
Database = Engine

unfoldable pub put : Platform → ℕ → Bytes → Action Database Unit
put p key value = Access.put_value p key value

unfoldable pub remove : ℕ → Action Database Unit
remove key = Access.remove_key key

unfoldable pub get : Platform → ℕ → Action Database (Option Bytes)
get p key = Access.get p key

unfoldable pub open_at : Platform → Options → Disk → Outcome Database × Disk
open_at p options d = open_engine p options d

unfoldable pub handle : Platform → Request → Action Database Response
handle p request = Access.handle p request
