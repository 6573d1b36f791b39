-- ===== src/Program/Example.antt =====
-- examples/main.cpp: the example of how the library is used.
pub mod Asserting
use open_x_database.Shared.{
  ℕ, ◌*◌, [], ◌∷◌, List, Option, none, some, Outcome, ok, throws, undefined, diverges,
}
use open_x_database.Bytes.{Bytes}
use open_x_database.Action.{Action, done, ◌>>=◌, ◌>>◌}
use open_x_database.Options.{Options, lz4, city_hash_128}
use open_x_database.Disk.{Disk}
use open_x_database.StorageEngine.State.{Platform}
use open_x_database.Database
use open_x_database.Database.{Database}
use open_x_database.Program.{Printed, text, content, Ended, returned, aborted}

abbrev pub options : Options
options = record {
  max_mem_table_size = 1 * 1024 * 1024;
  max_wal_buffer_size = 1 * 1024;
  compression_type = lz4;
  hash_type = city_hash_128;
}

-- "test read write string"
abbrev pub example_input : Bytes
example_input =
    b't' ∷ b'e' ∷ b's' ∷ b't' ∷ b' ' ∷ b'r' ∷ b'e' ∷ b'a' ∷ b'd' ∷ b' ' ∷ b'w' ∷ b'r' ∷ b'i' ∷ b't'
    ∷ b'e' ∷ b' ' ∷ b's' ∷ b't' ∷ b'r' ∷ b'i' ∷ b'n' ∷ b'g' ∷ []

abbrev pub print_values : Bytes → Bytes → List Printed
print_values input output =
    text "Input  value: "
    ∷ content input
    ∷ text "\n"
    ∷ text "Output value: "
    ∷ content output
    ∷ text "\n"
    ∷ []

-- The second assertion: the value is not found.
unfoldable pub assert_removed : List Printed → Option Bytes → Ended
assert_removed printed none = returned 0 printed
assert_removed printed (some v) = aborted

-- The first assertion, that the value is found, and what comes behind it.
unfoldable pub assert_found : Platform → ℕ → Bytes → Option Bytes → Action Database Ended
unfolding assert_removed
assert_found p key input none = done aborted
assert_found p key input (some output) = do
  Database.remove key
  status ← Database.get p key
  done (assert_removed (print_values input output) status)

-- `main` behind `open`, for any key and value.
unfoldable pub put_and_remove : Platform → ℕ → Bytes → Action Database Ended
unfolding assert_found
put_and_remove p key input = do
  Database.put p key input
  status ← Database.get p key
  assert_found p key input status

unfoldable pub with_database : Platform → ℕ → Bytes → Outcome Database × Disk → Outcome Ended
unfolding put_and_remove
with_database p key input (ok e, d) = (put_and_remove p key input e).0
with_database p key input (throws x, d) = throws x
with_database p key input (undefined, d) = undefined
with_database p key input (diverges, d) = diverges

unfoldable pub main_example : Platform → Disk → Outcome Ended
unfolding with_database
main_example p d = with_database p 1234 example_input (Database.open_at p options d)
