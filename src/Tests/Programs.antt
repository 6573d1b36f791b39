-- ===== src/Tests/Programs.antt =====
-- The client program, with command lines that ask for a put and a get; and the server program.
use open_x_database.Shared.{◌≡◌, none, true, [], ◌∷◌, false, some, arith, ok, refl}
use open_x_database.SsTableRow.{put_row, get_row_size}
use open_x_database.SsTableRow.RoundTrip.{IsRow}
use open_x_database.Compression.{pos, no_compressor}
use open_x_database.Hasher.{no_hash_hash}
use open_x_database.Message
use open_x_database.Message.{
  RequestType, request, request_of, response, ok_status, serialize_request, serialize_response,
}
use open_x_database.Networking.{ServerSession, writing}
use open_x_database.Program.{
  Variables, returned, text, content, print_content, main_client, to_request_type,
}
use open_x_database.Program.{aborted}
use open_x_database.Program.Server.{main_server}
use open_x_database.Program.Server.Leaving.{Lacks, main_server-aborted}
use open_x_database.Disk.{fresh}
use open_x_database.Options.{default_options}
use open_x_database.StorageEngine.Sessions.{new_engine, new_disk, open_engine-fresh}
use open_x_database.Program.Talking.{served, talking, Asks}
use open_x_database.Program.Remembering.{main_client-put-get}
use open_x_database.Tests.Data.{platform, put_seven}
use open_x_database.Tests.Engines.{engine, engine-Represents, put_small}

abbrev put_vars : Variables
put_vars = record { help = false; request_type = some (pos 1); key = some 9; value_of = 8 ∷ [] }

put_vars-Asks : Asks put_vars Message.put 9 (8 ∷ [])
unfolding to_request_type request_of
put_vars-Asks = record {
  code = pos 1;
  no_help = refl;
  asks_type = refl;
  is_type = refl;
  asks_key = refl;
  asks_value = refl;
}

abbrev get_vars : Variables
get_vars = record { help = false; request_type = some (pos 0); key = some 9; value_of = [] }

get_vars-Asks : Asks get_vars Message.get 9 []
unfolding to_request_type request_of
get_vars-Asks = record {
  code = pos 0;
  no_help = refl;
  asks_type = refl;
  is_type = refl;
  asks_key = refl;
  asks_value = refl;
}

put_nine-IsRow : IsRow platform.runtime (put_row 9 (8 ∷ []) (no_hash_hash (8 ∷ [])))
unfolding get_row_size no_hash_hash
put_nine-IsRow = record {
  key_fits = omega arith;
  type_named = tt;
  first_fits = omega arith;
  second_fits = omega arith;
  row_granted = omega arith;
  size_fits = omega arith;
}

main_client-put-get_example :
    (s₁ s₂ : ServerSession) × (served platform engine
        (serialize_request (request Message.put 9 (8 ∷ [])))
      ≡ ok s₁)
    × (s₁.phase ≡ writing (serialize_response (response ok_status [])))
    × (main_client 1000
          (talking
            (serialize_request (request Message.put 9 (8 ∷ [])))
            (serialize_response (response ok_status [])))
          "help"
          (some put_vars)
        ≡ ok (returned 0 (text "Response status: " ∷ text "OK" ∷ text "\n" ∷ [])))
    × (served platform s₁.database (serialize_request (request Message.get 9 [])) ≡ ok s₂)
    × (s₂.phase ≡ writing (serialize_response (response ok_status (8 ∷ []))))
    × (main_client 1000
          (talking
            (serialize_request (request Message.get 9 []))
            (serialize_response (response ok_status (8 ∷ []))))
          "help"
          (some get_vars)
        ≡ ok (
            returned 0 (
              text "Response status: "
              ∷ text "OK"
              ∷ text "\n"
              ∷ text "Content        : "
              ∷ content (8 ∷ [])
              ∷ text "\n"
              ∷ [])))
unfolding print_content
main_client-put-get_example =
    main_client-put-get platform no_compressor no_hash_hash engine [] (put_seven ∷ [])
      engine-Represents 9 (8 ∷ []) (8 ∷ []) refl refl put_nine-IsRow (omega arith) put_small
      (omega arith) (omega arith) (omega arith) put_vars get_vars put_vars-Asks get_vars-Asks "help"

-- The second of two threads cannot be started.
main_server-aborted_example :
    (main_server platform true
          (some 1)
          none
          fresh
          "help"
          (some (record { help = false; threads = 2 }))
        ≡ ok aborted
      → Lacks platform true (some 1) fresh (some (record { help = false; threads = 2 })))
    × (Lacks platform true (some 1) fresh (some (record { help = false; threads = 2 }))
        → main_server platform true
            (some 1)
            none
            fresh
            "help"
            (some (record { help = false; threads = 2 }))
          ≡ ok aborted)
main_server-aborted_example =
    main_server-aborted platform true (some 1) none fresh "help"
      (some (record { help = false; threads = 2 }))

second_thread-Lacks :
    Lacks platform true (some 1) fresh (some (record { help = false; threads = 2 }))
second_thread-Lacks = record {
  variables = record { help = false; threads = 2 };
  given = refl;
  no_help = refl;
  bound = refl;
  engine = new_engine platform default_options;
  disk = new_disk default_options;
  opens = open_engine-fresh platform default_options;
  thread = omega arith;
}
