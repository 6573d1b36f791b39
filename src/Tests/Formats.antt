-- ===== src/Tests/Formats.antt =====
-- The formats of rows and messages, and the files' names, on concrete inputs.
use open_x_database.Shared.{◌≡◌, ◌++◌, [], ◌∷◌, arith, length, ok, true}
use open_x_database.Bytes.Stream.{opened}
use open_x_database.SsTableRow.{deserialize_stream, serialize, get_row_size}
use open_x_database.SsTableRow.RoundTrip.{IsRow, length-serialize, deserialize_stream-serialize}
use open_x_database.Message
use open_x_database.Message.{
  request, response, serialize_request, serialize_response, deserialize_request,
  deserialize_response,
}
use open_x_database.Message.RoundTrip.{
  deserialize-serialize_request, deserialize-serialize_response,
}
use open_x_database.BloomFilter.{add, probably_contains}
use open_x_database.BloomFilter.Membership.{probably_contains-add}
use open_x_database.Tests.Data.{runtime, hashes, put_seven, remove_four}

pub put_seven-IsRow : IsRow runtime put_seven
unfolding get_row_size
put_seven-IsRow = record {
  key_fits = omega arith;
  type_named = tt;
  first_fits = omega arith;
  second_fits = omega arith;
  row_granted = omega arith;
  size_fits = omega arith;
}

deserialize_stream-serialize_example :
    deserialize_stream runtime (opened (serialize put_seven ++ serialize remove_four))
    ≡ ok (put_seven, opened (serialize remove_four))
deserialize_stream-serialize_example =
    deserialize_stream-serialize runtime put_seven (serialize remove_four) put_seven-IsRow

deserialize-serialize_request_example :
    deserialize_request 100
      (request Message.get 0 [])
      (serialize_request (request Message.put 9 (5 ∷ 6 ∷ [])))
    ≡ ok (request Message.put 9 (5 ∷ 6 ∷ []))
deserialize-serialize_request_example =
    deserialize-serialize_request 100 (request Message.get 0 []) Message.put 9 (5 ∷ 6 ∷ []) tt
      (omega arith) (omega arith) (omega arith)

probably_contains-add_example :
    probably_contains hashes 2 (add hashes 2 (0 ∷ 0 ∷ 0 ∷ 0 ∷ []) 8) 8 ≡ true
probably_contains-add_example = probably_contains-add hashes 2 (0 ∷ 0 ∷ 0 ∷ 0 ∷ []) 8 (omega arith)

length-serialize_example : length (serialize put_seven) ≡ get_row_size put_seven
length-serialize_example = length-serialize put_seven

deserialize-serialize_response_example :
    deserialize_response 100
      (response Message.unknown_error [])
      (serialize_response (response Message.ok_status (5 ∷ 6 ∷ [])))
    ≡ ok (response Message.ok_status (5 ∷ 6 ∷ []))
deserialize-serialize_response_example =
    deserialize-serialize_response 100 (response Message.unknown_error []) Message.ok_status
      (5 ∷ 6 ∷ []) tt (omega arith) (omega arith)
