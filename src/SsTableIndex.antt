-- ===== src/SsTableIndex.antt =====
-- src/SSTableIndex.h and src/SSTableIndex.cpp: where the rows of one segment file stand.
-- `std::unordered_map` is an association list; the order in which it is gone through is the argument
-- `order` of `dump`.
pub mod Lookup
pub mod Loading
pub mod Keys
pub mod Ending
use open_x_database.Shared.{
  ℕ, zero, suc, ◌+◌, ◌%◌, ◌^◌, Bool, true, false, List, [], ◌∷◌, ◌++◌, Option, none, some,
}
use open_x_database.Shared.{◌==◌, if◌then◌else◌, length, take, drop, Outcome, ok, throws, undefined}
use open_x_database.Shared.{diverges, invalid_input_stream, invalid_output_stream}
use open_x_database.Key.{same_key}
use open_x_database.Bytes.{Bytes, to_bytes, from_bytes}
use open_x_database.Bytes.Stream.{InStream, Reader, opened, pure, ◌>>=◌, read_uint, read_object}
use open_x_database.Bytes.Loop.{while_not_eof}
use open_x_database.SsTableRow.{SsTableRow, get_row_size}
use open_x_database.SsTable.{SsTable}

-- Two `uint32_t`: the constructor's arguments are cut to 32 bits.
pub record FileSearchHint : Type 0 where
  pub offset : ℕ
  pub size : ℕ

unfoldable pub file_hint : ℕ → ℕ → FileSearchHint
file_hint offset size = record { offset = offset % 2 ^ 32; size = size % 2 ^ 32 }

abbrev pub no_hint : FileSearchHint
no_hint = record { offset = 0; size = 0 }

abbrev pub Hints : Type 0
Hints = List (ℕ × FileSearchHint)

unfoldable pub lookup : ℕ → Hints → Option FileSearchHint
lookup k [] = none
lookup k ((j, h) ∷ m) = if same_key j k then some h else lookup k m

unfoldable pub insert_or_assign : ℕ → FileSearchHint → Hints → Hints
insert_or_assign k h [] = (k, h) ∷ []
insert_or_assign k h ((j, g) ∷ m) =
    if same_key j k then (k, h) ∷ m else (j, g) ∷ insert_or_assign k h m

-- `m_map.insert({key, hint})` keeps what is there.
unfoldable pub insert_new : ℕ → FileSearchHint → Hints → Hints
insert_new k h [] = (k, h) ∷ []
insert_new k h ((j, g) ∷ m) = if same_key j k then (j, g) ∷ m else (j, g) ∷ insert_new k h m

pub record SsTableIndex : Type 0 where
  pub map : Hints
  pub file_id : ℕ

unfoldable pub new : ℕ → SsTableIndex
new file_id = record { map = []; file_id = file_id % 2 ^ 32 }

unfoldable pub insert : SsTableIndex → ℕ → FileSearchHint → SsTableIndex
unfolding insert_or_assign
insert t k h = record t { map = insert_or_assign k h t.map }

-- The answer, and what is left in the `hint` of the caller.
found : Option FileSearchHint → Bool × FileSearchHint
found none = (false, no_hint)
found (some h) = (true, h)

unfoldable pub get : SsTableIndex → ℕ → Bool × FileSearchHint
unfolding lookup found
get t k = found (lookup k t.map)

-- The loop of the constructor from a table; `offset` is a `uint32_t`.
unfoldable pub fill : ℕ → List SsTableRow → SsTableIndex → SsTableIndex
unfolding insert file_hint
fill offset [] t = t
fill offset (r ∷ rs) t =
    fill ((offset + get_row_size r) % 2 ^ 32) rs
      (insert t r.key (file_hint offset (get_row_size r)))

unfoldable pub of_table : ℕ → SsTable → SsTableIndex
unfolding fill new
of_table file_id table = fill 0 table.rows (new file_id)

abbrev pub hint_bytes : FileSearchHint → Bytes
hint_bytes h = to_bytes 4 h.offset ++ to_bytes 4 h.size

unfoldable pub dump_hints : Hints → Bytes
dump_hints [] = []
dump_hints ((k, h) ∷ m) =
    to_bytes 1 8 ++ (to_bytes 8 k ++ (to_bytes 1 8 ++ (hint_bytes h ++ dump_hints m)))

-- `is_open` tells whether the stream's file could be opened.
unfoldable pub dump : (Hints → Hints) → Bool → SsTableIndex → Outcome Bytes
unfolding dump_hints
dump order is_open t =
    if is_open
    then ok (to_bytes 1 4 ++ (to_bytes 4 t.file_id ++ dump_hints (order t.map)))
    else throws invalid_output_stream

unfoldable pub hint_of : Bytes → FileSearchHint
hint_of bs = record { offset = from_bytes (take 4 bs); size = from_bytes (drop 4 bs) }

-- The variables that live across the rounds of `load`: a short read leaves their old values.
pub record Round : Type 0 where
  pub size_of_key : ℕ
  pub key : ℕ
  pub size_of_hint : ℕ
  pub hint : FileSearchHint

unfoldable pub read_round : Round → Reader Round
unfolding hint_of
read_round r = do
  size_of_key ← read_uint 1 1 r.size_of_key
  k ← read_uint 8 size_of_key r.key
  size_of_hint ← read_uint 1 1 r.size_of_hint
  h ← read_object size_of_hint (hint_bytes r.hint)
  pure
      (record { size_of_key = size_of_key; key = k; size_of_hint = size_of_hint; hint = hint_of h })

-- A round of `load`: the variables, and the map.
unfoldable pub load_round : Round × Hints → Reader (Round × Hints)
unfolding insert_new
load_round (r, m) = do r' ← read_round r; pure (r', insert_new r'.key r'.hint m)

unfoldable pub read_file_id : ℕ → Reader ℕ
read_file_id old = do size_of_file_id ← read_uint 1 1 0; read_uint 4 size_of_file_id old

abbrev pub first_round : Round
first_round = record { size_of_key = 0; key = 0; size_of_hint = 0; hint = no_hint }

-- The map is in the object, where the loop ends.
abbrev pub loaded : ℕ → Outcome (Round × Hints) → Outcome SsTableIndex
loaded file_id (ok (r, m)) = ok (record { map = m; file_id = file_id })
loaded file_id (throws e) = throws e
loaded file_id undefined = undefined
loaded file_id diverges = diverges

-- The loop behind the file id. Each round but the last takes a byte, so the fuel is enough.
abbrev pub load_rounds : ℕ → Hints → Outcome (ℕ × InStream) → Outcome SsTableIndex
load_rounds fuel m (ok (file_id, s)) =
    loaded file_id (while_not_eof load_round fuel (first_round, m) s)
load_rounds fuel m (throws e) = throws e
load_rounds fuel m undefined = undefined
load_rounds fuel m diverges = diverges

-- `none` is a stream whose file could not be opened.
unfoldable pub load : SsTableIndex → Option Bytes → Outcome SsTableIndex
unfolding load_round read_file_id
load t none = throws invalid_input_stream
load t (some bs) = load_rounds (length bs + 2) t.map (read_file_id t.file_id (opened bs))
