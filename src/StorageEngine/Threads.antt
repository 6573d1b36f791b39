-- ===== src/StorageEngine/Threads.antt =====
-- `StorageEngine::get` among other threads. It holds the lock, shared, while it looks into memory, and
-- once more while it looks into the index; it reads the filter and the segment's file without it. Other
-- calls of `get` change nothing. A `put` or `remove` holds the lock alone while it changes the engine,
-- and is one step. What a thread reads while another writes the same byte is not modelled.
use open_x_database.Shared.{
  ℕ, ◌+◌, List, [], ◌∷◌, Bool, true, false, Option, none, some, if◌then◌else◌,
}
use open_x_database.Shared.{Outcome, ok, throws, undefined, diverges, ◌>>=◌}
use open_x_database.Bytes.{Bytes}
use open_x_database.SsTableRow.{UInt128}
use open_x_database.Index
use open_x_database.Index.{SearchHint}
use open_x_database.BloomFilter
use open_x_database.StorageEngine.State.{Platform, Engine, num_hashes}
use open_x_database.StorageEngine.Access.{find_in_memory, find_in_segment, open_value}
use open_x_database.StorageEngine.Sessions.{Op, step}

-- How far a `get` has come: it has not begun, memory had no live row, the filter let the key pass,
-- the index had a hint, or a search has ended.
pub data Getting : Type 0 where
  ready missed likely : Getting
  hinted : SearchHint → Getting
  found : Outcome (Option (Bytes × UInt128)) → Getting

unfoldable pub after_memory : Option (Bytes × UInt128) → Getting
after_memory none = missed
after_memory (some hit) = found (ok (some hit))

unfoldable pub after_index : Bool × SearchHint → Getting
after_index (false, hint) = found (ok none)
after_index (true, hint) = hinted hint

-- The next step of a `get`.
unfoldable pub look : Platform → ℕ → Engine → Getting → Getting
unfolding after_memory after_index
look p k e ready = after_memory (find_in_memory k e)
look p k e missed =
    if BloomFilter.probably_contains p.hashes num_hashes e.bloom_filter k
    then likely
    else found (ok none)
look p k e likely = after_index (Index.get e.index k)
look p k e (hinted hint) = found (find_in_segment p hint e).0
look p k e (found o) = found o

-- The rest of `get` needs the hasher and the compressor only, which stay as `open` made them.
unfoldable pub finished : Engine → Outcome (Option (Bytes × UInt128)) → Outcome (Option Bytes)
finished e o = o >>= open_value e

pub data Event : Type 0 where
  write_event : Op → Event
  look_event : Event

-- A write that throws ends the sequence.
abbrev pub go_on :
    (Engine → Outcome (Unit {0}) × (Getting × Engine))
    → Getting
    → Outcome (Unit {0}) × Engine
    → Outcome (Unit {0}) × (Getting × Engine)
go_on rest g (ok u, e) = rest e
go_on rest g (throws x, e) = (throws x, (g, e))
go_on rest g (undefined, e) = (undefined, (g, e))
go_on rest g (diverges, e) = (diverges, (g, e))

-- Steps of a `get` of the key, and writes, in the order in which they come.
unfoldable pub play :
    Platform → ℕ → List Event → Getting → Engine → Outcome (Unit {0}) × (Getting × Engine)
unfolding look
play p k [] g e = (ok tt, (g, e))
play p k (look_event ∷ evs) g e = play p k evs (look p k e g) e
play p k (write_event op ∷ evs) g e = go_on (play p k evs g) g (step p op e)

-- What was written, in that order.
abbrev pub writes : List Event → List Op
writes [] = []
writes (look_event ∷ evs) = writes evs
writes (write_event op ∷ evs) = op ∷ writes evs

-- How many steps of the `get` there are.
abbrev pub looks : List Event → ℕ
looks [] = 0
looks (look_event ∷ evs) = 1 + looks evs
looks (write_event op ∷ evs) = looks evs
