-- ===== src/SsTableRow/Progress.antt =====
-- Reading a row from any stream, well formed or not, gets on: so the loops over a file end.
use open_x_database.Bytes.Stream.{read_uint}
use open_x_database.Bytes.Advance.{Advances, GetsOn, Ends, advance_rules, gets_on_rules, ends_rules}
use open_x_database.SsTableRow.{EntryType, Runtime, read_entry_type, deserialize_stream}

read_entry_type-Advances : (old : EntryType) → Advances (read_entry_type old)
unfolding read_entry_type
read_entry_type-Advances old = search advance_rules

read_entry_type-GetsOn : (old : EntryType) → GetsOn (read_entry_type old)
unfolding read_entry_type read_uint
read_entry_type-GetsOn old = search gets_on_rules

pub deserialize_stream-Advances : (rt : Runtime) → Advances (deserialize_stream rt)
unfolding deserialize_stream
deserialize_stream-Advances rt = search (advance_rules, read_entry_type-Advances) depth 20

pub deserialize_stream-GetsOn : (rt : Runtime) → GetsOn (deserialize_stream rt)
unfolding deserialize_stream
deserialize_stream-GetsOn rt = search (gets_on_rules, read_entry_type-GetsOn) depth 20

read_entry_type-Ends : (old : EntryType) → Ends (read_entry_type old)
unfolding read_entry_type
read_entry_type-Ends old = search ends_rules

pub deserialize_stream-Ends : (rt : Runtime) → Ends (deserialize_stream rt)
unfolding deserialize_stream
deserialize_stream-Ends rt = search (ends_rules, read_entry_type-Ends) depth 20
