-- ===== src/StorageEngine/Access.antt =====
-- `put`, `remove`, `get` and `handle` of src/StorageEngine.cpp.
use open_x_database.Shared.{ℕ, Bool, true, false, [], Option, none, some}
use open_x_database.Shared.{◌==◌, ◌&&◌, ltb, leb, if◌then◌else◌, drop, replicate}
use open_x_database.Shared.{Outcome, ok, throws, undefined, diverges, data_corrupted, length_error}
use open_x_database.Bytes.{Bytes}
use open_x_database.Bytes.Stream.{opened, result, read_object}
use open_x_database.SsTableRow.{UInt128, deserialize}
use open_x_database.MemTable
use open_x_database.MemTable.{MemTable}
use open_x_database.Index
use open_x_database.Index.{Index, SearchHint}
use open_x_database.BloomFilter
use open_x_database.Hasher.{Hasher}
use open_x_database.Disk
use open_x_database.Disk.{Disk}
use open_x_database.Action.{Action, done, lift, modify, gets, ◌>>=◌, ◌>>◌}
use open_x_database.StorageEngine.State.{Platform, Engine, num_hashes}
use open_x_database.StorageEngine.Snapshot.{make_snapshot}
use open_x_database.Message
use open_x_database.Message.{Request, Response}

-- The hasher is called through its pointer.
unfoldable pub checksum_of : Option Hasher → Bytes → Outcome UInt128
checksum_of none bs = undefined
checksum_of (some h) bs = ok (h bs)

unfoldable pub put_value : Platform → ℕ → Bytes → Action Engine Unit
unfolding make_snapshot checksum_of
put_value p k v = do
  e ← gets (λ e. e)
  compressed ← lift (e.compressor.compress v)
  sum ← lift (checksum_of e.hasher compressed)
  modify (λ e. record e { mem_table = MemTable.put_value e.mem_table k compressed sum })
  is_full ← gets (λ e. leb e.mem_table_limit e.mem_table.memory_size)
  if is_full then make_snapshot p else done tt

unfoldable pub remove_key : ℕ → Action Engine Unit
remove_key k = modify (λ e. record e { mem_table = MemTable.remove_key e.mem_table k })

unfoldable pub find_in_memory : ℕ → Engine → Option (Bytes × UInt128)
find_in_memory k e = MemTable.get e.mem_table k

-- The `size` bytes behind `offset`, over zeros where the file has none or is not there.
unfoldable pub read_segment : ℕ → SearchHint → Option Bytes → Outcome Bytes
read_segment max_size hint none =
    if ltb max_size hint.size then throws length_error else ok (replicate hint.size 0)
read_segment max_size hint (some bs) =
    if ltb max_size hint.size
    then throws length_error
    else result (read_object hint.size (replicate hint.size 0) (opened (drop hint.offset bs)))

-- `none` is the answer `false`.
unfoldable pub find_in_segment : Platform → SearchHint → Action Engine (Option (Bytes × UInt128))
unfolding read_segment
find_in_segment p hint = do
  e ← gets (λ e. e)
  bytes ← lift (
      read_segment p.runtime.max_size hint
        (Disk.read_from (Disk.segment_name hint.file_id) e.disk.segments))
  row ← lift (deserialize p.runtime bytes)
  done (MemTable.live (some row))

unfoldable pub find_on_disk : Platform → ℕ → Action Engine (Option (Bytes × UInt128))
find_on_disk p k = do
  e ← gets (λ e. e)
  let (is_found, hint) = Index.get e.index k
  let is_likely = BloomFilter.probably_contains p.hashes num_hashes e.bloom_filter k
  if is_likely && is_found then find_in_segment p hint else done none

unfoldable pub same_checksum : UInt128 → UInt128 → Bool
same_checksum a b = (a.first == b.first) && (a.second == b.second)

-- The check of the checksum, and the value.
unfoldable pub open_value : Engine → Option (Bytes × UInt128) → Outcome (Option Bytes)
unfolding checksum_of same_checksum
open_value e none = ok none
open_value e (some (compressed, sum)) = elim (checksum_of e.hasher compressed) [
  | ok h ↦ (elim (same_checksum h sum) [
    | false ↦ throws data_corrupted
    | true ↦ (elim (e.compressor.uncompress compressed) [
      | ok v ↦ ok (some v)
      | throws x ↦ throws x
      | undefined ↦ undefined
      | diverges ↦ diverges
    ])
  ])
  | throws x ↦ throws x
  | undefined ↦ undefined
  | diverges ↦ diverges
]

-- `findInMemory(...) || findOnDisk(...)`: the disk is searched if memory has no live row.
unfoldable pub find_anywhere :
    Platform → ℕ → Option (Bytes × UInt128) → Action Engine (Option (Bytes × UInt128))
unfolding find_on_disk
find_anywhere p k none = find_on_disk p k
find_anywhere p k (some hit) = done (some hit)

unfoldable pub get : Platform → ℕ → Action Engine (Option Bytes)
unfolding find_in_memory find_anywhere open_value
get p k = do
  e ← gets (λ e. e)
  hit ← find_anywhere p k (find_in_memory k e)
  lift (open_value e hit)

unfoldable pub answer : Option Bytes → Response
answer none = Message.response Message.not_found []
answer (some v) = Message.response Message.ok_status v

unfoldable pub dispatch : Platform → Message.RequestType → ℕ → Bytes → Action Engine Response
unfolding answer
dispatch p Message.get k v = do r ← get p k; done (answer r)
dispatch p Message.put k v = do put_value p k v; done (Message.response Message.ok_status [])
dispatch p Message.delete k v = do remove_key k; done (Message.response Message.ok_status [])
dispatch p (Message.RequestType.unnamed b) k v =
    done (Message.response Message.invalid_request_type [])

-- `catch (std::exception&)`
unfoldable pub caught : Outcome Response × Engine → Outcome Response × Engine
caught (throws x, e) = (ok (Message.response Message.unknown_error []), e)
caught (o, e) = (o, e)

unfoldable pub handle : Platform → Request → Action Engine Response
unfolding dispatch caught
handle p r e = caught (dispatch p r.request_type r.key r.value e)
