-- ===== src/StorageEngine/Losing.antt =====
-- A database that is opened and closed.
use open_x_database.Shared.{
  ℕ, ◌≡◌, ◌<◌, refl, sym, ◌∙◌, ap, [], Option, none, some, ok, Outcome, throws, undefined, diverges,
}
use open_x_database.Action.{after-ok}
use open_x_database.MemTable
use open_x_database.MemTable.{MemTable, find}
use open_x_database.MemTable.Recovery.{IsByteEntry, restore_empty_log}
use open_x_database.WriteAheadLog
use open_x_database.WriteAheadLog.{WriteAheadLog}
use open_x_database.Bytes.{Bytes}
use open_x_database.Options.{Options}
use open_x_database.Disk.{Disk}
use open_x_database.StorageEngine.State.{Platform, Engine}
use open_x_database.StorageEngine.Opening.{
  open_engine, close_engine, settle_options, restore_mem_table, with_new_log, make_directories,
  load_index, load_bloom_filter,
}

-- The log of the table that an action gave, if it gave one.
log_of : Outcome MemTable × Disk → Option WriteAheadLog
log_of (ok t, d) = t.wal
log_of _ = none

engine_log : Outcome Engine × Disk → Option WriteAheadLog
engine_log (ok e, d) = e.mem_table.wal
engine_log _ = none

-- Where a table was restored, it has a new log.
new_log :
    (o : Options) (d d' : Disk) (r : Outcome MemTable) (t : MemTable)
    → with_new_log o d r ≡ (ok t, d')
    → t.wal ≡ some (WriteAheadLog.open_log o.max_wal_buffer_size)
unfolding MemTable.set_write_ahead_log log_of
new_log o d d' (ok t') t e = sym (ap log_of e)
new_log o d d' (throws x) t e = cc
new_log o d d' undefined t e = cc
new_log o d d' diverges t e = cc

has_new_log :
    (p : Platform) (o : Options) (wal : Option Bytes) (d d' : Disk) (t : MemTable)
    → restore_mem_table p o (record d { wal = wal }) ≡ (ok t, d')
    → t.wal ≡ some (WriteAheadLog.open_log o.max_wal_buffer_size)
unfolding restore_mem_table MemTable.set_write_ahead_log log_of
has_new_log p o none d d' t e = sym (ap log_of e)
has_new_log p o (some bs) d d' t e =
    new_log o _ d' (MemTable.restore_from_log p.runtime MemTable.empty bs) t e

opened_log :
    (p : Platform) (given : Options) (d d' : Disk) (e : Engine)
    → open_engine p given d ≡ (ok e, d')
    → (o : Options) × (e.mem_table.wal ≡ some (WriteAheadLog.open_log o.max_wal_buffer_size))
unfolding open_engine engine_log
opened_log p given d d' e opens =
    let (o, d₁, settled, rest) = after-ok _ (settle_options given d) e d' opens in
    let (t, d₂, restored, rest₂) = after-ok _ (restore_mem_table p o d₁) e d' rest in
    let (x, d₃, index_loads, rest₃) = after-ok _ (load_index (make_directories d₂)) e d' rest₂ in
    let (bits, d₄, filter_loads, same) = after-ok _ (load_bloom_filter d₃) e d' rest₃ in
    (o, sym (ap engine_log same) ∙ has_new_log p o d₁.wal d₁ d₂ t restored)

-- Let a database be opened, with whatever options and directory, and be closed at once. Then its log is
-- empty, whatever rows the log had before and `open` has restored to memory; and where the
-- uninitialized byte holds a value of the enumeration, the next `open` restores no key from it but
-- 0, which no one put.
pub open-close_engine :
    (p : Platform) (given : Options) (d d' : Disk) (e : Engine)
    → open_engine p given d ≡ (ok e, d')
    → IsByteEntry p.runtime.garbage
    → ((close_engine e).wal ≡ some [])
      × (t : MemTable) × (MemTable.restore_from_log p.runtime MemTable.empty [] ≡ ok t)
      × ((k : ℕ) → 0 < k → find k t.map ≡ none)
unfolding close_engine WriteAheadLog.open_log
open-close_engine p given d d' e opens h =
    let (o, at) = opened_log p given d d' e opens in
    let (t, restored, zero_key, others) = restore_empty_log p.runtime h in
    (rw at refl, t, restored, others)
