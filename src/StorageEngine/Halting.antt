-- ===== src/StorageEngine/Halting.antt =====
-- `open` on any directory.
use open_x_database.Shared.{
  ◌≡◌, ◌≢◌, refl, [], ◌∷◌, Option, none, some, ok, throws, undefined, diverges, Outcome,
}
use open_x_database.Action.Halting.{Halts, halts_rules}
use open_x_database.Bytes.{Bytes}
use open_x_database.Bytes.Stream.{InStream, Reader, opened, result, read_object}
use open_x_database.Bytes.Advance.{Ends, ends_rules, read_object-Ends}
use open_x_database.MemTable
use open_x_database.MemTable.{MemTable}
use open_x_database.MemTable.Recovery.{restore-ne-diverges}
use open_x_database.Index
use open_x_database.Index.{Directory}
use open_x_database.Index.Ending.{load_directory-ne-diverges}
use open_x_database.BloomFilter
use open_x_database.BloomFilter.{Bits}
use open_x_database.Options.{Options}
use open_x_database.Disk.{Disk}
use open_x_database.StorageEngine.State.{Platform, filter_size}
use open_x_database.StorageEngine.Opening.{
  open_engine, settle_options, read_options, options_reader, restore_mem_table, with_new_log,
  load_index, load_bloom_filter,
}

result-ne-diverges : {A : Type 0} (m : Reader A) (s : InStream) → Ends m → result (m s) ≢ diverges
result-ne-diverges m s h = by_outcome (m s) (h.at s)
  where
    by_outcome : {A : Type 0} (o : Outcome (A × InStream)) → o ≢ diverges → result o ≢ diverges
    by_outcome (ok (a, t)) e = λ p. cc
    by_outcome (throws x) e = λ p. cc
    by_outcome undefined e = λ p. cc
    by_outcome diverges e = absurd (e refl)

options_reader-Ends : (o : Options) → Ends (options_reader o)
unfolding options_reader
options_reader-Ends o = search (ends_rules) depth 20

settle_options-Halts : (o : Options) → Halts (settle_options o)
unfolding settle_options read_options
settle_options-Halts o = record { at = λ d. by_file d d.options refl }
  where
    by_file :
        (d : Disk) (file : Option Bytes) → d.options ≡ file → (settle_options o d).0 ≢ diverges
    by_file d none e = rw e (λ p. cc)
    by_file d (some bs) e =
        rw e (result-ne-diverges (options_reader o) (opened bs) (options_reader-Ends o))

with_new_log-ne-diverges :
    (o : Options) (d : Disk) (t : Outcome MemTable)
    → t ≢ diverges
    → (with_new_log o d t).0 ≢ diverges
with_new_log-ne-diverges o d (ok t) h = λ p. cc
with_new_log-ne-diverges o d (throws x) h = λ p. cc
with_new_log-ne-diverges o d undefined h = λ p. cc
with_new_log-ne-diverges o d diverges h = absurd (h refl)

restore_mem_table-Halts : (p : Platform) (o : Options) → Halts (restore_mem_table p o)
unfolding restore_mem_table
restore_mem_table-Halts p o = record { at = λ d. by_file d d.wal refl }
  where
    by_file :
        (d : Disk) (file : Option Bytes) → d.wal ≡ file → (restore_mem_table p o d).0 ≢ diverges
    by_file d none e = rw e (λ q. cc)
    by_file d (some bs) e = rw e (
        with_new_log-ne-diverges o (record d { wal = some bs }) _
          (restore-ne-diverges p.runtime MemTable.empty bs))

load_index-Halts : Halts load_index
unfolding load_index
load_index-Halts = record { at = λ d. by_files d d.indexes refl }
  where
    by_files :
        (d : Disk) (files : Option Directory) → d.indexes ≡ files → (load_index d).0 ≢ diverges
    by_files d none e = rw e (λ q. cc)
    by_files d (some []) e = rw e (λ q. cc)
    by_files d (some (f ∷ files)) e =
        rw e (load_directory-ne-diverges Index.empty (some (f ∷ files)))

load_bloom_filter-Halts : Halts load_bloom_filter
unfolding load_bloom_filter BloomFilter.load
load_bloom_filter-Halts = record { at = λ d. by_file d d.bloom refl }
  where
    by_file : (d : Disk) (file : Option Bytes) → d.bloom ≡ file → (load_bloom_filter d).0 ≢ diverges
    by_file d none e = rw e (λ q. cc)
    by_file d (some bs) e = rw e (
        result-ne-diverges (read_object filter_size (BloomFilter.new filter_size)) (opened bs)
          (read_object-Ends filter_size (BloomFilter.new filter_size)))

open_engine-Halts : (p : Platform) (o : Options) → Halts (open_engine p o)
unfolding open_engine
open_engine-Halts p o =
    search
      (
        halts_rules, settle_options-Halts, restore_mem_table-Halts, load_index-Halts,
        load_bloom_filter-Halts,
      )
      depth 30

-- On any directory, whatever its files hold, `open` comes to an end: the loops over the log and the
-- index files never use up their fuel.
pub open_engine-ne-diverges :
    (p : Platform) (o : Options) (d : Disk) → (open_engine p o d).0 ≢ diverges
open_engine-ne-diverges p o d = (open_engine-Halts p o).at d
