-- ===== src/StorageEngine/Reopening.antt =====
-- A database that is closed and opened again: `open` reads what the directory has of the rows.
use open_x_database.Shared.{
  ℕ, ◌≡◌, ◌<◌, ◌^◌, refl, ◌∙◌, ap, List, [], ◌∷◌, ◌++◌, some, arith, All, ok, length,
  length-replicate,
}
use open_x_database.Shared.{Option-cases, inl, inr, length-take, drop}
use open_x_database.Bytes.{Bytes}
use open_x_database.Bytes.Stream.{read_object, read, opened}
use open_x_database.SsTableRow.{SsTableRow}
use open_x_database.SsTableRow.RoundTrip.{IsRow}
use open_x_database.MemTable
use open_x_database.MemTable.{MemTable, npos, live}
use open_x_database.MemTable.Lookup.{Keeps, Holds-empty}
use open_x_database.MemTable.Recovery.{restore-dump_rows, steps-Keeps, restore_row-Keeps}
use open_x_database.WriteAheadLog
use open_x_database.Index
use open_x_database.Index.{Index, Directory}
use open_x_database.BloomFilter
use open_x_database.BloomFilter.{Bits}
use open_x_database.Compression.{create_compressor}
use open_x_database.Hasher.{create_hasher}
use open_x_database.Options.{Options}
use open_x_database.Disk
use open_x_database.Disk.{Disk, fresh}
use open_x_database.History.{steps}
use open_x_database.StorageEngine.State.{Platform, Engine, filter_size}
use open_x_database.StorageEngine.Opening.{
  options_bytes, open_engine, close_engine, settle_options, restore_mem_table, make_directories,
  load_index, load_bloom_filter,
}
use open_x_database.StorageEngine.IndexFiles.{IsIndexFile, IsApart, HasNoOther, load-HasNoOther}
use open_x_database.StorageEngine.Settling.{IsOptions, read_options-options_bytes}
use open_x_database.StorageEngine.Persistence.{Persists}

-- A filter is loaded from a file of any length.
load-total :
    (n : ℕ) (old bs : Bytes)
    → length old ≡ n
    → (bits : Bits) × (BloomFilter.load n old (some bs) ≡ ok bits)
unfolding BloomFilter.load read_object read
load-total n old bs l =
    let got = (read n (opened bs)).0 in
    (got ++ drop (length got) old, ground (arith, length-take n bs))

loads_filter : (d : Disk) → (bits : Bits) × (load_bloom_filter d ≡ (ok bits, d))
unfolding load_bloom_filter
loads_filter d = elim (Option-cases d.bloom) [
  | inl missing ↦ (BloomFilter.new filter_size, rw missing refl)
  | inr (bs, there) ↦
      let new_length : length (BloomFilter.new filter_size) ≡ filter_size =
        unfold BloomFilter.new in length-replicate {A = ℕ} filter_size 0 in
      let (bits, loaded) = load-total filter_size (BloomFilter.new filter_size) bs new_length in
      (bits, rw (there, loaded) refl)
]

loads_index :
    (rows : List SsTableRow) (d : Disk) (files : Directory)
    → d.indexes ≡ some files
    → All (IsIndexFile rows) files
    → IsApart files
    → (x : Index) × (load_index d ≡ (ok x, d)) × HasNoOther rows x
unfolding load_index Index.get
loads_index rows d [] has good apart = (Index.empty, rw has refl, λ k l e. refl)
loads_index rows d (f ∷ files) has good apart =
    let (x, loaded, no_other) = load-HasNoOther rows (f ∷ files) good apart in
    (x, rw (has, loaded) refl, no_other)

-- What `open` finds of the rows.
pub record Reopened (p : Platform) (o : Options) (rows : List SsTableRow) (e : Engine)
    : Type 0 where
  pub kept : Keeps e.mem_table rows
  pub no_other : HasNoOther rows e.index
  pub compresses : e.compressor ≡ create_compressor p.codecs p.runtime.max_size o.compression_type
  pub hashes : e.hasher ≡ create_hasher p.hashes o.hash_type

module _ (p : Platform) (o given : Options) (d : Disk) where
  settles : IsOptions o → d.options ≡ some (options_bytes o) → settle_options given d ≡ (ok o, d)
  unfolding settle_options
  settles is_options saved = rw (saved, read_options-options_bytes given o is_options) refl

  restores :
      (bs : Bytes) (t : MemTable)
      → d.wal ≡ some bs
      → MemTable.restore_from_log p.runtime MemTable.empty bs ≡ ok t
      → restore_mem_table p o d
        ≡ (ok (MemTable.set_write_ahead_log t o.max_wal_buffer_size), record d { wal = some [] })
  unfolding restore_mem_table
  restores bs t there restored = ground (arith, there, restored)

  -- `open`, part by part.
  pub opens :
      (bs : Bytes) (t : MemTable) (x : Index) (bits : Bits)
      → IsOptions o
      → d.options ≡ some (options_bytes o)
      → d.wal ≡ some bs
      → MemTable.restore_from_log p.runtime MemTable.empty bs ≡ ok t
      → load_index (make_directories (record d { wal = some [] }))
        ≡ (ok x, make_directories (record d { wal = some [] }))
      → load_bloom_filter (make_directories (record d { wal = some [] }))
        ≡ (ok bits, make_directories (record d { wal = some [] }))
      → open_engine p given d ≡ (
        ok (record {
          mem_table = MemTable.set_write_ahead_log t o.max_wal_buffer_size;
          compressor = create_compressor p.codecs p.runtime.max_size o.compression_type;
          hasher = create_hasher p.hashes o.hash_type;
          index = x;
          segment_id = 0;
          mem_table_limit = o.max_mem_table_size;
          opts = o;
          bloom_filter = bits;
          disk = make_directories (record d { wal = some [] });
        }),
        make_directories (record d { wal = some [] }),
      )
  unfolding open_engine
  opens bs t x bits is_options saved there restored index_loads filter_loads =
      rw (settles is_options saved, restores bs t there restored, index_loads, filter_loads) refl

module _ (p : Platform) (o given : Options) (e : Engine) (r : SsTableRow) (rs : List SsTableRow)
    (persists : Persists o e (r ∷ rs)) where
  pub open_engine-Reopened :
      IsOptions o
      → All (IsRow p.runtime) (r ∷ rs)
      → length (r ∷ rs) < 2 ^ 64
      → (e' : Engine) × (d : Disk) × (open_engine p given (close_engine e) ≡ (ok e', d))
        × Reopened p o (r ∷ rs) e'
  unfolding MemTable.set_write_ahead_log
  open_engine-Reopened is_options fit l =
      let (w, at, bytes) = persists.logged in
      let closed : Disk = record e.disk { wal = some (WriteAheadLog.contents w) } in
      let closes : close_engine e ≡ closed = unfold close_engine in rw at refl in
      let made : Disk = make_directories (record closed { wal = some [] }) in
      let has_files : made.indexes ≡ some persists.files =
        unfold make_directories Disk.made in rw persists.has_files refl in
      let (x, index_loads, no_other) =
        loads_index (r ∷ rs) made persists.files has_files persists.good persists.apart in
      let (bits, filter_loads) = loads_filter made in
      let t : MemTable = steps MemTable.restore_row MemTable.empty (r ∷ rs) in
      (
        _,
        _,
        ap (open_engine p given) closes
            ∙ opens p o given closed (WriteAheadLog.contents w) t x bits is_options persists.saved
                refl
                (ap (MemTable.restore_from_log p.runtime MemTable.empty) bytes
                  ∙ restore-dump_rows p.runtime r rs fit)
                index_loads filter_loads,
        (record {
          kept =
              steps-Keeps MemTable.restore_row restore_row-Keeps MemTable.empty [] (r ∷ rs)
                Holds-empty (omega (arith, l));
          no_other = no_other;
          compresses = refl;
          hashes = refl;
        }),
      )
