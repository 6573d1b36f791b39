-- ===== src/StorageEngine/Sessions.antt =====
-- A session: an engine opened on a new directory, and the puts and removes that come to it.
use open_x_database.Shared.{ℕ, ◌+◌, ◌≡◌, ◌≤◌, ◌<◌, ◌^◌, refl, sym, ◌∙◌, List, [], ◌∷◌, ◌++◌}
use open_x_database.Shared.{none, some, length, length-append, All, arith, ap}
use open_x_database.Shared.{ok, length-replicate, append_assoc, append-nil}
use open_x_database.Bytes.{Bytes}
use mathlib.Core.Path.{subst}
use open_x_database.Action.{Action, done, after, ◌>>◌}
use open_x_database.SsTableRow.{SsTableRow, put_row, remove_row, get_row_size}
use open_x_database.SsTableRow.RoundTrip.{IsRow, length-serialize}
use open_x_database.SsTable.{dump_rows}
use open_x_database.MemTable
use open_x_database.MemTable.Lookup.{Holds-empty}
use open_x_database.WriteAheadLog
use open_x_database.Index
use open_x_database.BloomFilter
use open_x_database.Compression.{Compressor, create_compressor}
use open_x_database.Hasher.{Hasher, create_hasher}
use open_x_database.Options.{Options}
use open_x_database.Disk
use open_x_database.Disk.{Disk, fresh}
use open_x_database.History.{last_row}
use open_x_database.StorageEngine.State.{Platform, Engine, filter_size}
use open_x_database.StorageEngine.Opening.{open_engine, options_bytes}
use open_x_database.StorageEngine.Access.{put_value, remove_key}
use open_x_database.StorageEngine.Operations.{Stored, put_value-Stored, remove_key-Stored}
use open_x_database.StorageEngine.Invariant.{Represents}

pub data Op : Type 0 where
  put_op : ℕ → Bytes → Op
  remove_op : ℕ → Op

unfoldable pub step : Platform → Op → Action Engine Unit
step p (put_op k v) = put_value p k v
step p (remove_op k) = remove_key k

unfoldable pub run : Platform → List Op → Action Engine Unit
run p [] = done tt
run p (op ∷ ops) = do step p op; run p ops

-- The bytes that are stored for a value.
unfoldable pub stored : Compressor → Bytes → Bytes
stored c v = elim (c.compress v) [ ok w ↦ w | _ ↦ [] ]

abbrev pub row_of : Compressor → Hasher → Op → SsTableRow
row_of c h (put_op k v) = put_row k (stored c v) (h (stored c v))
row_of c h (remove_op k) = remove_row k

abbrev pub rows_of : Compressor → Hasher → List Op → List SsTableRow
rows_of c h [] = []
rows_of c h (op ∷ ops) = row_of c h op ∷ rows_of c h ops

-- The compressor takes the value and gives it back, and the row fits its fields.
abbrev pub IsAdmitted : Platform → Compressor → Hasher → Op → Type 0
IsAdmitted p c h (put_op k v) =
    (c.compress v ≡ ok (stored c v))
    × (c.uncompress (stored c v) ≡ ok v)
    × IsRow p.runtime (row_of c h (put_op k v))
IsAdmitted p c h (remove_op k) = IsRow p.runtime (row_of c h (remove_op k))

-- The directory that `open` makes.
abbrev pub new_disk : Options → Disk
new_disk o = record {
  wal = some [];
  options = some (options_bytes o);
  bloom = none;
  segments = some [];
  indexes = some [];
}

-- The engine that `open` gives on a new directory.
abbrev pub new_engine : Platform → Options → Engine
new_engine p o = record {
  mem_table = MemTable.set_write_ahead_log MemTable.empty o.max_wal_buffer_size;
  compressor = create_compressor p.codecs p.runtime.max_size o.compression_type;
  hasher = create_hasher p.hashes o.hash_type;
  index = Index.empty;
  segment_id = 0;
  mem_table_limit = o.max_mem_table_size;
  opts = o;
  bloom_filter = BloomFilter.new filter_size;
  disk = new_disk o;
}

pub new_engine-Represents :
    (p : Platform) (o : Options) (h : Hasher)
    → create_hasher p.hashes o.hash_type ≡ some h
    → Represents p
        (create_compressor p.codecs p.runtime.max_size o.compression_type)
        h
        (new_engine p o)
        []
        []
unfolding MemTable.set_write_ahead_log WriteAheadLog.open_log Index.get Index.find_node last_row
new_engine-Represents p o h hasher = record {
  compresses = refl;
  hashes = hasher;
  in_memory = Holds-empty;
  rows_fit = tt;
  log = WriteAheadLog.open_log o.max_wal_buffer_size;
  logs = refl;
  filter_length = unfold BloomFilter.new in length-replicate {A = ℕ} filter_size 0;
  segments = [];
  has_segments = refl;
  indexes = [];
  has_indexes = refl;
  id_fits = omega arith;
  ids_known = λ n l. refl;
  on_disk = λ k l. refl;
}

-- `open` on a new directory succeeds, whatever the options are.
pub open_engine-fresh :
    (p : Platform) (o : Options) → open_engine p o fresh ≡ (ok (new_engine p o), new_disk o)
unfolding open_engine Disk.made
open_engine-fresh p o = refl

pub rest_runs :
    (p : Platform) (op : Op) (ops : List Op) (e e₁ e' : Engine)
    → step p op e ≡ (ok tt, e₁)
    → run p (op ∷ ops) e ≡ (ok tt, e')
    → run p ops e₁ ≡ (ok tt, e')
unfolding run
rest_runs p op ops e e₁ e' first all = subst (λ x. after (λ _. run p ops) x ≡ (ok tt, e')) first all

module _ (p : Platform) (c : Compressor) (h : Hasher) where
  run-step :
      (op : Op) (ops : List Op) (e : Engine) {e₁ e₂ : Engine}
      → step p op e ≡ (ok tt, e₁)
      → run p ops e₁ ≡ (ok tt, e₂)
      → run p (op ∷ ops) e ≡ (ok tt, e₂)
  unfolding run
  run-step op ops e first rest = rw (first, rest) refl

  pub step-Stored :
      (e : Engine) (flushed unflushed : List SsTableRow) (op : Op)
      → Represents p c h e flushed unflushed
      → IsAdmitted p c h op
      → length (dump_rows unflushed) + get_row_size (row_of c h op) < 2 ^ 32
      → e.segment_id + 1 < 2 ^ 32
      → Stored p c h e flushed unflushed (row_of c h op) (step p op e)
  unfolding step
  step-Stored e flushed unflushed (put_op k v) r a l ids =
      put_value-Stored p c h e flushed unflushed r k v (stored c v) a.0 a.2 l ids
  step-Stored e flushed unflushed (remove_op k) r a l ids =
      remove_key-Stored p c h e flushed unflushed r k a (omega arith)

  pub length-rows_of :
      (op : Op) (ops : List Op)
      → length (dump_rows (rows_of c h (op ∷ ops)))
        ≡ get_row_size (row_of c h op) + length (dump_rows (rows_of c h ops))
  unfolding dump_rows
  length-rows_of op ops =
      omega (arith, length-append _ (dump_rows (rows_of c h ops)), length-serialize (row_of c h op))

  -- In an engine that represents its rows, let puts and removes come that the engine admits, where
  -- the rows in memory and all rows to come are below 4 GiB and the segment ids stay below 2^32
  -- even if each put takes one. Every one succeeds, and the engine then represents the rows it had
  -- and theirs, in their order.
  pub run-Represents :
      (ops : List Op) (e : Engine) (flushed unflushed : List SsTableRow)
      → Represents p c h e flushed unflushed
      → All (IsAdmitted p c h) ops
      → length (dump_rows unflushed) + length (dump_rows (rows_of c h ops)) < 2 ^ 32
      → e.segment_id + length ops < 2 ^ 32
      → (e' : Engine) × (flushed' : List SsTableRow) × (unflushed' : List SsTableRow) × (run p ops e
          ≡ (ok tt, e'))
        × Represents p c h e' flushed' unflushed'
        × (flushed' ++ unflushed' ≡ (flushed ++ unflushed) ++ rows_of c h ops)
  run-Represents [] e flushed unflushed r a l ids =
      (e, flushed, unflushed, unfold run in refl, r, sym (append-nil (flushed ++ unflushed)))
  run-Represents (op ∷ ops) e flushed unflushed r a l ids =
      let s =
        step-Stored e flushed unflushed op r a.0 (omega (arith, l, length-rows_of op ops))
          (omega (arith, ids)) in
      let (e', flushed', unflushed', ran, r', rows) =
        run-Represents ops s.engine s.flushed' s.unflushed' s.represents a.1
          (omega (arith, l, length-rows_of op ops, s.bytes)) (omega (arith, ids, s.ids)) in
      (
        e',
        flushed',
        unflushed',
        run-step op ops e s.succeeds ran,
        r',
        rows
            ∙ ap (λ xs. xs ++ rows_of c h ops) s.rows
            ∙ append_assoc (flushed ++ unflushed) (row_of c h op ∷ []) (rows_of c h ops),
      )

  -- Every put or remove takes one segment id at most.
  pub run-ids :
      (ops : List Op) (e : Engine) (flushed unflushed : List SsTableRow)
      → Represents p c h e flushed unflushed
      → All (IsAdmitted p c h) ops
      → length (dump_rows unflushed) + length (dump_rows (rows_of c h ops)) < 2 ^ 32
      → e.segment_id + length ops < 2 ^ 32
      → (e' : Engine) → run p ops e ≡ (ok tt, e')
      → e'.segment_id ≤ e.segment_id + length ops
  run-ids [] e flushed unflushed r a l ids e' ran =
      let nothing : run p [] e ≡ (ok tt, e) = unfold run in refl in
      rw (← ap (λ x. x.1.segment_id) (sym nothing ∙ ran)) (omega arith)
  run-ids (op ∷ ops) e flushed unflushed r a l ids e' ran =
      let s =
        step-Stored e flushed unflushed op r a.0 (omega (arith, l, length-rows_of op ops))
          (omega (arith, ids)) in
      let rest =
        run-ids ops s.engine s.flushed' s.unflushed' s.represents a.1
          (omega (arith, l, length-rows_of op ops, s.bytes)) (omega (arith, ids, s.ids)) e'
          (rest_runs p op ops e s.engine e' s.succeeds ran) in
      omega (arith, s.ids, rest)
