-- ===== src/StorageEngine/Surviving.antt =====
-- The share that the directory has of the rows, behind a `put` and a `remove`.
use mathlib.Core.Path.{subst}
use open_x_database.Shared.{
  ◌+◌, ◌≡◌, ◌<◌, ◌^◌, refl, sym, ◌∙◌, ap, Bool, true, false, List, [], ◌∷◌, ◌++◌, some, arith, All,
  ok, length,
}
use open_x_database.Shared.{append_assoc, append-nil, if◌then◌else◌, Outcome}
use open_x_database.SsTableRow.{SsTableRow}
use open_x_database.SsTableRow.RoundTrip.{IsRow}
use open_x_database.SsTable.{dump_rows}
use open_x_database.MemTable
use open_x_database.MemTable.{put_entry, npos}
use open_x_database.MemTable.Keys.{insert-HasKeys}
use open_x_database.MemTable.Recovery.{put_entry-IsLogged}
use open_x_database.Options.{Options}
use open_x_database.History.{last_row, last_row-snoc}
use open_x_database.Compression.{Compressor}
use open_x_database.Hasher.{Hasher}
use open_x_database.StorageEngine.State.{Platform, Engine}
use open_x_database.StorageEngine.Access.{remove_key}
use open_x_database.StorageEngine.Invariant.{Represents}
use open_x_database.StorageEngine.Snapshot.{make_snapshot}
use open_x_database.StorageEngine.Snapshots.{snapshotted, make_snapshot_lem}
use open_x_database.StorageEngine.Operations.{with_row, Represents-with_row, put_value_lem}
use open_x_database.StorageEngine.Sessions.{
  Op, put_op, remove_op, step, run, row_of, rows_of, stored, IsAdmitted, step-Stored,
  length-rows_of, rest_runs,
}
use open_x_database.StorageEngine.Persistence.{Traverses, Persists, more_rows, Persists-snapshotted}

Persists-with_row :
    (o : Options) (e : Engine) (rows : List SsTableRow) (row : SsTableRow)
    → row.key < 2 ^ 64
    → Persists o e rows
    → Persists o (with_row e row) (rows ++ row ∷ [])
unfolding put_entry
Persists-with_row o e rows row l persists = record {
  logged = put_entry-IsLogged e.mem_table rows row persists.logged;
  bounded =
      insert-HasKeys (record { id = e.mem_table.counter; key = row.key }) row e.mem_table.map l
        persists.bounded;
  saved = persists.saved;
  files = persists.files;
  has_files = persists.has_files;
  good = more_rows rows (row ∷ []) persists.files persists.good;
  apart = persists.apart;
}

-- The key of a row that is not the last value.
abbrev pub IsBelow : Op → Type 0
IsBelow (put_op k v) = k < npos
IsBelow (remove_op k) = k < npos

same_engine :
    {e e' : Engine} {result : Outcome (Unit {0}) × Engine}
    → result ≡ (ok tt, e)
    → result ≡ (ok tt, e')
    → e ≡ e'
same_engine a b = ap (λ x. x.1) (sym a ∙ b)

module _ (p : Platform) (c : Compressor) (h : Hasher) (o : Options)
    (traverses : Traverses p.order) where
  module _ (e : Engine) (flushed unflushed : List SsTableRow)
      (r : Represents p c h e flushed unflushed)
      (persists : Persists o e (flushed ++ unflushed)) where
    -- The engine behind a row that may have filled the table.
    by_limit :
        (row : SsTableRow)
        → row.key < npos
        → IsRow p.runtime row
        → length (dump_rows unflushed) < 2 ^ 32
        → (is_full : Bool) (e' : Engine)
        → (if is_full then make_snapshot p (with_row e row) else (ok tt, with_row e row))
          ≡ (ok tt, e')
        → Persists o e' ((flushed ++ unflushed) ++ row ∷ [])
    by_limit row below fits l false e' done_at =
        subst (λ x. Persists o x ((flushed ++ unflushed) ++ row ∷ [])) (ap (λ x. x.1) done_at)
          (Persists-with_row o e (flushed ++ unflushed) row fits.key_fits persists)
    by_limit row below fits l true e' done_at =
        let added = Persists-with_row o e (flushed ++ unflushed) row fits.key_fits persists in
        let rep = Represents-with_row p c h e flushed unflushed r row fits l in
        let regrouped = append_assoc flushed unflushed (row ∷ []) in
        let here : last_row row.key (unflushed ++ row ∷ []) ≡ some row =
          rw (last_row-snoc row.key unflushed row) (ground arith) in
        let behind =
          Persists-snapshotted p c h o (with_row e row) flushed (unflushed ++ row ∷ []) rep
            traverses (subst (Persists o (with_row e row)) regrouped added) row.key below row
            here in
        subst (λ x. Persists o x ((flushed ++ unflushed) ++ row ∷ []))
          (same_engine
            (make_snapshot_lem p c h (with_row e row) flushed (unflushed ++ row ∷ []) rep) done_at)
          (subst
            (Persists o (snapshotted p c h (with_row e row) flushed (unflushed ++ row ∷ []) rep))
            (sym regrouped) behind)

    step-Persists :
        (op : Op) (e' : Engine)
        → IsAdmitted p c h op
        → IsBelow op
        → length (dump_rows unflushed) < 2 ^ 32
        → step p op e ≡ (ok tt, e')
        → Persists o e' ((flushed ++ unflushed) ++ row_of c h op ∷ [])
    unfolding step remove_key MemTable.remove_key
    step-Persists (put_op k v) e' a below l done_at =
        by_limit (row_of c h (put_op k v)) below a.2 l _ e'
          (sym (put_value_lem p c h e flushed unflushed r k v (stored c v) a.0) ∙ done_at)
    step-Persists (remove_op k) e' a below l done_at =
        by_limit (row_of c h (remove_op k)) below a l false e' done_at

  -- In an engine that represents its rows and whose directory has its share of them, the puts and
  -- removes that succeed leave a directory with its share of all.
  pub run-Persists :
      (ops : List Op) (e : Engine) (flushed unflushed : List SsTableRow)
      → Represents p c h e flushed unflushed
      → Persists o e (flushed ++ unflushed)
      → All (IsAdmitted p c h) ops
      → All IsBelow ops
      → length (dump_rows unflushed) + length (dump_rows (rows_of c h ops)) < 2 ^ 32
      → e.segment_id + length ops < 2 ^ 32
      → (e' : Engine) → run p ops e ≡ (ok tt, e')
      → Persists o e' ((flushed ++ unflushed) ++ rows_of c h ops)
  run-Persists [] e flushed unflushed r persists a below l ids e' ran =
      let nothing : run p [] e ≡ (ok tt, e) = unfold run in refl in
      subst (Persists o e') (sym (append-nil (flushed ++ unflushed)))
        (subst (λ x. Persists o x (flushed ++ unflushed)) (same_engine nothing ran) persists)
  run-Persists (op ∷ ops) e flushed unflushed r persists a below l ids e' ran =
      let fits = length-rows_of p c h op ops in
      let s =
        step-Stored p c h e flushed unflushed op r a.0 (omega (arith, l, fits))
          (omega (arith, ids)) in
      let first =
        step-Persists e flushed unflushed r persists op s.engine a.0 below.0 (omega (arith, l))
          s.succeeds in
      subst (Persists o e')
        (ap (λ xs. xs ++ rows_of c h ops) s.rows
          ∙ append_assoc (flushed ++ unflushed) (row_of c h op ∷ []) (rows_of c h ops))
        (run-Persists ops s.engine s.flushed' s.unflushed' s.represents
          (subst (Persists o s.engine) (sym s.rows) first) a.1 below.1
          (omega (arith, l, fits, s.bytes)) (omega (arith, ids, s.ids)) e'
          (rest_runs p op ops e s.engine e' s.succeeds ran))
