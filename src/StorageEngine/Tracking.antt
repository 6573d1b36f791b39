-- ===== src/StorageEngine/Tracking.antt =====
-- What a `get` knows at each of its steps, and what the writes of other threads leave of it.
use open_x_database.Shared.{
  ℕ, ◌≡◌, ◌<◌, refl, sym, ◌∙◌, ap, Bool, true, false, List, [], ◌∷◌, ◌++◌, Option, none, some,
  arith, All, ok,
}
use open_x_database.Shared.{append_assoc, append-nil, Option-cases, Bool-cases, inl, inr, ◌⊎◌}
use open_x_database.SsTableRow.{SsTableRow}
use open_x_database.MemTable
use open_x_database.MemTable.{npos, live}
use open_x_database.Index
use open_x_database.Index.{SearchHint}
use open_x_database.BloomFilter
use open_x_database.Compression.{Compressor}
use open_x_database.Hasher.{Hasher}
use open_x_database.History.{last_row, last_row-All, last_row-append}
use open_x_database.StorageEngine.State.{Platform, Engine, num_hashes}
use open_x_database.StorageEngine.Access.{find_in_memory}
use open_x_database.StorageEngine.Invariant.{Represents, OnDisk}
use open_x_database.StorageEngine.Answers.{IsPlaced, HasPlace-IsPlaced, find_in_segment-IsPlaced}
use open_x_database.StorageEngine.Operations.{Stored}
use open_x_database.StorageEngine.Sessions.{Op, row_of, rows_of, step}
use open_x_database.StorageEngine.Map.{IsLive, last_row-key}
use open_x_database.StorageEngine.Threads.{
  Getting, ready, missed, likely, hinted, found, look, after_memory, after_index,
}

module _ (c : Compressor) (h : Hasher) (k : ℕ) (rows₀ : List SsTableRow) where
  -- The row was the key's last one at some time since the rows were `rows₀`, while the writes came.
  pub record Since (ops : List Op) (o : Option SsTableRow) : Type 0 where
    pub before : List Op
    pub after : List Op
    pub split : ops ≡ before ++ after
    pub last : o ≡ last_row k (rows₀ ++ rows_of c h before)

  pub Since-snoc :
      (ops : List Op) (op : Op) (o : Option SsTableRow) → Since ops o → Since (ops ++ op ∷ []) o
  Since-snoc ops op o s = record {
    before = s.before;
    after = s.after ++ op ∷ [];
    split = ap (λ xs. xs ++ op ∷ []) s.split ∙ append_assoc s.before s.after (op ∷ []);
    last = s.last;
  }

  -- What a `get` knows when it has come so far.
  abbrev pub IsOnTrack : Platform → Engine → List SsTableRow → List Op → Getting → Type 0
  IsOnTrack p e flushed ops ready = Unit
  IsOnTrack p e flushed ops missed = Since ops (last_row k flushed)
  IsOnTrack p e flushed ops likely = Since ops (last_row k flushed)
  IsOnTrack p e flushed ops (hinted hint) =
      (row : SsTableRow) × Since ops (some row)
      × (hint.file_id < e.segment_id)
      × IsPlaced p e hint row
  IsOnTrack p e flushed ops (found o) = (r : Option SsTableRow) × Since ops r × (o ≡ ok (live r))

  module _ (p : Platform) (e : Engine) (flushed unflushed : List SsTableRow) (ops : List Op)
      (r : Represents p c h e flushed unflushed)
      (rows : flushed ++ unflushed ≡ rows₀ ++ rows_of c h ops) (below : k < npos) where
    -- The last row of all.
    now : (o : Option SsTableRow) → o ≡ last_row k (flushed ++ unflushed) → Since ops o
    now o e = record {
      before = ops;
      after = [];
      split = sym (append-nil ops);
      last = e ∙ ap (last_row k) rows;
    }

    look_memory :
        All (IsLive k) unflushed → IsOnTrack p e flushed ops (after_memory (find_in_memory k e))
    unfolding after_memory find_in_memory MemTable.get
    look_memory lives = elim (Option-cases (last_row k unflushed)) [
      | inl missing ↦
          let here : last_row k flushed ≡ last_row k (flushed ++ unflushed) =
            rw (last_row-append k flushed unflushed, missing) refl in
          let miss : IsOnTrack p e flushed ops (after_memory (live none)) =
            unfold live in now (last_row k flushed) here in
          rw (r.in_memory.answers k, missing) miss
      | inr (row, there) ↦
          let is_live =
            last_row-All (IsLive k) k unflushed row lives there
              (last_row-key k unflushed row there) in
          let here : some row ≡ last_row k (flushed ++ unflushed) =
            rw (last_row-append k flushed unflushed, there) refl in
          rw (r.in_memory.answers k, there, is_live)
            (some row, now (some row) here, ap ok (sym is_live))
    ]

    look_filter : Since ops (last_row k flushed) → IsOnTrack p e flushed ops (look p k e missed)
    unfolding look
    look_filter s =
        elim (Bool-cases (BloomFilter.probably_contains p.hashes num_hashes e.bloom_filter k)) [
          | inl passes ↦ rw passes s
          | inr stopped ↦ rw stopped (by_row (last_row k flushed) (r.on_disk k below) s stopped)
        ]
      where
        by_row :
            (o : Option SsTableRow)
            → OnDisk p e.index e.bloom_filter r.segments e.segment_id k o
            → Since ops o
            → BloomFilter.probably_contains p.hashes num_hashes e.bloom_filter k ≡ false
            → IsOnTrack p e flushed ops (found (ok none))
        by_row none place s stopped = (none, s, unfold live in refl)
        by_row (some row) place s stopped =
            let clash : true ≡ false = sym place.passes ∙ stopped in cc

    look_index : Since ops (last_row k flushed) → IsOnTrack p e flushed ops (look p k e likely)
    unfolding look after_index
    look_index s = by_row (last_row k flushed) (r.on_disk k below) s
      where
        by_row :
            (o : Option SsTableRow)
            → OnDisk p e.index e.bloom_filter r.segments e.segment_id k o
            → Since ops o
            → IsOnTrack p e flushed ops (after_index (Index.get e.index k))
        by_row none missing s = by_answer (Index.get e.index k) missing
          where
            by_answer :
                (a : Bool × SearchHint) → a.0 ≡ false → IsOnTrack p e flushed ops (after_index a)
            by_answer (false, hint) h = (none, s, unfold live in refl)
            by_answer (true, hint) h = cc
        by_row (some row) place s =
            rw place.indexed (
              row,
              s,
              place.written,
              HasPlace-IsPlaced p c h e flushed unflushed r k below row place,
            )

    -- Each step of the `get` is right.
    pub look-IsOnTrack :
        (g : Getting)
        → All (IsLive k) unflushed
        → IsOnTrack p e flushed ops g
        → IsOnTrack p e flushed ops (look p k e g)
    unfolding look
    look-IsOnTrack ready lives t = look_memory lives
    look-IsOnTrack missed lives t = look_filter t
    look-IsOnTrack likely lives t = look_index t
    look-IsOnTrack (hinted hint) lives (row, s, older, at) =
        (some row, s, ap (λ x. x.0) (find_in_segment-IsPlaced p e hint row at))
    look-IsOnTrack (found o) lives t = t

  -- What is known stays so when a write comes in between.
  pub write-IsOnTrack :
      (p : Platform) (e : Engine) (flushed unflushed : List SsTableRow) (ops : List Op) (op : Op)
      (rows : flushed ++ unflushed ≡ rows₀ ++ rows_of c h ops)
      (s : Stored p c h e flushed unflushed (row_of c h op) (step p op e))
      → (s.flushed' ++ s.unflushed' ≡ rows₀ ++ rows_of c h (ops ++ op ∷ []))
      → (g : Getting) → IsOnTrack p e flushed ops g
      → IsOnTrack p s.engine s.flushed' (ops ++ op ∷ []) g
  write-IsOnTrack p e flushed unflushed ops op rows s rows' g t = by_step g t
    where
      by_move :
          (s.flushed' ≡ flushed) ⊎ (s.unflushed' ≡ [])
          → Since ops (last_row k flushed)
          → Since (ops ++ op ∷ []) (last_row k s.flushed')
      by_move (inl same) t = rw same (Since-snoc ops op (last_row k flushed) t)
      by_move (inr none_left) t = record {
        before = ops ++ op ∷ [];
        after = [];
        split = sym (append-nil (ops ++ op ∷ []));
        last =
            ap (last_row k)
              (sym (append-nil s.flushed') ∙ ap (λ xs. s.flushed' ++ xs) (sym none_left) ∙ rows');
      }

      by_step :
          (g : Getting)
          → IsOnTrack p e flushed ops g
          → IsOnTrack p s.engine s.flushed' (ops ++ op ∷ []) g
      by_step ready t = tt
      by_step missed t = by_move s.moved t
      by_step likely t = by_move s.moved t
      by_step (hinted hint) (row, since, older, at) = (
        row,
        Since-snoc ops op (some row) since,
        omega (arith, older, s.ids_grow),
        (record {
          bytes = at.bytes;
          in_file = s.files hint.file_id older ∙ at.in_file;
          place = at.place;
          is_row = at.is_row;
        }),
      )
      by_step (found o) (r, since, same) = (r, Since-snoc ops op r since, same)
