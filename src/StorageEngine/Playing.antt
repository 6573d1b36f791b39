-- ===== src/StorageEngine/Playing.antt =====
-- The steps of a `get` and the writes of other threads, one after the other.
use mathlib.Core.Path.{subst}
use open_x_database.Shared.{
  ℕ, ◌+◌, ◌-◌, ◌≡◌, ◌≤◌, ◌<◌, ◌^◌, refl, sym, ◌∙◌, ap, Bool, true, false, List, [], ◌∷◌, ◌++◌,
  Option, none, some, arith, All, ok, length, Outcome, Bool-cases, inl, inr,
}
use open_x_database.Shared.{append_assoc, append-nil, All-append}
use open_x_database.Bytes.{Bytes}
use open_x_database.SsTableRow.{SsTableRow, UInt128}
use open_x_database.SsTable.{dump_rows}
use open_x_database.MemTable.{npos, live}
use open_x_database.Index
use open_x_database.Index.{SearchHint}
use open_x_database.BloomFilter
use open_x_database.Compression.{Compressor}
use open_x_database.Hasher.{Hasher}
use open_x_database.StorageEngine.State.{Platform, Engine, num_hashes}
use open_x_database.StorageEngine.Access.{find_in_memory}
use open_x_database.StorageEngine.Invariant.{Represents}
use open_x_database.StorageEngine.Sessions.{
  Op, row_of, rows_of, IsAdmitted, step-Stored, length-rows_of,
}
use open_x_database.StorageEngine.Map.{IsKept, IsLive, IsLive-rows_of, All-behind}
use open_x_database.StorageEngine.Threads.{
  Getting, ready, missed, likely, hinted, found, look, after_memory, after_index, Event,
  write_event, look_event, play, go_on, writes, looks,
}
use open_x_database.StorageEngine.Tracking.{Since, IsOnTrack, look-IsOnTrack, write-IsOnTrack}

-- The steps that a `get` still has to do, at most.
abbrev pub steps_left : Getting → ℕ
steps_left ready = 4
steps_left missed = 3
steps_left likely = 2
steps_left (hinted hint) = 1
steps_left (found o) = 0

-- The search ends after a step more.
look-shortens :
    (p : Platform) (k : ℕ) (e : Engine) (g : Getting) → steps_left (look p k e g) ≤ steps_left g - 1
unfolding look
look-shortens p k e ready = by_memory (find_in_memory k e)
  where
    by_memory : (o : Option (Bytes × UInt128)) → steps_left (after_memory o) ≤ 3
    by_memory none = unfold after_memory in omega arith
    by_memory (some hit) = unfold after_memory in omega arith
look-shortens p k e missed =
    elim (Bool-cases (BloomFilter.probably_contains p.hashes num_hashes e.bloom_filter k)) [
      | inl passes ↦ rw passes (omega arith)
      | inr stopped ↦ rw stopped (omega arith)
    ]
look-shortens p k e likely = by_index (Index.get e.index k)
  where
    by_index : (a : Bool × SearchHint) → steps_left (after_index a) ≤ 1
    by_index (false, hint) = unfold after_index in omega arith
    by_index (true, hint) = unfold after_index in omega arith
look-shortens p k e (hinted hint) = omega arith
look-shortens p k e (found o) = omega arith

pub rows_of-append :
    (c : Compressor) (h : Hasher) (xs ys : List Op)
    → rows_of c h (xs ++ ys) ≡ rows_of c h xs ++ rows_of c h ys
rows_of-append c h [] ys = refl
rows_of-append c h (x ∷ xs) ys = ap (λ rows. row_of c h x ∷ rows) (rows_of-append c h xs ys)

pub All-front {κ} : (P : Op → Type κ) (xs ys : List Op) → All P (xs ++ ys) → All P xs
All-front P [] ys a = tt
All-front P (x ∷ xs) ys a = (a.0, All-front P xs ys a.1)

module _ (p : Platform) (c : Compressor) (h : Hasher) (k : ℕ) (below : k < npos)
    (rows₀ : List SsTableRow) (lives₀ : All (IsLive k) rows₀) where
  -- Where the steps of a `get` and the writes of other threads have led.
  pub record Played (evs : List Event) (ops : List Op) (g : Getting)
      (result : Outcome (Unit {0}) × (Getting × Engine)) : Type 0 where
    pub get_at : Getting
    pub engine : Engine
    pub flushed : List SsTableRow
    pub unflushed : List SsTableRow
    pub succeeds : result ≡ (ok tt, (get_at, engine))
    pub represents : Represents p c h engine flushed unflushed
    pub on_track : IsOnTrack c h k rows₀ p engine flushed (ops ++ writes evs) get_at
    pub shorter : steps_left get_at ≤ steps_left g - looks evs

  All-IsLive :
      (e : Engine) (flushed unflushed : List SsTableRow) (ops : List Op)
      → Represents p c h e flushed unflushed
      → flushed ++ unflushed ≡ rows₀ ++ rows_of c h ops
      → All (IsKept k) ops
      → All (IsLive k) unflushed
  All-IsLive e flushed unflushed ops r rows kept = All-behind (IsLive k) flushed unflushed (
      rw rows (
        All-append (IsLive k) rows₀ (rows_of c h ops) lives₀
          (IsLive-rows_of p c h e k r.compresses r.hashes ops kept)))

  pub play-Played :
      (evs : List Event) (ops : List Op) (g : Getting) (e : Engine)
      (flushed unflushed : List SsTableRow)
      → Represents p c h e flushed unflushed
      → flushed ++ unflushed ≡ rows₀ ++ rows_of c h ops
      → All (IsKept k) ops
      → IsOnTrack c h k rows₀ p e flushed ops g
      → All (IsAdmitted p c h) (writes evs)
      → All (IsKept k) (writes evs)
      → length (dump_rows unflushed) + length (dump_rows (rows_of c h (writes evs))) < 2 ^ 32
      → e.segment_id + length (writes evs) < 2 ^ 32
      → Played evs ops g (play p k evs g e)
  unfolding play
  play-Played [] ops g e flushed unflushed r rows kept t a kept' l ids = record {
    get_at = g;
    engine = e;
    flushed = flushed;
    unflushed = unflushed;
    succeeds = refl;
    represents = r;
    on_track = subst (λ xs. IsOnTrack c h k rows₀ p e flushed xs g) (sym (append-nil ops)) t;
    shorter = omega arith;
  }
  play-Played (look_event ∷ evs) ops g e flushed unflushed r rows kept t a kept' l ids =
      let t' =
        look-IsOnTrack c h k rows₀ p e flushed unflushed ops r rows below g
          (All-IsLive e flushed unflushed ops r rows kept) t in
      let rest =
        play-Played evs ops (look p k e g) e flushed unflushed r rows kept t' a kept' l ids in
      record {
        get_at = rest.get_at;
        engine = rest.engine;
        flushed = rest.flushed;
        unflushed = rest.unflushed;
        succeeds = rest.succeeds;
        represents = rest.represents;
        on_track = rest.on_track;
        shorter = omega (arith, rest.shorter, look-shortens p k e g);
      }
  play-Played (write_event op ∷ evs) ops g e flushed unflushed r rows kept t a kept' l ids =
      let fits = length-rows_of p c h op (writes evs) in
      let s =
        step-Stored p c h e flushed unflushed op r a.0 (omega (arith, l, fits))
          (omega (arith, ids)) in
      let rows' : s.flushed' ++ s.unflushed' ≡ rows₀ ++ rows_of c h (ops ++ op ∷ []) =
        s.rows
        ∙ ap (λ xs. xs ++ row_of c h op ∷ []) rows
        ∙ append_assoc rows₀ (rows_of c h ops) (row_of c h op ∷ [])
        ∙ ap (λ xs. rows₀ ++ xs) (sym (rows_of-append c h ops (op ∷ []))) in
      let t' = write-IsOnTrack c h k rows₀ p e flushed unflushed ops op rows s rows' g t in
      let rest =
        play-Played evs (ops ++ op ∷ []) g s.engine s.flushed' s.unflushed' s.represents rows'
          (All-append (IsKept k) ops (op ∷ []) kept (kept'.0, tt)) t' a.1 kept'.1
          (omega (arith, l, fits, s.bytes)) (omega (arith, ids, s.ids)) in
      record {
        get_at = rest.get_at;
        engine = rest.engine;
        flushed = rest.flushed;
        unflushed = rest.unflushed;
        succeeds = ap (go_on (play p k evs g) g) s.succeeds ∙ rest.succeeds;
        represents = rest.represents;
        on_track =
            subst (λ xs. IsOnTrack c h k rows₀ p rest.engine rest.flushed xs rest.get_at)
              (append_assoc ops (op ∷ []) (writes evs)) rest.on_track;
        shorter = rest.shorter;
      }

  -- What a search that has ended knows.
  pub record Ended (ops : List Op) (e : Engine) (result : Outcome (Unit {0}) × (Getting × Engine))
      : Type 0 where
    pub hit : Outcome (Option (Bytes × UInt128))
    pub row : Option SsTableRow
    pub since : Since c h k rows₀ ops row
    pub same : hit ≡ ok (live row)
    pub succeeds : result ≡ (ok tt, (found hit, e))

  ends :
      (ops : List Op) (e : Engine) (flushed : List SsTableRow)
      (result : Outcome (Unit {0}) × (Getting × Engine)) (g : Getting)
      → steps_left g ≤ 0
      → IsOnTrack c h k rows₀ p e flushed ops g
      → result ≡ (ok tt, (g, e))
      → Ended ops e result
  ends ops e flushed result ready l t s = absurd (omega (arith, l))
  ends ops e flushed result missed l t s = absurd (omega (arith, l))
  ends ops e flushed result likely l t s = absurd (omega (arith, l))
  ends ops e flushed result (hinted hint) l t s = absurd (omega (arith, l))
  ends ops e flushed result (found o) l (row, since, same) s = record {
    hit = o;
    row = row;
    since = since;
    same = same;
    succeeds = s;
  }

  -- Four steps are enough.
  pub Played-Ended :
      (evs : List Event) (result : Outcome (Unit {0}) × (Getting × Engine))
      (played : Played evs [] ready result)
      → 4 ≤ looks evs
      → Ended (writes evs) played.engine result
  Played-Ended evs result played enough =
      ends (writes evs) played.engine played.flushed result played.get_at
        (omega (arith, played.shorter, enough)) played.on_track played.succeeds
