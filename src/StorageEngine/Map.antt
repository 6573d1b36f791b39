-- ===== src/StorageEngine/Map.antt =====
-- The engine as a map: what `get` answers after a session of puts and removes on a new directory, and
-- after one `remove`.
use open_x_database.Shared.{
  ℕ, ◌≡◌, ◌<◌, ◌^◌, refl, sym, ◌∙◌, Bool, true, false, List, [], ◌∷◌, ◌++◌, Option, none, some,
}
use open_x_database.Shared.{length, All, arith, if◌then◌else◌, ap, ok, Option-cases, inl, inr, ◌==◌}
use open_x_database.Bytes.{Bytes}
use open_x_database.SsTableRow.{SsTableRow, UInt128, remove_row}
use open_x_database.SsTableRow.RoundTrip.{IsRow}
use open_x_database.SsTable.{dump_rows}
use open_x_database.MemTable.{live, npos}
use open_x_database.Compression.{Compressor, create_compressor}
use open_x_database.Hasher.{Hasher, create_hasher}
use open_x_database.Options.{Options}
use open_x_database.Disk.{fresh}
use open_x_database.History.{
  or_else, last_row, last_row-All, last_row-append, last_row-snoc, or_else-none,
}
use open_x_database.StorageEngine.State.{Platform, Engine}
use open_x_database.StorageEngine.Opening.{open_engine}
use open_x_database.StorageEngine.Access.{get, open_value, checksum_of, same_checksum, remove_key}
use open_x_database.StorageEngine.Invariant.{Represents}
use open_x_database.StorageEngine.Answers.{get_lem}
use open_x_database.StorageEngine.Operations.{with_row, Represents-with_row}
use open_x_database.MemTable
use open_x_database.MemTable.{put_entry}
use open_x_database.StorageEngine.Sessions.{
  Op, put_op, remove_op, run, row_of, rows_of, stored, IsAdmitted, new_engine, new_disk,
  new_engine-Represents, open_engine-fresh, run-Represents,
}

-- The value of the last put of a key.
unfoldable pub last_put : ℕ → List Op → Option Bytes
last_put k [] = none
last_put k (put_op j v ∷ ops) = or_else (last_put k ops) (if j == k then some v else none)
last_put k (remove_op j ∷ ops) = last_put k ops

abbrev pub IsKept : ℕ → Op → Type 0
IsKept k (put_op j v) = Unit
IsKept k (remove_op j) = (j == k) ≡ false

-- The row is a put row, if it is there for the key.
abbrev pub IsLive : ℕ → SsTableRow → Type 0
IsLive k r = (r.key == k) ≡ true → live (some r) ≡ some (r.value, r.checksum)

-- The row that the engine finds and the value that the last put gave.
abbrev pub Opens : Engine → Option SsTableRow → Option Bytes → Type 0
Opens e none none = Unit
Opens e (some r) (some v) = open_value e (live (some r)) ≡ ok (some v)
Opens e _ _ = ⊥

Opens-or_else :
    (e : Engine) (a b : Option SsTableRow) (v w : Option Bytes)
    → Opens e a v
    → Opens e b w
    → Opens e (or_else a b) (or_else v w)
Opens-or_else e none b none w x y = y
Opens-or_else e none b (some v) w x y = elim x [ ]
Opens-or_else e (some a) b none w x y = elim x [ ]
Opens-or_else e (some a) b (some v) w x y = x

pub Opens-answer :
    (e : Engine) (o : Option SsTableRow) (v : Option Bytes)
    → Opens e o v
    → open_value e (live o) ≡ ok v
unfolding open_value live
Opens-answer e none none x = refl
Opens-answer e (some a) (some v) x = x
Opens-answer e none (some v) x = elim x [ ]
Opens-answer e (some a) none x = elim x [ ]

pub last_row-key :
    (k : ℕ) (rows : List SsTableRow) (r : SsTableRow)
    → last_row k rows ≡ some r
    → (r.key == k) ≡ true
unfolding last_row
last_row-key k [] r e = cc
last_row-key k (q ∷ rows) r e = elim (Option-cases (last_row k rows)) [
  | inr (r', later) ↦ last_row-key k rows r (ground arith)
  | inl none_later ↦ ground arith
]

module _ (p : Platform) (c : Compressor) (h : Hasher) (e : Engine) (k : ℕ)
    (compresses : e.compressor ≡ c) (hashes : e.hasher ≡ some h) where
  open_value-put :
      (j : ℕ) (v : Bytes)
      → c.uncompress (stored c v) ≡ ok v
      → open_value e (live (some (row_of c h (put_op j v)))) ≡ ok (some v)
  unfolding open_value live checksum_of same_checksum
  open_value-put j v u = ground (arith, compresses, hashes, u)

  pub Opens-rows_of :
      (ops : List Op)
      → All (IsAdmitted p c h) ops
      → All (IsKept k) ops
      → Opens e (last_row k (rows_of c h ops)) (last_put k ops)
  unfolding last_row last_put
  Opens-rows_of [] a kept = tt
  Opens-rows_of (put_op j v ∷ ops) a kept =
      Opens-or_else e _ _ _ _ (Opens-rows_of ops a.1 kept.1) (first (j == k))
    where
      first :
          (is_here : Bool)
          → Opens e
              (if is_here then some (row_of c h (put_op j v)) else none)
              (if is_here then some v else none)
      first true = open_value-put j v a.0.1
      first false = tt
  Opens-rows_of (remove_op j ∷ ops) a kept =
      rw (kept.0, or_else-none (last_row k (rows_of c h ops))) (Opens-rows_of ops a.1 kept.1)

  -- No removal of the key is among the rows.
  pub IsLive-rows_of : (ops : List Op) → All (IsKept k) ops → All (IsLive k) (rows_of c h ops)
  unfolding live
  IsLive-rows_of [] kept = tt
  IsLive-rows_of (put_op j v ∷ ops) kept = (λ here. refl, IsLive-rows_of ops kept.1)
  IsLive-rows_of (remove_op j ∷ ops) kept = (ground (arith, kept.0), IsLive-rows_of ops kept.1)

-- Where no row in memory is a removal of the key, the disk is asked only if memory has no row.
live-or_else :
    (k : ℕ) (unflushed : List SsTableRow) (o : Option SsTableRow)
    → All (IsLive k) unflushed
    → or_else (live (last_row k unflushed)) (live o) ≡ live (or_else (last_row k unflushed) o)
live-or_else k unflushed o a = elim (Option-cases (last_row k unflushed)) [
  | inl none_here ↦ rw none_here (unfold live in refl)
  | inr (r, here) ↦
      let is_live =
        last_row-All (IsLive k) k unflushed r a here (last_row-key k unflushed r here) in
      rw (here, is_live) refl
]

pub All-behind {ℓ κ} : {A : Type ℓ} (P : A → Type κ) (xs ys : List A) → All P (xs ++ ys) → All P ys
All-behind P [] ys a = a
All-behind P (x ∷ xs) ys a = All-behind P xs ys a.1

-- On a new directory, with a hash function that exists, let puts and removes come that the engine
-- admits, fewer than 2^32 of them, with rows of less than 4 GiB together. For a key below 2^64 - 1
-- that none of them removes, all of them succeed and `get` answers the value of the key's last put,
-- or that there is none; it changes nothing. Snapshots that the puts cause in between do not matter.
pub get-run :
    (p : Platform) (o : Options) (h : Hasher) (ops : List Op) (k : ℕ)
    → create_hasher p.hashes o.hash_type ≡ some h
    → All (IsAdmitted p (create_compressor p.codecs p.runtime.max_size o.compression_type) h) ops
    → All (IsKept k) ops
    → k < npos
    → length (
        dump_rows
          (rows_of (create_compressor p.codecs p.runtime.max_size o.compression_type) h ops))
      < 2 ^ 32
    → length ops < 2 ^ 32
    → (e' : Engine) × (open_engine p o fresh ≡ (ok (new_engine p o), new_disk o))
      × (run p ops (new_engine p o) ≡ (ok tt, e'))
      × (get p k e' ≡ (ok (last_put k ops), e'))
get-run p o h ops k hasher a kept below bytes ids =
    let c = create_compressor p.codecs p.runtime.max_size o.compression_type in
    let r = new_engine-Represents p o h hasher in
    let (e', flushed, unflushed, ran, r', rows) =
      run-Represents p c h ops (new_engine p o) [] [] r a (unfold dump_rows in omega (arith, bytes))
        (omega (arith, ids)) in
    let live_rows : All (IsLive k) (flushed ++ unflushed) =
      rw rows (IsLive-rows_of p c h e' k r'.compresses r'.hashes ops kept) in
    let all : or_else (last_row k unflushed) (last_row k flushed) ≡ last_row k (rows_of c h ops) =
      sym (last_row-append k flushed unflushed) ∙ ap (last_row k) rows in
    let answer : open_value e' (or_else (live (last_row k unflushed)) (live (last_row k flushed)))
        ≡ ok (last_put k ops) =
      rw
        (
          live-or_else k unflushed (last_row k flushed)
              (All-behind (IsLive k) flushed unflushed live_rows),
          all,
        )
        (Opens-answer e' _ _ (Opens-rows_of p c h e' k r'.compresses r'.hashes ops a kept)) in
    (
      e',
      open_engine-fresh p o,
      ran,
      get_lem p c h e' flushed unflushed r' k below ∙ ap (λ x. (x, e')) answer,
    )

-- In an engine that represents its rows, with less than 4 GiB of them in memory, a `remove` of a
-- key below 2^64 - 1 succeeds, and `get` then answers from the key's last row in the segments, as
-- if the key had no row in memory: a key that no segment holds is gone, and a key whose last row
-- there is a put row has that value.
pub get-remove_key :
    (p : Platform) (c : Compressor) (h : Hasher) (e : Engine) (flushed unflushed : List SsTableRow)
    → Represents p c h e flushed unflushed
    → (k : ℕ) → k < npos
    → IsRow p.runtime (remove_row k)
    → length (dump_rows unflushed) < 2 ^ 32
    → (e' : Engine) × (remove_key k e ≡ (ok tt, e'))
      × (get p k e' ≡ (open_value e (live (last_row k flushed)), e'))
unfolding remove_key MemTable.remove_key put_entry open_value
get-remove_key p c h e flushed unflushed r k below fits bytes =
    let r' = Represents-with_row p c h e flushed unflushed r (remove_row k) fits bytes in
    let e' = with_row e (remove_row k) in
    let gone : live (last_row k (unflushed ++ remove_row k ∷ [])) ≡ none =
      rw (last_row-snoc k unflushed (remove_row k)) (unfold live in ground arith) in
    (
      e',
      refl,
      get_lem p c h e' flushed (unflushed ++ remove_row k ∷ []) r' k below
          ∙ ap (λ o. (open_value e' (or_else o (live (last_row k flushed))), e')) gone
          ∙ ap (λ o. (o, e')) (same (live (last_row k flushed))),
    )
  where
    same :
        (o : Option (Bytes × UInt128)) → open_value (with_row e (remove_row k)) o ≡ open_value e o
    same none = refl
    same (some a) = refl
