-- ===== src/StorageEngine/IndexFiles.antt =====
-- The index files of a directory, in any order, and `Index::load`.
use mathlib.Core.Path.{subst}
use open_x_database.Shared.{
  ℕ, ◌≡◌, ◌<◌, refl, sym, ◌∙◌, ap, Bool, if◌then◌else◌, true, false, List, [], ◌∷◌, none, some, All,
  ok, Bool-cases, inl, inr,
}
use open_x_database.Bytes.{Bytes}
use open_x_database.SsTableRow.{SsTableRow}
use open_x_database.SsTableIndex
use open_x_database.SsTableIndex.{SsTableIndex, lookup}
use open_x_database.Index
use open_x_database.Index.{
  Index, Directory, find_node, push, insert_path, sort_paths, load_files, name_less,
}
use open_x_database.Index.Lookup.{update-push, find_node-push, get-push_missing}
use open_x_database.Disk.{index_name, write_file}
use open_x_database.Bytes.Equality.{same_bytes, same_bytes_self, same_bytes→eq, same_bytes_comm}
use open_x_database.MemTable.{npos}
use open_x_database.History.{last_row}

-- The file can be loaded as the index of the number in its name, and every key below 2^64 - 1 that it
-- has is one of the rows'.
pub record IsIndexFile (rows : List SsTableRow) (f : Bytes × Bytes) : Type 0 where
  pub id : ℕ
  pub named : f.0 ≡ index_name id
  pub table : SsTableIndex
  pub loads : SsTableIndex.load (SsTableIndex.new 0) (some f.1) ≡ ok table
  pub file_id : table.file_id ≡ id
  pub missing : (k : ℕ) → k < npos → last_row k rows ≡ none → lookup k table.map ≡ none

abbrev pub IsApartFrom : Bytes → Bytes × Bytes → Type 0
IsApartFrom p g = same_bytes p g.0 ≡ false

-- No two files have one name.
abbrev pub IsApart : Directory → Type 0
IsApart [] = Unit {0}
IsApart (f ∷ d) = All (IsApartFrom f.0) d × IsApart d

-- What holds on both branches.
if_both {ℓ κ} :
    {A : Type ℓ} (P : A → Type κ) (b : Bool) (x y : A) → P x → P y → P (if b then x else y)
if_both P true x y h k = h
if_both P false x y h k = k

insert_path-All {κ} :
    (P : Bytes × Bytes → Type κ) (f : Bytes × Bytes) (d : Directory)
    → P f
    → All P d
    → All P (insert_path f d)
unfolding insert_path
insert_path-All P (p, bs) [] h a = (h, tt)
insert_path-All P (p, bs) ((q, cs) ∷ d) h a =
    let before : All P ((p, bs) ∷ (q, cs) ∷ d) = (h, a) in
    let behind : All P ((q, cs) ∷ insert_path (p, bs) d) =
      (a.0, insert_path-All P (p, bs) d h a.1) in
    if_both (All P) (name_less p q) _ _ before (if_both (All P) (name_less q p) _ _ behind a)

sort_paths-All {κ} : (P : Bytes × Bytes → Type κ) (d : Directory) → All P d → All P (sort_paths d)
unfolding sort_paths
sort_paths-All P [] a = tt
sort_paths-All P (f ∷ d) a = insert_path-All P f (sort_paths d) a.0 (sort_paths-All P d a.1)

insert_path-IsApart :
    (f : Bytes × Bytes) (d : Directory)
    → All (IsApartFrom f.0) d
    → IsApart d
    → IsApart (insert_path f d)
unfolding insert_path
insert_path-IsApart (p, bs) [] h a = (tt, tt)
insert_path-IsApart (p, bs) ((q, cs) ∷ d) h a =
    let away : IsApartFrom q (p, bs) = same_bytes_comm q p ∙ h.0 in
    let before : IsApart ((p, bs) ∷ (q, cs) ∷ d) = (h, a) in
    let behind : IsApart ((q, cs) ∷ insert_path (p, bs) d) =
      (insert_path-All (IsApartFrom q) (p, bs) d away a.0, insert_path-IsApart (p, bs) d h.1 a.1) in
    if_both IsApart (name_less p q) _ _ before (if_both IsApart (name_less q p) _ _ behind a)

sort_paths-IsApart : (d : Directory) → IsApart d → IsApart (sort_paths d)
unfolding sort_paths
sort_paths-IsApart [] a = tt
sort_paths-IsApart (f ∷ d) a =
    insert_path-IsApart f (sort_paths d) (sort_paths-All (IsApartFrom f.0) d a.0)
      (sort_paths-IsApart d a.1)

-- No key below 2^64 - 1 that the rows do not have is found.
abbrev pub HasNoOther : List SsTableRow → Index → Type 0
HasNoOther rows x = (k : ℕ) → k < npos → last_row k rows ≡ none → (Index.get x k).0 ≡ false

-- The number in the file's name is not indexed yet.
abbrev IsNew : Index → Bytes × Bytes → Type 0
IsNew x f = (i : ℕ) → f.0 ≡ index_name i → find_node i x.map ≡ none

push-HasNoOther :
    (rows : List SsTableRow) (x : Index) (t : SsTableIndex)
    → ((k : ℕ) → k < npos → last_row k rows ≡ none → lookup k t.map ≡ none)
    → HasNoOther rows x
    → HasNoOther rows (push x t)
push-HasNoOther rows x t missing h k l e =
    let nothing : SsTableIndex.get t k ≡ (false, SsTableIndex.no_hint) =
      unfold SsTableIndex.get in rw (missing k l e) refl in
    ap (λ a. a.0) (get-push_missing x t k SsTableIndex.no_hint nothing) ∙ h k l e

push-IsNew :
    (x : Index) (t : SsTableIndex) (p : Bytes) (d : Directory)
    → p ≡ index_name t.file_id
    → All (IsApartFrom p) d
    → All (IsNew x) d
    → All (IsNew (push x t)) d
push-IsNew x t p [] named a n = tt
push-IsNew x t p (g ∷ d) named a n = (
  λ i e. find_node-push x t i (λ same. differs (named ∙ ap index_name same ∙ sym e) a.0) ∙ n.0 i e,
  push-IsNew x t p d named a.1 n.1,
)
  where
    differs : p ≡ g.0 → same_bytes p g.0 ≡ false → ⊥
    differs e h = let clash : true ≡ false = sym (same_bytes_self p) ∙ ap (same_bytes p) e ∙ h in cc

load_files_lem :
    (rows : List SsTableRow) (d : Directory) (x : Index)
    → All (IsIndexFile rows) d
    → IsApart d
    → All (IsNew x) d
    → HasNoOther rows x
    → (x' : Index) × (load_files x d ≡ ok x') × HasNoOther rows x'
unfolding load_files
load_files_lem rows [] x good apart n h = (x, refl, h)
load_files_lem rows ((p, bs) ∷ d) x good apart n h =
    let f = good.0 in
    let fresh : find_node f.table.file_id x.map ≡ none =
      n.0 f.table.file_id (f.named ∙ ap index_name (sym f.file_id)) in
    let (x', done, has) =
      load_files_lem rows d (push x f.table) good.1 apart.1
        (push-IsNew x f.table p d (f.named ∙ ap index_name (sym f.file_id)) apart.0 n.1)
        (push-HasNoOther rows x f.table f.missing h) in
    (x', rw (f.loads, update-push x f.table fresh) done, has)

pub write_file-All {κ} :
    (P : Bytes × Bytes → Type κ) (p bs : Bytes) (d : Directory)
    → P (p, bs)
    → All P d
    → All P (write_file p bs d)
unfolding write_file
write_file-All P p bs [] h a = (h, tt)
write_file-All P p bs ((q, cs) ∷ d) h a = elim (Bool-cases (same_bytes q p)) [
  | inl same ↦ rw same (subst (λ n. P (n, bs)) (sym (same_bytes→eq q p same)) h, a.1)
  | inr other ↦ rw other (a.0, write_file-All P p bs d h a.1)
]

pub write_file-IsApart : (p bs : Bytes) (d : Directory) → IsApart d → IsApart (write_file p bs d)
unfolding write_file
write_file-IsApart p bs [] a = (tt, tt)
write_file-IsApart p bs ((q, cs) ∷ d) a = elim (Bool-cases (same_bytes q p)) [
  | inl same ↦ rw same a
  | inr other ↦
      rw other (write_file-All (IsApartFrom q) p bs d other a.0, write_file-IsApart p bs d a.1)
]

All-IsNew : (d : Directory) → All (IsNew Index.empty) d
All-IsNew [] = tt
All-IsNew (f ∷ d) = (λ i e. unfold find_node in refl, All-IsNew d)

-- Whatever order the directory has, all its index files are loaded.
pub load-HasNoOther :
    (rows : List SsTableRow) (d : Directory)
    → All (IsIndexFile rows) d
    → IsApart d
    → (x : Index) × (Index.load Index.empty (some d) ≡ ok x) × HasNoOther rows x
unfolding Index.load Index.get
load-HasNoOther rows d good apart =
    load_files_lem rows (sort_paths d) Index.empty (sort_paths-All (IsIndexFile rows) d good)
      (sort_paths-IsApart d apart) (All-IsNew (sort_paths d)) (λ k l e. refl)
