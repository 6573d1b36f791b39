-- ===== src/Index.antt =====
-- src/Index.h and src/Index.cpp: the index over all segments, the newest first.
-- `m_map` goes from a file id to a list iterator. A list node keeps its place when others are pushed
-- in front of it, so an iterator is the number of nodes behind its own.
pub mod Lookup
pub mod Ending
use open_x_database.Shared.{
  ℕ, zero, suc, ◌+◌, ◌-◌, Bool, true, false, List, [], ◌∷◌, ◌++◌, Option, none, some,
}
use open_x_database.Shared.{◌==◌, ltb, if◌then◌else◌, length, Outcome, ok, throws, already_indexed}
use open_x_database.Shared.{◌>>=◌, invalid_directory}
use open_x_database.Bytes.{Bytes}
use open_x_database.SsTableIndex
use open_x_database.SsTableIndex.{SsTableIndex, FileSearchHint, file_hint}

-- The arguments of the constructor are `uint32_t` already.
pub record SearchHint : Type 0 where
  pub file_id : ℕ
  pub offset : ℕ
  pub size : ℕ

abbrev pub no_search_hint : SearchHint
no_search_hint = record { file_id = 0; offset = 0; size = 0 }

pub record Index : Type 0 where
  pub table_indexes : List SsTableIndex
  pub map : List (ℕ × ℕ)

abbrev pub empty : Index
empty = record { table_indexes = []; map = [] }

unfoldable pub find_node : ℕ → List (ℕ × ℕ) → Option ℕ
find_node id [] = none
find_node id ((j, n) ∷ m) = if j == id then some n else find_node id m

-- The private `update(tableIndex, trust)`. `m_map.insert` keeps the entry of an id that it has.
unfoldable pub push : Index → SsTableIndex → Index
push x t = record {
  table_indexes = t ∷ x.table_indexes;
  map = elim (find_node t.file_id x.map) [
    | none ↦ (t.file_id, length x.table_indexes) ∷ x.map
    | some n ↦ x.map
  ];
}

unfoldable pub update_trusting : Bool → Index → SsTableIndex → Outcome Index
unfolding push
update_trusting true x t = ok (push x t)
update_trusting false x t = elim (find_node t.file_id x.map) [
  | none ↦ ok (push x t)
  | some n ↦ throws already_indexed
]

unfoldable pub update : Index → SsTableIndex → Outcome Index
unfolding update_trusting
update x t = update_trusting false x t

-- `tableIndex->insert(...)` at the node with `n` nodes behind it.
unfoldable pub insert_at : ℕ → ℕ → FileSearchHint → List SsTableIndex → List SsTableIndex
insert_at n k h [] = []
insert_at n k h (t ∷ ts) =
    if length ts == n then SsTableIndex.insert t k h ∷ ts else t ∷ insert_at n k h ts

unfoldable pub insert : Index → ℕ → SearchHint → Outcome Index
unfolding update_trusting insert_at find_node
insert x k hint = elim (find_node hint.file_id x.map) [
  | none ↦
      update_trusting true x
        (SsTableIndex.insert (SsTableIndex.new hint.file_id) k (file_hint hint.offset hint.size))
  | some n ↦
      ok (record x {
        table_indexes = insert_at n k (file_hint hint.offset hint.size) x.table_indexes;
      })
]

-- The first table index that has the key.
unfoldable pub search_tables : ℕ → List SsTableIndex → Bool × SearchHint
search_tables k [] = (false, no_search_hint)
search_tables k (t ∷ ts) =
    let (is_found, h) = SsTableIndex.get t k in
    if is_found
    then (true, record { file_id = t.file_id; offset = h.offset; size = h.size })
    else search_tables k ts

unfoldable pub get : Index → ℕ → Bool × SearchHint
unfolding search_tables
get x k = search_tables k x.table_indexes

-- The order of `std::set<fs::path>` on the names of files in one directory: by character.
unfoldable pub name_less : Bytes → Bytes → Bool
name_less xs [] = false
name_less [] (b ∷ bs) = true
name_less (a ∷ xs) (b ∷ bs) = if ltb a b then true else if ltb b a then false else name_less xs bs

-- A directory's regular files that can be opened, in any order.
abbrev pub Directory : Type 0
Directory = List (Bytes × Bytes)

unfoldable pub insert_path : Bytes × Bytes → Directory → Directory
unfolding name_less
insert_path (p, bs) [] = (p, bs) ∷ []
insert_path (p, bs) ((q, cs) ∷ d) =
    if name_less p q
    then (p, bs) ∷ (q, cs) ∷ d
    else if name_less q p
    then (q, cs) ∷ insert_path (p, bs) d
    else (q, cs) ∷ d

unfoldable pub sort_paths : Directory → Directory
unfolding insert_path
sort_paths [] = []
sort_paths (f ∷ d) = insert_path f (sort_paths d)

unfoldable pub load_files : Index → Directory → Outcome Index
load_files x [] = ok x
load_files x ((p, bs) ∷ d) = do
  t ← SsTableIndex.load (SsTableIndex.new 0) (some bs)
  x' ← update x t
  load_files x' d

unfoldable pub load : Index → Option Directory → Outcome Index
unfolding load_files sort_paths
load x none = throws invalid_directory
load x (some d) = load_files x (sort_paths d)
