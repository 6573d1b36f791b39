-- ===== src/Index/Lookup.antt =====
-- The newest table index that has a key answers for it.
use open_x_database.Shared.{ℕ, ◌≡◌, ◌≢◌, true, false, none, arith}
use open_x_database.Shared.{ok}
use open_x_database.SsTableIndex
use open_x_database.SsTableIndex.{SsTableIndex, FileSearchHint}
use open_x_database.Index.{Index, find_node, push, update, get, search_tables}

-- A segment that is not indexed yet is taken in, and no other id becomes known.
pub update-push :
    (x : Index) (t : SsTableIndex) → find_node t.file_id x.map ≡ none → update x t ≡ ok (push x t)
unfolding update push
update-push x t e = ground arith

pub find_node-push :
    (x : Index) (t : SsTableIndex) (id : ℕ)
    → t.file_id ≢ id
    → find_node id (push x t).map ≡ find_node id x.map
unfolding push find_node
find_node-push x t id other = ground arith

module _ (x : Index) (t : SsTableIndex) (k : ℕ) where
  pub get-push_found :
      (h : FileSearchHint)
      → SsTableIndex.get t k ≡ (true, h)
      → get (push x t) k ≡ (true, record { file_id = t.file_id; offset = h.offset; size = h.size })
  unfolding get push search_tables
  get-push_found h e = rw (e, search_tables)

  pub get-push_missing :
      (h : FileSearchHint) → SsTableIndex.get t k ≡ (false, h) → get (push x t) k ≡ get x k
  unfolding get push search_tables
  get-push_missing h e = rw (e, search_tables)
