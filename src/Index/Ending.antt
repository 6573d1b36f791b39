-- ===== src/Index/Ending.antt =====
-- `Index::load` on any directory.
use open_x_database.Shared.{
  ◌≢◌, [], ◌∷◌, Option, none, some, diverges, bind-ne-diverges, Option-cases, inl, inr, arith,
}
use open_x_database.SsTableIndex
use open_x_database.SsTableIndex.{SsTableIndex}
use open_x_database.SsTableIndex.Ending.{load_index-ne-diverges}
use open_x_database.Index.{
  Index, Directory, update, update_trusting, find_node, load_files, load, sort_paths,
}

update-ne-diverges : (x : Index) (t : SsTableIndex) → update x t ≢ diverges
unfolding update update_trusting
update-ne-diverges x t = elim (Option-cases (find_node t.file_id x.map)) [
  | inl fresh ↦ λ e. ground (arith, fresh, e)
  | inr (n, known) ↦ λ e. ground (arith, known, e)
]

load_files-ne-diverges : (x : Index) (d : Directory) → load_files x d ≢ diverges
unfolding load_files
load_files-ne-diverges x [] = λ e. cc
load_files-ne-diverges x ((p, bs) ∷ d) =
    bind-ne-diverges _ _ (load_index-ne-diverges (SsTableIndex.new 0) (some bs))
      (λ t. bind-ne-diverges _ _ (update-ne-diverges x t) (λ x'. load_files-ne-diverges x' d))

pub load_directory-ne-diverges : (x : Index) (d : Option Directory) → load x d ≢ diverges
unfolding load
load_directory-ne-diverges x none = λ e. cc
load_directory-ne-diverges x (some d) = load_files-ne-diverges x (sort_paths d)
