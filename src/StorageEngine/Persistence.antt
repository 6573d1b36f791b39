-- ===== src/StorageEngine/Persistence.antt =====
-- What the closed engine's directory has of the rows: the log has all of them, the options are saved,
-- and every index file can be loaded.
use open_x_database.Shared.{
  ℕ, ◌≡◌, ◌≢◌, ◌<◌, ◌^◌, refl, sym, ◌∙◌, true, List, [], ◌∷◌, ◌++◌, Option, none, some, arith, All,
  ok,
}
use open_x_database.Shared.{append-nil}
use open_x_database.Bytes.{Bytes}
use open_x_database.SsTableRow.{SsTableRow}
use open_x_database.SsTableIndex
use open_x_database.SsTableIndex.{Hints, SsTableIndex, of_table, lookup}
use open_x_database.SsTableIndex.Loading.{IsEntry, load-dump_index}
use open_x_database.SsTableIndex.Keys.{
  IsDistinct, of_table-IsBuilt, of_table-ne-nil, lookup-of_table-none,
}
use open_x_database.WriteAheadLog
use open_x_database.WriteAheadLog.{WriteAheadLog}
use open_x_database.MemTable.{npos, create_sorted_strings_table}
use open_x_database.MemTable.Keys.{HasKeys, table-All}
use open_x_database.MemTable.Snapshot.{last_row-table}
use open_x_database.MemTable.Recovery.{IsLogged}
use open_x_database.Index.{Directory}
use open_x_database.Disk.{index_name}
use open_x_database.Options.{Options}
use open_x_database.History.{or_else, last_row, last_row-append}
use open_x_database.Compression.{Compressor}
use open_x_database.Hasher.{Hasher}
use open_x_database.StorageEngine.State.{Platform, Engine}
use open_x_database.StorageEngine.Opening.{options_bytes}
use open_x_database.StorageEngine.Invariant.{Represents}
use open_x_database.StorageEngine.Segments.{file_id-of_table}
use open_x_database.StorageEngine.Snapshots
use open_x_database.StorageEngine.Snapshots.{snapshotted}
use open_x_database.StorageEngine.IndexFiles.{
  IsIndexFile, IsApart, write_file-All, write_file-IsApart,
}

-- Going through an unordered map meets every entry once.
pub record Traverses (order : Hints → Hints) : Type 0 where
  pub answers : (m : Hints) → IsDistinct m → (k : ℕ) → lookup k (order m) ≡ lookup k m
  pub entries : (m : Hints) → All IsEntry m → All IsEntry (order m)
  pub some_left : (m : Hints) → m ≢ [] → order m ≢ []

pub record Persists (o : Options) (e : Engine) (rows : List SsTableRow) : Type 0 where
  pub logged : IsLogged e.mem_table rows
  pub bounded : HasKeys e.mem_table.map
  pub saved : e.disk.options ≡ some (options_bytes o)
  pub files : Directory
  pub has_files : e.disk.indexes ≡ some files
  pub good : All (IsIndexFile rows) files
  pub apart : IsApart files

-- A key that no row has, none of the first rows has.
missing_before :
    (k : ℕ) (rows more : List SsTableRow)
    → last_row k (rows ++ more) ≡ none
    → last_row k rows ≡ none
missing_before k rows more e = by_rest (last_row k more) (sym (last_row-append k rows more) ∙ e)
  where
    by_rest :
        (later : Option SsTableRow)
        → or_else later (last_row k rows) ≡ none
        → last_row k rows ≡ none
    by_rest none e = e
    by_rest (some r) e = cc

missing_behind :
    (k : ℕ) (rows more : List SsTableRow)
    → last_row k (rows ++ more) ≡ none
    → last_row k more ≡ none
missing_behind k rows more e = by_rest (last_row k more) (sym (last_row-append k rows more) ∙ e)
  where
    by_rest : (later : Option SsTableRow) → or_else later (last_row k rows) ≡ none → later ≡ none
    by_rest none e = refl
    by_rest (some r) e = cc

pub more_rows :
    (rows more : List SsTableRow) (d : Directory)
    → All (IsIndexFile rows) d
    → All (IsIndexFile (rows ++ more)) d
more_rows rows more [] a = tt
more_rows rows more (f ∷ d) (g, a) = (
  (record {
    id = g.id;
    named = g.named;
    table = g.table;
    loads = g.loads;
    file_id = g.file_id;
    missing = λ k l e. g.missing k l (missing_before k rows more e);
  }),
  more_rows rows more d a,
)

-- A dumped index of at least one entry can be loaded.
index_file :
    (order : Hints → Hints) (n : ℕ) (t : SsTableIndex) (rows : List SsTableRow) (bs : Bytes)
    (m : Hints)
    → order t.map ≡ m
    → m ≢ []
    → All IsEntry m
    → n < 2 ^ 32
    → t.file_id ≡ n
    → SsTableIndex.dump order true t ≡ ok bs
    → ((k : ℕ) → k < npos → last_row k rows ≡ none → lookup k (order t.map) ≡ none)
    → IsIndexFile rows (index_name n, bs)
index_file order n t rows bs [] ordered some_left fits id_fits id dumped missing =
    absurd (some_left refl)
index_file order n t rows bs (x ∷ m) ordered some_left fits id_fits id dumped missing =
    let (bs', t', dumped', loads, file_id, answers) =
      load-dump_index order t 0 x m (omega (arith, id)) ordered fits in
    let same : bs' ≡ bs = cc in
    record {
      id = n;
      named = refl;
      table = t';
      loads = rw (← same) loads;
      file_id = file_id ∙ id;
      missing = λ k l e. answers k ∙ missing k l e;
    }

has_row :
    (k : ℕ) (row : SsTableRow) (rows : List SsTableRow) → last_row k rows ≡ some row → rows ≢ []
unfolding last_row
has_row k row [] e = cc
has_row k row (x ∷ rows) e = λ none_left. cc

module _ (p : Platform) (c : Compressor) (h : Hasher) (o : Options) (e : Engine)
    (flushed unflushed : List SsTableRow) (r : Represents p c h e flushed unflushed)
    (traverses : Traverses p.order) (persists : Persists o e (flushed ++ unflushed)) where
  -- The new index file.
  new_file :
      (k : ℕ)
      → k < npos
      → (row : SsTableRow) → last_row k unflushed ≡ some row
      → IsIndexFile
          (flushed ++ unflushed)
          (index_name e.segment_id, Snapshots.index_bytes p c h e flushed unflushed r)
  unfolding SsTableIndex.dump
  new_file k l row here =
      let table = create_sorted_strings_table e.mem_table in
      let index = of_table e.segment_id table in
      let built = of_table-IsBuilt e.segment_id table (table-All e.mem_table persists.bounded) in
      let same : (j : ℕ) → j < npos → last_row j table.rows ≡ last_row j unflushed =
        λ j l. last_row-table e.mem_table j r.in_memory.sorted l ∙ r.in_memory.answers j in
      index_file p.order e.segment_id index (flushed ++ unflushed) _ (p.order index.map) refl
        (traverses.some_left index.map
          (of_table-ne-nil e.segment_id table (has_row k row table.rows (same k l ∙ here))))
        (traverses.entries index.map built.entries) r.id_fits
        (file_id-of_table e.segment_id table r.id_fits) refl
        (λ j l none_of.
          traverses.answers index.map built.distinct j
          ∙ lookup-of_table-none e.segment_id j table
              (same j l ∙ missing_behind j flushed unflushed none_of))

  -- A snapshot keeps the log's rows in its file, and adds an index file.
  pub Persists-snapshotted :
      (k : ℕ)
      → k < npos
      → (row : SsTableRow) → last_row k unflushed ≡ some row
      → Persists o (snapshotted p c h e flushed unflushed r) (flushed ++ unflushed)
  unfolding snapshotted WriteAheadLog.flush_and_clear
  Persists-snapshotted k l row here =
      let (w, at, bytes) = persists.logged in
      let same_log : w ≡ r.log = ground (arith, at, r.logs) in
      let same_files : persists.files ≡ r.indexes =
        ground (arith, persists.has_files, r.has_indexes) in
      record {
        logged = (
          WriteAheadLog.flush_and_clear r.log,
          refl,
          append-nil (r.log.file ++ r.log.pending) ∙ rw (← same_log) bytes,
        );
        bounded = tt;
        saved = persists.saved;
        files = _;
        has_files = refl;
        good = rw (← same_files) (
            write_file-All (IsIndexFile (flushed ++ unflushed)) _ _ persists.files
              (new_file k l row here) persists.good);
        apart = rw (← same_files) (write_file-IsApart _ _ persists.files persists.apart);
      }
