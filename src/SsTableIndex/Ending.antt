-- ===== src/SsTableIndex/Ending.antt =====
-- The loop of `SSTableIndex::load` on any file.
use open_x_database.Shared.{
  ℕ, ◌+◌, ◌≡◌, ◌≢◌, refl, Option, none, some, length, inr, arith, ok, throws, undefined, diverges,
  Outcome,
}
use open_x_database.Bytes.{Bytes}
use open_x_database.Bytes.Stream.{InStream, opened, read_uint}
use open_x_database.Bytes.Advance.{
  Advances, GetsOn, Ends, advance_rules, gets_on_rules, ends_rules, After,
}
use open_x_database.Bytes.Loop.{while-ne-diverges}
use open_x_database.SsTableIndex.{
  SsTableIndex, Hints, Round, read_round, load_round, read_file_id, first_round, loaded,
  load_rounds, load,
}

read_round-Advances : (r : Round) → Advances (read_round r)
unfolding read_round
read_round-Advances r = search (advance_rules) depth 20

read_round-GetsOn : (r : Round) → GetsOn (read_round r)
unfolding read_round read_uint
read_round-GetsOn r = search (gets_on_rules) depth 20

read_round-Ends : (r : Round) → Ends (read_round r)
unfolding read_round
read_round-Ends r = search (ends_rules) depth 20

load_round-Advances : (st : Round × Hints) → Advances (load_round st)
unfolding load_round
load_round-Advances (r, m) = search (advance_rules, read_round-Advances) depth 20

load_round-GetsOn : (st : Round × Hints) → GetsOn (load_round st)
unfolding load_round
load_round-GetsOn (r, m) = search (gets_on_rules, read_round-GetsOn) depth 20

load_round-Ends : (st : Round × Hints) → Ends (load_round st)
unfolding load_round
load_round-Ends (r, m) = search (ends_rules, read_round-Ends) depth 20

read_file_id-Advances : (old : ℕ) → Advances (read_file_id old)
unfolding read_file_id
read_file_id-Advances old = search (advance_rules) depth 20

read_file_id-Ends : (old : ℕ) → Ends (read_file_id old)
unfolding read_file_id
read_file_id-Ends old = search (ends_rules) depth 20

loaded-ne-diverges : (id : ℕ) (o : Outcome (Round × Hints)) → o ≢ diverges → loaded id o ≢ diverges
loaded-ne-diverges id (ok (r, m)) h = λ e. cc
loaded-ne-diverges id (throws x) h = λ e. cc
loaded-ne-diverges id undefined h = λ e. cc
loaded-ne-diverges id diverges h = absurd (h refl)

-- Behind the file id the stream has no more bytes than the file.
rounds-ne-diverges :
    (bs : Bytes) (m : Hints) (o : Outcome (ℕ × InStream))
    → ((id : ℕ) (s : InStream) → o ≡ ok (id, s) → After (opened bs) s)
    → o ≢ diverges
    → load_rounds (length bs + 2) m o ≢ diverges
rounds-ne-diverges bs m (ok (id, s)) h ends =
    let after = h id s refl in
    loaded-ne-diverges id _ (
      while-ne-diverges load_round load_round-GetsOn load_round-Advances load_round-Ends
        (length bs + 2) (first_round, m) s (after.sound (λ e. cc))
        (inr (omega (arith, after.shrinks))))
rounds-ne-diverges bs m (throws x) h ends = λ e. cc
rounds-ne-diverges bs m undefined h ends = λ e. cc
rounds-ne-diverges bs m diverges h ends = absurd (ends refl)

-- On any file and any index the loop ends: the fuel is never used up.
pub load_index-ne-diverges : (t : SsTableIndex) (file : Option Bytes) → load t file ≢ diverges
unfolding load
load_index-ne-diverges t none = λ e. cc
load_index-ne-diverges t (some bs) =
    rounds-ne-diverges bs t.map (read_file_id t.file_id (opened bs))
      (λ id s e. (read_file_id-Advances t.file_id).at (opened bs) id s e)
      (λ e. (read_file_id-Ends t.file_id).at (opened bs) e)
