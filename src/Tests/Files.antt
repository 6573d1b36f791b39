-- ===== src/Tests/Files.antt =====
-- A file that is written and appended to, and tables that are merged.
use open_x_database.Shared.{
  ℕ, ◌+◌, ◌≡◌, ◌≤◌, ◌<◌, ◌^◌, ◌⊎◌, ◌||◌, refl, [], ◌∷◌, true, some, ok, arith, take, drop, All,
}
use open_x_database.File.{Mapping, File, read, write}
use open_x_database.File.Mapped.{Maps, read-write_part}
use open_x_database.SsTable.{SsTable, merge, pointers, is_sorted}
use open_x_database.SsTable.Merging.{has_key, IsUnique, merge_lem}
use open_x_database.Tests.Data.{put_seven, remove_four, put_seven_again}

abbrev mapping : Mapping
mapping = record { region = λ offset size bs. ok (take size (drop offset bs)) }

mapping-Maps : Maps mapping
mapping-Maps = record { region = λ offset size bs l fits. refl }

abbrev old_file : File
old_file = some (1 ∷ 2 ∷ 3 ∷ 4 ∷ 5 ∷ [])

read-write_part_example :
    (file' : File) × (write mapping true 2 (7 ∷ 8 ∷ []) old_file ≡ (ok tt, file'))
    × (read mapping 1000 2 2 file' ≡ ok (7 ∷ 8 ∷ []))
    × ((at size : ℕ)
        → 0 < size
        → at + size < 2 ^ 64
        → at + size ≤ 5
        → (at + size ≤ 2) ⊎ (4 ≤ at)
        → read mapping 1000 at size file' ≡ read mapping 1000 at size old_file)
read-write_part_example =
    read-write_part mapping mapping-Maps 2 (7 ∷ 8 ∷ []) (omega arith) (omega arith) 1000 old_file
      (omega arith)

abbrev left_table : SsTable
left_table = record { rows = remove_four ∷ put_seven ∷ [] }

abbrev right_table : SsTable
right_table = record { rows = put_seven_again ∷ [] }

merge_lem_example :
    (t' : SsTable) × (merge (λ i. i) (λ i. i + 9) left_table right_table ≡ ok t')
    × ((k : ℕ) → has_key k t'.rows ≡ has_key k left_table.rows || has_key k right_table.rows)
    × IsUnique t'.rows
    × All (λ r. r.key < 2 ^ 64) t'.rows
unfolding is_sorted pointers
merge_lem_example =
    merge_lem (λ r. r.key < 2 ^ 64) (λ i. i) (λ i. i + 9) left_table right_table refl refl
      (omega arith, (omega arith, tt)) (omega arith, tt)
