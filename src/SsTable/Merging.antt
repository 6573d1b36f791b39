-- ===== src/SsTable/Merging.antt =====
-- `SSTable::merge` of src/SSTable.cpp.
use mathlib.Core.Path.{subst}
use open_x_database.Shared.{
  ℕ, ◌+◌, ◌≡◌, refl, sym, ◌∙◌, ap, Bool, true, false, ◌||◌, ltb, ◌==◌, List, [], ◌∷◌, map, arith,
  All, ok, Bool-cases, inl, inr,
}
use open_x_database.SsTableRow.{SsTableRow}
use open_x_database.SsTable.{
  SsTable, Pointer, pointers, is_sorted, merge_until, merge_pointers, unique_behind, unique, merge,
}

unfoldable pub has_key : ℕ → List SsTableRow → Bool
has_key k [] = false
has_key k (r ∷ rs) = (r.key == k) || has_key k rs

abbrev rows_of : List Pointer → List SsTableRow
rows_of xs = map (λ p. p.row) xs

-- No two rows one behind the other have the same key.
abbrev pub IsUnique : List SsTableRow → Type 0
IsUnique [] = Unit {0}
IsUnique (r ∷ []) = Unit {0}
IsUnique (r ∷ s ∷ rs) = ((r.key == s.key) ≡ false) × IsUnique (s ∷ rs)

rows-pointers :
    (address : ℕ → ℕ) (i : ℕ) (rs : List SsTableRow) → rows_of (pointers address i rs) ≡ rs
unfolding pointers
rows-pointers address i [] = refl
rows-pointers address i (r ∷ rs) = ap (λ xs. r ∷ xs) (rows-pointers address (i + 1) rs)

has_key-merge_until :
    (k : ℕ) (x : Pointer) (xs : List Pointer) (rest : List Pointer → List Pointer)
    → ((ys : List Pointer)
        → has_key k (rows_of (rest ys)) ≡ has_key k (rows_of xs) || has_key k (rows_of ys))
    → (ys : List Pointer)
    → has_key k (rows_of (merge_until x rest ys))
      ≡ has_key k (rows_of (x ∷ xs)) || has_key k (rows_of ys)
unfolding merge_until has_key
has_key-merge_until k x xs rest h [] = ground (arith, h [])
has_key-merge_until k x xs rest h (y ∷ ys) =
    ground (arith, h (y ∷ ys), has_key-merge_until k x xs rest h ys)

has_key-merge_pointers :
    (k : ℕ) (xs ys : List Pointer)
    → has_key k (rows_of (merge_pointers xs ys)) ≡ has_key k (rows_of xs) || has_key k (rows_of ys)
unfolding merge_pointers has_key
has_key-merge_pointers k [] ys = refl
has_key-merge_pointers k (x ∷ xs) ys =
    has_key-merge_until k x xs (merge_pointers xs) (has_key-merge_pointers k xs) ys

has_key-unique_behind :
    (k : ℕ) (p : Pointer) (xs : List Pointer)
    → (p.row.key == k) || has_key k (rows_of (unique_behind p xs))
      ≡ (p.row.key == k) || has_key k (rows_of xs)
unfolding unique_behind has_key
has_key-unique_behind k p [] = refl
has_key-unique_behind k p (x ∷ xs) =
    ground (arith, has_key-unique_behind k p xs, has_key-unique_behind k x xs)

has_key-unique :
    (k : ℕ) (xs : List Pointer) → has_key k (rows_of (unique xs)) ≡ has_key k (rows_of xs)
unfolding unique has_key
has_key-unique k [] = refl
has_key-unique k (x ∷ xs) = has_key-unique_behind k x xs

unique_behind-IsUnique :
    (p : Pointer) (xs : List Pointer) → IsUnique (rows_of (p ∷ unique_behind p xs))
unfolding unique_behind
unique_behind-IsUnique p [] = tt
unique_behind-IsUnique p (x ∷ xs) = elim (Bool-cases (p.row.key == x.row.key)) [
  | inl same ↦ rw same (unique_behind-IsUnique p xs)
  | inr other ↦ rw other (other, unique_behind-IsUnique x xs)
]

unique-IsUnique : (xs : List Pointer) → IsUnique (rows_of (unique xs))
unfolding unique
unique-IsUnique [] = tt
unique-IsUnique (x ∷ xs) = unique_behind-IsUnique x xs

module _ {κ} (P : SsTableRow → Type κ) where
  merge_until-All :
      (x : Pointer) (rest : List Pointer → List Pointer)
      → P x.row
      → ((ys : List Pointer) → All P (rows_of ys) → All P (rows_of (rest ys)))
      → (ys : List Pointer) → All P (rows_of ys)
      → All P (rows_of (merge_until x rest ys))
  unfolding merge_until
  merge_until-All x rest px h [] a = (px, h [] tt)
  merge_until-All x rest px h (y ∷ ys) a = elim (Bool-cases (ltb y.address x.address)) [
    | inl below ↦ rw below (a.0, merge_until-All x rest px h ys a.1)
    | inr other ↦ rw other (px, h (y ∷ ys) a)
  ]

  merge_pointers-All :
      (xs ys : List Pointer)
      → All P (rows_of xs)
      → All P (rows_of ys)
      → All P (rows_of (merge_pointers xs ys))
  unfolding merge_pointers
  merge_pointers-All [] ys a b = b
  merge_pointers-All (x ∷ xs) ys a b =
      merge_until-All x (merge_pointers xs) a.0 (λ zs c. merge_pointers-All xs zs a.1 c) ys b

  unique_behind-All :
      (p : Pointer) (xs : List Pointer) → All P (rows_of xs) → All P (rows_of (unique_behind p xs))
  unfolding unique_behind
  unique_behind-All p [] a = tt
  unique_behind-All p (x ∷ xs) a = elim (Bool-cases (p.row.key == x.row.key)) [
    | inl same ↦ rw same (unique_behind-All p xs a.1)
    | inr other ↦ rw other (a.0, unique_behind-All x xs a.1)
  ]

  unique-All : (xs : List Pointer) → All P (rows_of xs) → All P (rows_of (unique xs))
  unfolding unique
  unique-All [] a = tt
  unique-All (x ∷ xs) a = (a.0, unique_behind-All x xs a.1)

  module _ (address other_address : ℕ → ℕ) (t other : SsTable) where
    -- Let the rows of two tables each lie at addresses that do not fall. Then `merge` has a table with
    -- the keys of the two and no others, in which no two rows one behind the other have the same key,
    -- and whose rows have what all rows of the two have.
    pub merge_lem :
        is_sorted (pointers address 0 t.rows) ≡ true
        → is_sorted (pointers other_address 0 other.rows) ≡ true
        → All P t.rows
        → All P other.rows
        → (t' : SsTable) × (merge address other_address t other ≡ ok t')
          × ((k : ℕ) → has_key k t'.rows ≡ has_key k t.rows || has_key k other.rows)
          × IsUnique t'.rows
          × All P t'.rows
    unfolding merge
    merge_lem sorted other_sorted a b =
        let xs = pointers address 0 t.rows in
        let ys = pointers other_address 0 other.rows in
        let from_xs : rows_of xs ≡ t.rows = rows-pointers address 0 t.rows in
        let from_ys : rows_of ys ≡ other.rows = rows-pointers other_address 0 other.rows in
        (
          record { rows = rows_of (unique (merge_pointers xs ys)) },
          rw (sorted, other_sorted) refl,
          λ k.
              has_key-unique k (merge_pointers xs ys)
              ∙ has_key-merge_pointers k xs ys
              ∙ (λ i. has_key k (from_xs i) || has_key k (from_ys i)),
          unique-IsUnique (merge_pointers xs ys),
          unique-All (merge_pointers xs ys) (
              merge_pointers-All xs ys (subst (All P) (sym from_xs) a)
                (subst (All P) (sym from_ys) b)),
        )
