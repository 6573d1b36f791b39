-- ===== src/History.antt =====
-- The abstract view of a table: the rows that were put into it, the oldest first. A key has the last
-- row that was put for it.
use open_x_database.Shared.{
  ℕ, ◌≡◌, refl, sym, List, [], ◌∷◌, ◌++◌, Option, none, some, arith, ◌==◌, if◌then◌else◌,
}
use open_x_database.Shared.{All, Option-cases, inl, inr}
use mathlib.Core.Path.{subst}
use open_x_database.SsTableRow.{SsTableRow}

abbrev pub or_else {ℓ} : {A : Type ℓ} → Option A → Option A → Option A
or_else none b = b
or_else (some a) b = some a

-- A state after one step for each row.
abbrev pub steps {ℓ} : {S : Type ℓ} → (S → SsTableRow → S) → S → List SsTableRow → S
steps step st [] = st
steps step st (r ∷ rs) = steps step (step st r) rs

unfoldable pub last_row : ℕ → List SsTableRow → Option SsTableRow
last_row k [] = none
last_row k (r ∷ rs) = or_else (last_row k rs) (if r.key == k then some r else none)

pub or_else_assoc {ℓ} :
    {A : Type ℓ} (a b c : Option A) → or_else (or_else a b) c ≡ or_else a (or_else b c)
or_else_assoc none b c = refl
or_else_assoc (some a) b c = refl

pub or_else-none {ℓ} : {A : Type ℓ} (a : Option A) → or_else a none ≡ a
or_else-none none = refl
or_else-none (some a) = refl

pub last_row-append :
    (k : ℕ) (xs ys : List SsTableRow)
    → last_row k (xs ++ ys) ≡ or_else (last_row k ys) (last_row k xs)
unfolding last_row
last_row-append k [] ys = sym (or_else-none (last_row k ys))
last_row-append k (x ∷ xs) ys =
    rw (last_row-append k xs ys)
      (or_else_assoc (last_row k ys) (last_row k xs) (if x.key == k then some x else none))

pub last_row-snoc :
    (k : ℕ) (xs : List SsTableRow) (r : SsTableRow)
    → last_row k (xs ++ r ∷ []) ≡ (if r.key == k then some r else last_row k xs)
last_row-snoc k xs r = rw (last_row-append k xs (r ∷ [])) (unfold last_row in ground arith)

pub last_row-All {κ} :
    (P : SsTableRow → Type κ) (k : ℕ) (rows : List SsTableRow) (r : SsTableRow)
    → All P rows
    → last_row k rows ≡ some r
    → P r
unfolding last_row
last_row-All P k [] r h e = cc
last_row-All P k (q ∷ rows) r h e = elim (Option-cases (last_row k rows)) [
  | inr (r', later) ↦ last_row-All P k rows r h.1 (ground arith)
  | inl none_later ↦ subst P (is_first none_later) h.0
]
  where
    is_first : last_row k rows ≡ none → q ≡ r
    is_first none_later = ground arith
