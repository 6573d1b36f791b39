-- ===== src/File/Slices.antt =====
-- The part of a list from an offset on.
use open_x_database.Shared.{
  ℕ, zero, suc, ◌+◌, ◌≡◌, ◌≤◌, refl, List, [], ◌∷◌, ◌++◌, length, take, drop, drop_all, append-nil,
  arith,
}

module _ {ℓ} {A : Type ℓ} where
  abbrev pub slice : ℕ → ℕ → List A → List A
  slice offset size xs = take size (drop offset xs)

  take-append_within :
      (size : ℕ) (xs ys : List A) → size ≤ length xs → take size (xs ++ ys) ≡ take size xs
  take-append_within zero xs ys l = refl
  take-append_within (suc size) [] ys l = absurd (omega (arith, l))
  take-append_within (suc size) (x ∷ xs) ys l =
      rw (take-append_within size xs ys (omega (arith, l)))

  pub slice-append :
      (offset size : ℕ) (xs ys : List A)
      → offset + size ≤ length xs
      → slice offset size (xs ++ ys) ≡ slice offset size xs
  slice-append zero size xs ys l = take-append_within size xs ys (omega (arith, l))
  slice-append (suc offset) size [] ys l = absurd (omega (arith, l))
  slice-append (suc offset) size (x ∷ xs) ys l = slice-append offset size xs ys (omega (arith, l))

  take-take : (size n : ℕ) (xs : List A) → size ≤ n → take size (take n xs) ≡ take size xs
  take-take zero n xs l = refl
  take-take (suc size) zero xs l = absurd (omega (arith, l))
  take-take (suc size) (suc n) [] l = refl
  take-take (suc size) (suc n) (x ∷ xs) l = rw (take-take size n xs (omega (arith, l)))

  pub slice-take :
      (offset size n : ℕ) (xs : List A)
      → offset + size ≤ n
      → slice offset size (take n xs) ≡ slice offset size xs
  slice-take zero size n xs l = take-take size n xs (omega (arith, l))
  slice-take (suc offset) size zero xs l = absurd (omega (arith, l))
  slice-take (suc offset) size (suc n) [] l = refl
  slice-take (suc offset) size (suc n) (x ∷ xs) l = slice-take offset size n xs (omega (arith, l))

  -- Behind what stands in place of the first `n`, the list goes on as it was.
  pub drop-append_drop :
      (offset n : ℕ) (front xs : List A)
      → length front ≡ n
      → n ≤ offset
      → drop offset (front ++ drop n xs) ≡ drop offset xs
  drop-append_drop offset zero [] xs e l = refl
  drop-append_drop offset zero (y ∷ front) xs e l = absurd (omega (arith, e))
  drop-append_drop offset (suc n) [] xs e l = absurd (omega (arith, e))
  drop-append_drop zero (suc n) (y ∷ front) xs e l = absurd (omega (arith, l))
  drop-append_drop (suc offset) (suc n) (y ∷ front) [] e l =
      rw (append-nil front) (drop_all offset front (omega (arith, e, l)))
  drop-append_drop (suc offset) (suc n) (y ∷ front) (x ∷ xs) e l =
      drop-append_drop offset n front xs (omega (arith, e)) (omega (arith, l))
