-- ===== src/Bytes/Loop.antt =====
-- `while (!stream.eof()) { ...; stream.peek(); }`, the loop by which every file is read, on fuel. One
-- theorem says that it ends, whatever the file holds.
use open_x_database.Shared.{
  ℕ, zero, suc, ◌+◌, ◌≡◌, ◌≢◌, refl, true, false, arith, length, inl, inr, Bool-cases,
}
use open_x_database.Shared.{Outcome, ok, throws, undefined, diverges}
use open_x_database.Bytes.{Bytes}
use open_x_database.Bytes.Stream.{InStream, Reader, opened, peek}
use open_x_database.Bytes.Advance.{
  Advances, GetsOn, Ends, Enough, Enough-round, IsSound, peek-After,
}

module _ {ℓ} {S : Type ℓ} where
  -- `body` reads what one round reads, and gives the new state.
  unfoldable pub while_not_eof : (S → Reader S) → ℕ → S → InStream → Outcome S
  while_not_eof body zero st s = diverges
  while_not_eof body (suc fuel) st s = elim s.eof [
    | true ↦ ok st
    | false ↦ elim (body st s) [
      | ok (st', s') ↦ while_not_eof body fuel st' (peek s')
      | throws e ↦ throws e
      | undefined ↦ undefined
      | diverges ↦ diverges
    ]
  ]

  -- Each round but the last takes a byte, so this fuel is enough.
  unfoldable pub read_all : (S → Reader S) → S → Bytes → Outcome S
  unfolding while_not_eof
  read_all body st bs = while_not_eof body (length bs + 2) st (opened bs)

  pub while_end :
      (body : S → Reader S) (fuel : ℕ) (st : S) (s : InStream)
      → s.eof ≡ true
      → while_not_eof body (suc fuel) st s ≡ ok st
  unfolding while_not_eof
  while_end body fuel st s e = rw (e, while_not_eof)

  pub while_round :
      (body : S → Reader S) (fuel : ℕ) (st st' : S) (s s' : InStream)
      → s.eof ≡ false
      → body st s ≡ ok (st', s')
      → while_not_eof body (suc fuel) st s ≡ while_not_eof body fuel st' (peek s')
  unfolding while_not_eof
  while_round body fuel st st' s s' e b = ground arith

module _ {ℓ} {S : Type ℓ} (body : S → Reader S) (gets_on : (st : S) → GetsOn (body st))
    (advances : (st : S) → Advances (body st)) (ends : (st : S) → Ends (body st)) where
  round_ends :
      (fuel : ℕ) (st : S) (s : InStream) (o : Outcome (S × InStream))
      → s.eof ≡ false
      → body st s ≡ o
      → ((st' : S) (s' : InStream)
          → o ≡ ok (st', s')
          → while_not_eof body fuel st' (peek s') ≢ diverges)
      → while_not_eof body (suc fuel) st s ≢ diverges
  unfolding while_not_eof
  round_ends fuel st s (ok (st', s')) e b next = rw (e, b, while_not_eof) (next st' s' refl)
  round_ends fuel st s (throws x) e b next = rw (e, b, while_not_eof) (λ p. cc)
  round_ends fuel st s undefined e b next = rw (e, b, while_not_eof) (λ p. cc)
  round_ends fuel st s diverges e b next = absurd ((ends st).at s b)

  -- From any sound stream, with a round for each byte and two more.
  pub while-ne-diverges :
      (fuel : ℕ) (st : S) (s : InStream)
      → IsSound s
      → Enough fuel s
      → while_not_eof body fuel st s ≢ diverges
  while-ne-diverges zero st s h (inl e) = absurd (omega arith)
  while-ne-diverges zero st s h (inr l) = absurd (omega arith)
  while-ne-diverges (suc fuel) st s h enough = elim (Bool-cases s.eof) [
    | inl end ↦ rw (while_end body fuel st s end) (λ p. cc)
    | inr more ↦ round_ends fuel st s (body st s) more refl (λ st' s' e.
        let read_on = (advances st).at s st' s' e in
        while-ne-diverges fuel st' (peek s') ((peek-After s').sound (read_on.sound h))
          (Enough-round fuel s s' more enough ((gets_on st).at s st' s' h more e)))
  ]

  -- On any bytes the loop comes to an end.
  pub read_all-ne-diverges : (st : S) (bs : Bytes) → read_all body st bs ≢ diverges
  unfolding read_all
  read_all-ne-diverges st bs =
      while-ne-diverges (length bs + 2) st (opened bs) (λ e. cc) (inr (omega arith))
