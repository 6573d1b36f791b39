-- ===== src/Action.antt =====
-- Methods that change an object and may throw. What was done before an exception stays done.
pub mod ReadOnly
pub mod Halting
use open_x_database.Shared.{◌≡◌, refl, Outcome, ok, throws, undefined, diverges}

abbrev pub Action {ℓ} : Type ℓ → Type ℓ → Type ℓ
Action S A = S → Outcome A × S

module _ {ℓ} {S A : Type ℓ} where
  abbrev pub done : A → Action S A
  done a s = (ok a, s)

  abbrev pub lift : Outcome A → Action S A
  lift o s = (o, s)

  abbrev pub gets : (S → A) → Action S A
  gets f s = (ok (f s), s)

abbrev pub modify {ℓ} : {S : Type ℓ} → (S → S) → Action S (Unit {ℓ})
modify f s = (ok tt, f s)

module _ {ℓ} {S A B : Type ℓ} where
  abbrev pub after : (A → Action S B) → Outcome A × S → Outcome B × S
  after f (ok a, s) = f a s
  after f (throws e, s) = (throws e, s)
  after f (undefined, s) = (undefined, s)
  after f (diverges, s) = (diverges, s)

  infixl 5 ◌>>=◌ ◌>>◌
  abbrev pub ◌>>=◌ : Action S A → (A → Action S B) → Action S B
  ◌>>=◌ m f s = after f (m s)

  abbrev pub ◌>>◌ : Action S A → Action S B → Action S B
  ◌>>◌ m n s = after (λ _. n) (m s)

  -- What has ended well came of a first part that did.
  pub after-ok :
      (f : A → Action S B) (x : Outcome A × S) (b : B) (s' : S)
      → after f x ≡ (ok b, s')
      → (a : A) × (s : S) × (x ≡ (ok a, s)) × (f a s ≡ (ok b, s'))
  after-ok f (ok a, s) b s' e = (a, s, refl, e)
  after-ok f (throws x, s) b s' e = cc
  after-ok f (undefined, s) b s' e = cc
  after-ok f (diverges, s) b s' e = cc
