-- ===== src/Action/Halting.antt =====
-- Actions that come to an end.
use open_x_database.Shared.{◌≢◌, refl, Outcome, ok, throws, undefined, diverges}
use open_x_database.Action.{Action, done, gets, modify, after, ◌>>=◌, ◌>>◌}

pub record Halts {ℓ} {S A : Type ℓ} (m : Action S A) : Type ℓ where
  pub at : (s : S) → (m s).0 ≢ diverges

module _ {ℓ} {S A : Type ℓ} where
  pub done-Halts : (a : A) → Halts {S = S} (done a)
  done-Halts a = record { at = λ s e. cc }

  pub gets-Halts : (f : S → A) → Halts (gets f)
  gets-Halts f = record { at = λ s e. cc }

pub modify-Halts {ℓ} : {S : Type ℓ} (f : S → S) → Halts (modify f)
modify-Halts f = record { at = λ s e. cc }

module _ {ℓ} {S A B : Type ℓ} where
  after-Halts :
      (f : A → Action S B) (x : Outcome A × S)
      → ((a : A) → Halts (f a))
      → x.0 ≢ diverges
      → (after f x).0 ≢ diverges
  after-Halts f (ok a, t) h e = (h a).at t
  after-Halts f (throws x, t) h e = λ p. cc
  after-Halts f (undefined, t) h e = λ p. cc
  after-Halts f (diverges, t) h e = absurd (e refl)

  pub bind-Halts :
      (m : Action S A) (f : A → Action S B) → Halts m → ((a : A) → Halts (f a)) → Halts (m >>= f)
  bind-Halts m f hm hf = record { at = λ s. after-Halts f (m s) hf (hm.at s) }

  pub then-Halts : (m : Action S A) (n : Action S B) → Halts m → Halts n → Halts (m >> n)
  then-Halts m n hm hn = record { at = λ s. after-Halts (λ a. n) (m s) (λ a. hn) (hm.at s) }

pub ruleset halts_rules = (done-Halts, gets-Halts, modify-Halts, bind-Halts, then-Halts)
