-- ===== src/Action/ReadOnly.antt =====
-- Actions that leave the state as it is.
use open_x_database.Shared.{
  ◌≡◌, refl, ◌∙◌, Bool, true, false, if◌then◌else◌, Outcome, ok, throws, undefined, diverges,
}
use open_x_database.Action.{Action, done, lift, gets, after, ◌>>=◌}

pub record IsReadOnly {ℓ} {S A : Type ℓ} (m : Action S A) : Type ℓ where
  pub keeps : (s : S) → (m s).1 ≡ s

module _ {ℓ} {S A : Type ℓ} where
  pub done-IsReadOnly : (a : A) → IsReadOnly {S = S} (done a)
  done-IsReadOnly a = record { keeps = λ s. refl }

  pub lift-IsReadOnly : (o : Outcome A) → IsReadOnly {S = S} (lift o)
  lift-IsReadOnly o = record { keeps = λ s. refl }

  pub gets-IsReadOnly : (f : S → A) → IsReadOnly (gets f)
  gets-IsReadOnly f = record { keeps = λ s. refl }

  pub if-IsReadOnly :
      (b : Bool) (m n : Action S A) → IsReadOnly m → IsReadOnly n → IsReadOnly (if b then m else n)
  if-IsReadOnly true m n hm hn = hm
  if-IsReadOnly false m n hm hn = hn

module _ {ℓ} {S A B : Type ℓ} where
  after_keeps :
      (f : A → Action S B) (x : Outcome A × S) (s : S)
      → ((a : A) → IsReadOnly (f a))
      → x.1 ≡ s
      → (after f x).1 ≡ s
  after_keeps f (ok a, t) s h e = (h a).keeps t ∙ e
  after_keeps f (throws x, t) s h e = e
  after_keeps f (undefined, t) s h e = e
  after_keeps f (diverges, t) s h e = e

  pub bind-IsReadOnly :
      (m : Action S A) (f : A → Action S B)
      → IsReadOnly m
      → ((a : A) → IsReadOnly (f a))
      → IsReadOnly (m >>= f)
  bind-IsReadOnly m f hm hf = record { keeps = λ s. after_keeps f (m s) s hf (hm.keeps s) }

pub ruleset read_only_rules =
    (done-IsReadOnly, lift-IsReadOnly, gets-IsReadOnly, if-IsReadOnly, bind-IsReadOnly)
