-- ===== src/Shared/Results.antt =====
-- What a C++ call comes to: a value, an exception, undefined behaviour, or a loop that goes on.
use mathlib.Core.Logic.{◌≢◌}
use mathlib.Core.Path.{refl}

-- The exceptions that the code throws, or lets through from the standard library.
pub data Error : Type 0 where
  length_error : Error
  bad_input_stream : Error
  invalid_output_stream : Error
  invalid_input_stream : Error
  already_indexed : Error
  invalid_directory : Error
  data_corrupted : Error
  invalid_input_size : Error
  compress_failed : Error
  uncompress_failed : Error
  file_not_exist : Error
  invalid_size_and_offset : Error
  promise_already_satisfied : Error
  invalid_argument : Error
  resource_unavailable : Error

pub data Outcome {ℓ} (A : Type ℓ) : Type ℓ where
  ok : A → Outcome A
  throws : Error → Outcome A
  -- Undefined behaviour: a write past a variable, a call through a null pointer.
  undefined : Outcome A
  -- Only a loop that is modelled on fuel answers this, when its fuel is used up.
  diverges : Outcome A

infixl 5 ◌>>=◌ ◌>>◌
abbrev pub ◌>>=◌ {ℓ κ} : {A : Type ℓ} {B : Type κ} → Outcome A → (A → Outcome B) → Outcome B
ok a >>= f = f a
throws e >>= f = throws e
undefined >>= f = undefined
diverges >>= f = diverges

abbrev pub ◌>>◌ {ℓ κ} : {A : Type ℓ} {B : Type κ} → Outcome A → Outcome B → Outcome B
m >> k = m >>= λ _. k

module _ {ℓ κ} {A : Type ℓ} {B : Type κ} where
  pub bind-ne-diverges :
      (o : Outcome A) (f : A → Outcome B)
      → o ≢ diverges
      → ((a : A) → f a ≢ diverges)
      → (o >>= f) ≢ diverges
  bind-ne-diverges (ok a) f h hf = hf a
  bind-ne-diverges (throws e) f h hf = λ p. cc
  bind-ne-diverges undefined f h hf = λ p. cc
  bind-ne-diverges diverges f h hf = absurd (h refl)
