-- ===== src/Bytes/Throwing.antt =====
-- What a reader throws: nothing but the `length_error` of a string that is not granted.
use open_x_database.Shared.{
  ℕ, ◌≡◌, arith, Outcome, Error, ok, throws, undefined, diverges, length_error, refl,
}
use open_x_database.Bytes.{Bytes, to_bytes}
use open_x_database.Bytes.Stream.{
  InStream, Reader, pure, ◌>>=◌, continue, result, read_object, read_uint, read_string, resize,
}

pub record OnlyLength {ℓ} {A : Type ℓ} (m : Reader A) : Type ℓ where
  pub at : (s : InStream) (x : Error) → m s ≡ throws x → x ≡ length_error

pub OnlyLength-pure {ℓ} : {A : Type ℓ} (a : A) → OnlyLength (pure a)
OnlyLength-pure a = record { at = λ s x e. cc }

pub read_object-OnlyLength : (n : ℕ) (old : Bytes) → OnlyLength (read_object n old)
unfolding read_object
read_object-OnlyLength n old = record { at = λ s x e. ground arith }

module _ {ℓ κ} {A : Type ℓ} {B : Type κ} where
  OnlyLength-at :
      (m : Reader A) (f : A → Reader B) (s : InStream) (o : Outcome (A × InStream)) (x : Error)
      → m s ≡ o
      → OnlyLength m
      → ((a : A) → OnlyLength (f a))
      → continue f o ≡ throws x
      → x ≡ length_error
  OnlyLength-at m f s (ok (a, t)) x e hm hf p = (hf a).at t x p
  OnlyLength-at m f s (throws y) x e hm hf p = hm.at s x (cc)
  OnlyLength-at m f s undefined x e hm hf p = cc
  OnlyLength-at m f s diverges x e hm hf p = cc

  pub OnlyLength-bind :
      (m : Reader A) (f : A → Reader B)
      → OnlyLength m
      → ((a : A) → OnlyLength (f a))
      → OnlyLength (m >>= f)
  OnlyLength-bind m f hm hf = record { at = λ s x p. OnlyLength-at m f s (m s) x refl hm hf p }

pub read_uint-OnlyLength : (w n old : ℕ) → OnlyLength (read_uint w n old)
unfolding read_uint
read_uint-OnlyLength w n old =
    OnlyLength-bind _ _ (read_object-OnlyLength n (to_bytes w old)) (λ bs. OnlyLength-pure _)

pub read_string-OnlyLength :
    (max_size n : ℕ) (old : Bytes) → OnlyLength (read_string max_size n old)
unfolding read_string
read_string-OnlyLength max_size n old = record {
  at = λ s x e. ground (arith, (read_object-OnlyLength n (resize n old)).at s x);
}

pub ruleset throwing_rules = (
  OnlyLength-pure, OnlyLength-bind, read_object-OnlyLength, read_uint-OnlyLength,
  read_string-OnlyLength,
)

pub result-OnlyLength {ℓ} :
    {A : Type ℓ} (o : Outcome (A × InStream)) (x : Error)
    → (o ≡ throws x → x ≡ length_error)
    → result o ≡ throws x
    → x ≡ length_error
result-OnlyLength (ok (a, s)) x h e = cc
result-OnlyLength (throws y) x h e = h (cc)
result-OnlyLength undefined x h e = cc
result-OnlyLength diverges x h e = cc
