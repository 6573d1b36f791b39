-- ===== src/Bytes/Advance.antt =====
-- Readers never go back: what a stream may be when it is met again.
use open_x_database.Shared.{
  ℕ, suc, ◌+◌, ◌≡◌, ◌≤◌, ◌<◌, ◌⊎◌, inl, inr, refl, true, false, arith, length,
}
use open_x_database.Shared.{length-drop, Outcome, ok, throws, undefined, diverges}
use open_x_database.Bytes.{Bytes, to_bytes}
use open_x_database.Bytes.Stream.{InStream, Reader, pure, ◌>>=◌, continue, read, peek}
use open_x_database.Bytes.Stream.{read_object, read_uint, read_string, resize}

-- A failed read is the end of these streams.
abbrev pub IsSound : InStream → Type 0
IsSound s = s.fail ≡ true → s.eof ≡ true

-- What `s'` may be when it is met after `s`.
pub record After (s s' : InStream) : Type 0 where
  pub shrinks : length s'.rest ≤ length s.rest
  pub ends : s.eof ≡ true → s'.eof ≡ true
  pub sound : IsSound s → IsSound s'

After-refl : (s : InStream) → After s s
After-refl s = record { shrinks = omega arith; ends = λ h. h; sound = λ h. h }

pub After-trans : {s t u : InStream} → After s t → After t u → After s u
After-trans a b = record {
  shrinks = omega arith;
  ends = λ h. b.ends (a.ends h);
  sound = λ h. b.sound (a.sound h);
}

read-After : (n : ℕ) (s : InStream) → After s (read n s).1
unfolding read
read-After n s = ground (arith, length-drop n s.rest)

pub peek-After : (s : InStream) → After s (peek s)
unfolding peek
peek-After s = ground arith

-- A reader that only moves forward.
pub record Advances {ℓ} {A : Type ℓ} (m : Reader A) : Type ℓ where
  pub at : (s : InStream) (a : A) (s' : InStream) → m s ≡ ok (a, s') → After s s'

pub Advances-pure {ℓ} : {A : Type ℓ} (a : A) → Advances (pure a)
Advances-pure a = record { at = λ s b s' e. ground (arith, After-refl s) }

module _ {ℓ κ} {A : Type ℓ} {B : Type κ} where
  bind_at :
      (m : Reader A) (f : A → Reader B) (s : InStream) (o : Outcome (A × InStream))
      → m s ≡ o
      → Advances m
      → ((a : A) → Advances (f a))
      → (b : B) (s' : InStream) → continue f o ≡ ok (b, s')
      → After s s'
  bind_at m f s (ok (a, t)) e hm hf b s' h = After-trans (hm.at s a t e) ((hf a).at t b s' h)
  bind_at m f s (throws x) e hm hf b s' h = cc
  bind_at m f s undefined e hm hf b s' h = cc
  bind_at m f s diverges e hm hf b s' h = cc

  pub Advances-bind :
      (m : Reader A) (f : A → Reader B)
      → Advances m
      → ((a : A) → Advances (f a))
      → Advances (m >>= f)
  Advances-bind m f hm hf = record { at = λ s b s' h. bind_at m f s (m s) refl hm hf b s' h }

pub read_object-Advances : (n : ℕ) (old : Bytes) → Advances (read_object n old)
unfolding read_object
read_object-Advances n old = record { at = λ s a s' e. ground (arith, read-After n s) }

pub read_uint-Advances : (w n old : ℕ) → Advances (read_uint w n old)
unfolding read_uint
read_uint-Advances w n old =
    Advances-bind _ _ (read_object-Advances n (to_bytes w old)) (λ bs. Advances-pure _)

pub read_string-Advances : (max_size n : ℕ) (old : Bytes) → Advances (read_string max_size n old)
unfolding read_string
read_string-Advances max_size n old = record {
  at = λ s a s' e. ground (arith, (read_object-Advances n (resize n old)).at s a s');
}

-- A reader that takes a byte, or meets the end.
abbrev pub GotOn : InStream → InStream → Type 0
GotOn s s' = (s'.eof ≡ true) ⊎ (length s'.rest < length s.rest)

pub record GetsOn {ℓ} {A : Type ℓ} (m : Reader A) : Type ℓ where
  pub at :
      (s : InStream) (a : A) (s' : InStream)
      → IsSound s
      → s.eof ≡ false
      → m s ≡ ok (a, s')
      → GotOn s s'

read-GotOn : (n : ℕ) (s : InStream) → IsSound s → s.eof ≡ false → GotOn s (read (suc n) s).1
unfolding read
read-GotOn n s h e = ground (arith, length-drop (suc n) s.rest)

GotOn-After : (s t u : InStream) → GotOn s t → After t u → GotOn s u
GotOn-After s t u (inl e) b = inl (b.ends e)
GotOn-After s t u (inr h) b = inr (omega (arith, b.shrinks))

pub read_object-GetsOn : (n : ℕ) (old : Bytes) → GetsOn (read_object (suc n) old)
unfolding read_object
read_object-GetsOn n old = record { at = λ s a s' h e p. ground (arith, read-GotOn n s h e) }

module _ {ℓ κ} {A : Type ℓ} {B : Type κ} where
  GetsOn-at :
      (m : Reader A) (f : A → Reader B) (s : InStream) (o : Outcome (A × InStream))
      → m s ≡ o
      → GetsOn m
      → ((a : A) → Advances (f a))
      → (b : B) (s' : InStream) → IsSound s
      → s.eof ≡ false
      → continue f o ≡ ok (b, s')
      → GotOn s s'
  GetsOn-at m f s (ok (a, t)) e hm hf b s' h g p =
      GotOn-After s t s' (hm.at s a t h g e) ((hf a).at t b s' p)
  GetsOn-at m f s (throws x) e hm hf b s' h g p = cc
  GetsOn-at m f s undefined e hm hf b s' h g p = cc
  GetsOn-at m f s diverges e hm hf b s' h g p = cc

  pub GetsOn-bind :
      (m : Reader A) (f : A → Reader B) → GetsOn m → ((a : A) → Advances (f a)) → GetsOn (m >>= f)
  GetsOn-bind m f hm hf = record {
    at = λ s b s' h g p. GetsOn-at m f s (m s) refl hm hf b s' h g p;
  }

pub ruleset advance_rules =
    (Advances-pure, Advances-bind, read_object-Advances, read_uint-Advances, read_string-Advances)

pub ruleset gets_on_rules = (advance_rules, GetsOn-bind, read_object-GetsOn)

-- A reader that comes to an end.
pub record Ends {ℓ} {A : Type ℓ} (m : Reader A) : Type ℓ where
  pub at : (s : InStream) → m s ≡ diverges → ⊥

pub Ends-pure {ℓ} : {A : Type ℓ} (a : A) → Ends (pure a)
Ends-pure a = record { at = λ s e. cc }

pub read_object-Ends : (n : ℕ) (old : Bytes) → Ends (read_object n old)
unfolding read_object
read_object-Ends n old = record { at = λ s e. ground arith }

module _ {ℓ κ} {A : Type ℓ} {B : Type κ} where
  Ends-at :
      (m : Reader A) (f : A → Reader B) (s : InStream) (o : Outcome (A × InStream))
      → m s ≡ o
      → Ends m
      → ((a : A) → Ends (f a))
      → continue f o ≡ diverges
      → ⊥
  Ends-at m f s (ok (a, t)) e hm hf p = (hf a).at t p
  Ends-at m f s (throws x) e hm hf p = cc
  Ends-at m f s undefined e hm hf p = cc
  Ends-at m f s diverges e hm hf p = hm.at s e

  pub Ends-bind :
      (m : Reader A) (f : A → Reader B) → Ends m → ((a : A) → Ends (f a)) → Ends (m >>= f)
  Ends-bind m f hm hf = record { at = λ s p. Ends-at m f s (m s) refl hm hf p }

pub read_uint-Ends : (w n old : ℕ) → Ends (read_uint w n old)
unfolding read_uint
read_uint-Ends w n old = Ends-bind _ _ (read_object-Ends n (to_bytes w old)) (λ bs. Ends-pure _)

pub read_string-Ends : (max_size n : ℕ) (old : Bytes) → Ends (read_string max_size n old)
unfolding read_string
read_string-Ends max_size n old = record {
  at = λ s e. ground (arith, (read_object-Ends n (resize n old)).at s);
}

pub ruleset ends_rules = (Ends-pure, Ends-bind, read_object-Ends, read_uint-Ends, read_string-Ends)

-- The rounds that a loop over such a stream may still need: one for each byte, one that meets the
-- end, and one that sees it.
abbrev pub Enough : ℕ → InStream → Type 0
Enough fuel s = ((s.eof ≡ true) × (0 < fuel)) ⊎ (length s.rest + 1 < fuel)

-- After a round that gets on, what is left is enough for the rounds that are left.
pub Enough-round :
    (fuel : ℕ) (s t : InStream)
    → s.eof ≡ false
    → Enough (suc fuel) s
    → GotOn s t
    → Enough fuel (peek t)
Enough-round fuel s t e (inl (e', l)) g = cc
Enough-round fuel s t e (inr l) (inl end) = inl ((peek-After t).ends end, omega arith)
Enough-round fuel s t e (inr l) (inr shorter) = inr (omega (arith, (peek-After t).shrinks))
