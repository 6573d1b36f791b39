-- ===== src/Bytes/Stream.antt =====
-- `std::istream` over a buffer that holds all its bytes (`istringstream`, a file opened for reading),
-- as the code uses it: `read`, `peek`, `eof`. `badbit` is never set for such a stream.
use open_x_database.Shared.{ℕ, ◌≤◌, ◌<◌, ◌^◌, ◌≡◌, Bool, true, false, not, ◌&&◌, [], ◌∷◌, ◌++◌}
use open_x_database.Shared.{
  arith, length, take, drop, leb, if◌then◌else◌, take-append, drop-append, drop_all, length-append,
  length-replicate, length-take, ◌-◌, sym, ◌∙◌,
}
use open_x_database.Shared.{
  Outcome, ok, undefined, diverges, throws, length_error, ltb, replicate, ◌-◌,
}
use open_x_database.Bytes.{Bytes, to_bytes, from_bytes, length-to_bytes, from_bytes-to_bytes}
use mathlib.Core.List.{append-nil}

pub record InStream : Type 0 where
  pub rest : Bytes
  pub eof : Bool
  pub fail : Bool

-- A stream that has just been opened, or has not yet met its end.
abbrev pub opened : Bytes → InStream
opened bs = record { rest = bs; eof = false; fail = false }

abbrev pub is_good : InStream → Bool
is_good s = not s.eof && not s.fail

-- `read(dst, n)`: the bytes that reach `dst`, and the stream. A short read sets both flags, and a
-- stream that is not good gives nothing.
unfoldable pub read : ℕ → InStream → Bytes × InStream
read n s =
    if is_good s
    then (if leb n (length s.rest)
        then (take n s.rest, record s { rest = drop n s.rest })
        else (s.rest, record { rest = []; eof = true; fail = true }))
    else ([], record s { fail = true })

-- `peek()` at the end sets `eofbit`.
unfoldable pub peek : InStream → InStream
peek s =
    if is_good s
    then (elim s.rest [ [] ↦ record s { eof = true } | _ ∷ _ ↦ s ])
    else record s { fail = true }

abbrev pub Reader {ℓ} : Type ℓ → Type ℓ
Reader A = InStream → Outcome (A × InStream)

module _ {ℓ κ} {A : Type ℓ} {B : Type κ} where
  abbrev pub continue : (A → Reader B) → Outcome (A × InStream) → Outcome (B × InStream)
  continue f (ok (a, s)) = f a s
  continue f (throws e) = throws e
  continue f undefined = undefined
  continue f diverges = diverges

  infixl 5 ◌>>=◌
  abbrev pub ◌>>=◌ : Reader A → (A → Reader B) → Reader B
  ◌>>=◌ m f s = continue f (m s)

abbrev pub pure {ℓ} : {A : Type ℓ} → A → Reader A
pure a s = ok (a, s)

-- What was read, where the stream is dropped.
abbrev pub result {ℓ} : {A : Type ℓ} → Outcome (A × InStream) → Outcome A
result (ok (a, s)) = ok a
result (throws e) = throws e
result undefined = undefined
result diverges = diverges

-- `stream.read(reinterpret_cast<char*>(&object), n)`: what was read lies over the front of the
-- object, and a longer read goes out of its bounds.
unfoldable pub read_object : ℕ → Bytes → Reader Bytes
unfolding read
read_object n old s =
    let (got, s') = read n s in
    if leb (length got) (length old) then ok (got ++ drop (length got) old, s') else undefined

-- The object is an unsigned integer of `w` bytes that holds `old`.
unfoldable pub read_uint : ℕ → ℕ → ℕ → Reader ℕ
unfolding read_object
read_uint w n old = do bs ← read_object n (to_bytes w old); pure (from_bytes bs)

-- `std::string::resize`, where the allocator grants it.
unfoldable pub resize : ℕ → Bytes → Bytes
resize n bs = take n bs ++ replicate (n - length bs) 0

-- `value.resize(n)`, which throws past `max_size`, then `stream.read(value.data(), n)`.
unfoldable pub read_string : ℕ → ℕ → Bytes → Reader Bytes
unfolding read_object resize
read_string max_size n old s =
    if ltb max_size n then throws length_error else read_object n (resize n old) s

-- A read that the stream can serve gives its front and leaves the rest.
pub read_front : (xs ys : Bytes) → read (length xs) (opened (xs ++ ys)) ≡ (xs, opened ys)
unfolding read
read_front xs ys = ground (arith, length-append xs ys, take-append xs ys, drop-append xs ys)

pub read_object_front :
    (xs ys old : Bytes)
    → length old ≡ length xs
    → read_object (length xs) old (opened (xs ++ ys)) ≡ ok (xs, opened ys)
unfolding read_object
read_object_front xs ys old h = ground (
  arith,
  length-append xs ys,
  take-append xs ys,
  drop-append xs ys,
  drop_all (length xs) old,
  append-nil xs,
)

pub read_object_front_of_length :
    (n : ℕ) (xs ys old : Bytes)
    → length xs ≡ n
    → length old ≡ n
    → read_object n old (opened (xs ++ ys)) ≡ ok (xs, opened ys)
read_object_front_of_length n xs ys old e k = rw (← e) (read_object_front xs ys old (k ∙ sym e))

pub read_uint_front :
    (w v old : ℕ) (ys : Bytes)
    → v < 256 ^ w
    → read_uint w w old (opened (to_bytes w v ++ ys)) ≡ ok (v, opened ys)
read_uint_front w v old ys h =
    let front =
      read_object_front (to_bytes w v) ys (to_bytes w old)
        (length-to_bytes w old ∙ sym (length-to_bytes w v)) in
    let at_w = rw (length-to_bytes w v) at front in
    unfold read_uint in rw (at_w, from_bytes-to_bytes w v h)

pub length-resize : (n : ℕ) (bs : Bytes) → length (resize n bs) ≡ n
unfolding resize
length-resize n bs = omega (
  arith,
  length-append (take n bs) (replicate (n - length bs) 0),
  length-take n bs,
  length-replicate {A = ℕ} (n - length bs) 0,
)

pub read_string_front :
    (max_size : ℕ) (xs ys old : Bytes)
    → length xs ≤ max_size
    → read_string max_size (length xs) old (opened (xs ++ ys)) ≡ ok (xs, opened ys)
read_string_front max_size xs ys old h =
    let front = read_object_front xs ys (resize (length xs) old) (length-resize (length xs) old) in
    unfold read_string in ground (arith, front)
