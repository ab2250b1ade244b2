-- ===== src/Outcome.antt =====
-- What a Rust call gives back: a value, an error, or a panic. The crate's own errors are those of
-- cdfs/src/error.rs. `out_of_fuel` is no outcome of the program: a loop of the model was given too
-- little fuel to follow the program to its end.
use iso9660_rs.Prelude.{ℕ, ◌≡◌, refl, Bool, true, false, Option, none, some, List}

pub data Result (E : Type 0) (A : Type 0) : Type 0 where
  ok : A → Result E A
  err : E → Result E A
  panic : Result E A
  out_of_fuel : Result E A

infixl 5 ◌>>=◌ ◌>>◌
abbrev pub ◌>>=◌ : {E A B : Type 0} → Result E A → (A → Result E B) → Result E B
ok a >>= f = f a
err e >>= f = err e
panic >>= f = panic
out_of_fuel >>= f = out_of_fuel

abbrev pub ◌>>◌ : {E A B : Type 0} → Result E A → Result E B → Result E B
m >> k = m >>= λ _. k

-- `?` where the error is converted on the way.
abbrev pub map_err : {E F A : Type 0} → (E → F) → Result E A → Result F A
map_err f (ok a) = ok a
map_err f (err e) = err (f e)
map_err f panic = panic
map_err f out_of_fuel = out_of_fuel

-- `Option::unwrap` and `assert!`.
abbrev pub unwrap : {E A : Type 0} → Option A → Result E A
unwrap none = panic
unwrap (some a) = ok a

abbrev pub assert : {E : Type 0} → Bool → Result E (Unit {0})
assert true = ok tt
assert false = panic

-- The payload of a parse error (nom's kinds and positions) is diagnostic text and is left out.
pub data NomError : Type 0 where
  error : NomError

-- An `io::Error`, by its kind: a call that a signal interrupted, a bad seek, or another one of the
-- reader's own.
pub data IoError : Type 0 where
  interrupted : IoError
  invalid_input : IoError
  other : IoError

-- cdfs/src/error.rs
pub data IsoError : Type 0 where
  io : IoError → IsoError
  utf8 : IsoError
  utf16 : IsoError
  invalid_fs : List ℕ → IsoError
  parse_int : IsoError
  try_from_int : IsoError
  read_size : ℕ → IsoError
  nom : NomError → IsoError

-- What a call returned where it and its continuation gave a value.
pub >>=-eq-ok :
    {E A B : Type 0} (m : Result E A) (k : A → Result E B) {last : B}
    → (m >>= k) ≡ ok last
    → (first : A) × (m ≡ ok first) × (k first ≡ ok last)
>>=-eq-ok panic k e = cc
>>=-eq-ok out_of_fuel k e = cc
>>=-eq-ok (err x) k e = cc
>>=-eq-ok (ok first) k e = (first, refl, e)
