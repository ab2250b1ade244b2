-- ===== src/State.antt =====
-- Code that changes a state of type S and may fail or panic. What was changed before a failure
-- stays changed.
pub mod Ensures
use iso9660_rs.Outcome.{Result, ok, err, panic, out_of_fuel}

abbrev pub M : Type 0 → Type 0 → Type 0 → Type 0
M S E A = S → Result E A × S

abbrev pub continue : {S E A B : Type 0} → (A → M S E B) → Result E A × S → Result E B × S
continue f (ok a, s) = f a s
continue f (err e, s) = (err e, s)
continue f (panic, s) = (panic, s)
continue f (out_of_fuel, s) = (out_of_fuel, s)

infixl 5 ◌>>=◌ ◌>>◌
abbrev pub ◌>>=◌ : {S E A B : Type 0} → M S E A → (A → M S E B) → M S E B
◌>>=◌ m f s = continue f (m s)

abbrev pub ◌>>◌ : {S E A B : Type 0} → M S E A → M S E B → M S E B
◌>>◌ m k s = continue (λ _. k) (m s)

-- A step that leaves the state alone.
abbrev pub lift : {S E A : Type 0} → Result E A → M S E A
lift r s = (r, s)

abbrev pub pure : {S E A : Type 0} → A → M S E A
pure a s = (ok a, s)
