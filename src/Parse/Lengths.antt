-- ===== src/Parse/Lengths.antt =====
-- How much of their input the parsers of cdfs/src/parse take.
use iso9660_rs.Prelude.{ℕ, ◌+◌, ◌≤◌, ◌≡◌, refl, subst, [], ◌∷◌, arith, length, length-drop}
use iso9660_rs.Outcome.{Result, ok, err, panic, out_of_fuel, ◌>>=◌, NomError}
use iso9660_rs.Crates.{Crates, Bytes, NomRes, Parser}
use iso9660_rs.Crates.Documented.{documented, doc_u8, doc_take, doc_map_parser}
use iso9660_rs.Parse.BothEndian.{both_endian16, both_endian32}
use iso9660_rs.Parse.DateTime.{date_time}

ok-inj : {E A : Type 0} (x y : A) → ◌≡◌ {A = Result E A} (ok x) (ok y) → x ≡ y
ok-inj x y e = cc e

-- What holds of what a parser leaves and of its value, where it succeeds.
pub data Gives {A : Type 0} (P : Bytes → A → Type 0) (r : NomRes A) : Type 0 where
  gives : ((rest : Bytes) (a : A) → r ≡ ok (rest, a) → P rest a) → Gives P r

pub Gives-elim :
    {A : Type 0} (P : Bytes → A → Type 0) (r : NomRes A) (rest : Bytes) (a : A)
    → Gives P r
    → r ≡ ok (rest, a)
    → P rest a
Gives-elim P r rest a (gives h) e = h rest a e

pub Gives-ok :
    {A : Type 0} (P : Bytes → A → Type 0) (rest : Bytes) (a : A) → P rest a → Gives P (ok (rest, a))
Gives-ok P rest a h = gives λ rest' a' e. subst (λ x. P x.0 x.1) (ok-inj (rest, a) (rest', a') e) h

module _ {A B : Type 0} (P : Bytes → B → Type 0) where
  pub Gives-bind :
      (m : NomRes A) (f : Bytes × A → NomRes B)
      → ((rest : Bytes) (a : A) → m ≡ ok (rest, a) → Gives P (f (rest, a)))
      → Gives P (m >>= f)
  Gives-bind (ok (rest, a)) f h = h rest a refl
  Gives-bind (err e) f h = gives (λ rest a e. absurd (cc e))
  Gives-bind panic f h = gives (λ rest a e. absurd (cc e))
  Gives-bind out_of_fuel f h = gives (λ rest a e. absurd (cc e))

  pub Gives-step :
      (m : Result NomError A) (f : A → NomRes B)
      → ((a : A) → m ≡ ok a → Gives P (f a))
      → Gives P (m >>= f)
  Gives-step (ok a) f h = h a refl
  Gives-step (err e) f h = gives (λ rest a e. absurd (cc e))
  Gives-step panic f h = gives (λ rest a e. absurd (cc e))
  Gives-step out_of_fuel f h = gives (λ rest a e. absurd (cc e))

pub u8-reads : (i rest : Bytes) (n : ℕ) → doc_u8 i ≡ ok (rest, n) → length rest + 1 ≡ length i
u8-reads [] rest n e = absurd (cc e)
u8-reads (a ∷ i) rest n e = ground arith

module _ (c : Crates) where
  pub both_endian32-reads :
      (i rest : Bytes) (n : ℕ)
      → both_endian32 (documented c) i ≡ ok (rest, n)
      → length rest + 8 ≡ length i
  unfolding both_endian32
  both_endian32-reads (a ∷ b ∷ d ∷ e ∷ f ∷ g ∷ h ∷ j ∷ i) rest n p = ground arith
  both_endian32-reads _ rest n p = absurd (cc p)

  pub both_endian16-reads :
      (i rest : Bytes) (n : ℕ)
      → both_endian16 (documented c) i ≡ ok (rest, n)
      → length rest + 4 ≡ length i
  unfolding both_endian16
  both_endian16-reads (a ∷ b ∷ d ∷ e ∷ i) rest n p = ground arith
  both_endian16-reads _ rest n p = absurd (cc p)

  pub date_time-reads :
      (i rest : Bytes) (t : c.time.OffsetDateTime)
      → date_time (documented c) i ≡ ok (rest, t)
      → length rest + 7 ≡ length i
  unfolding date_time
  date_time-reads (a ∷ b ∷ d ∷ e ∷ f ∷ g ∷ h ∷ i) rest n p = ground arith
  date_time-reads _ rest n p = absurd (cc p)

  pub identifier-reads :
      {A : Type 0} (q : Parser A) (i rest : Bytes) (a : A)
      → (documented c).nom.map_parser ((documented c).nom.length_data (documented c).nom.le_u8) q i
        ≡ ok (rest, a)
      → length rest + 1 ≤ length i
  identifier-reads q [] rest a p = absurd (cc p)
  identifier-reads q (n ∷ i) rest a p = ground (arith, length-drop n i)

pub take-reads :
    {A : Type 0} (q : Parser A) (n : ℕ) (i rest : Bytes) (a : A)
    → doc_map_parser (doc_take n) q i ≡ ok (rest, a)
    → (n ≤ length i) × (length rest + n ≡ length i)
take-reads q n i rest a p = ground (arith, length-drop n i)
