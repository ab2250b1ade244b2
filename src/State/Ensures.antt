-- ===== src/State/Ensures.antt =====
-- What a computation that changes a state and may fail leaves behind where it succeeds.
use iso9660_rs.Prelude.{◌≡◌, refl, ap, subst}
use iso9660_rs.Outcome.{Result, ok, err, panic, out_of_fuel}
use iso9660_rs.State.{M, continue}

-- What holds of a call's value and of the state that it leaves, where it succeeds.
pub data Ensures {S E A : Type 0} (Q : A → S → Type 0) (r : Result E A × S) : Type 0 where
  ensures : ((a : A) (s : S) → r ≡ (ok a, s) → Q a s) → Ensures Q r

pub Ensures-elim :
    {S E A : Type 0} (Q : A → S → Type 0) (r : Result E A × S) (a : A) (s : S)
    → Ensures Q r
    → r ≡ (ok a, s)
    → Q a s
Ensures-elim Q r a s (ensures h) e = h a s e

pub Ensures-bind :
    {S E A B : Type 0} (Q : B → S → Type 0) (r : Result E A × S) (f : A → M S E B)
    → ((a : A) (s : S) → r ≡ (ok a, s) → Ensures Q (f a s))
    → Ensures Q (continue f r)
Ensures-bind Q (ok a, s) f h = h a s refl
Ensures-bind Q (err e, s) f h = ensures λ a s' p. absurd (cc (ap (λ x. x.0) p))
Ensures-bind Q (panic, s) f h = ensures λ a s' p. absurd (cc (ap (λ x. x.0) p))
Ensures-bind Q (out_of_fuel, s) f h = ensures λ a s' p. absurd (cc (ap (λ x. x.0) p))

pub Ensures-lift :
    {S E A B : Type 0} (Q : B → S → Type 0) (r : Result E A) (s : S) (f : A → M S E B)
    → ((a : A) → r ≡ ok a → Ensures Q (f a s))
    → Ensures Q (continue f (r, s))
Ensures-lift Q (ok a) s f h = h a refl
Ensures-lift Q (err e) s f h = ensures λ a s' p. absurd (cc (ap (λ x. x.0) p))
Ensures-lift Q panic s f h = ensures λ a s' p. absurd (cc (ap (λ x. x.0) p))
Ensures-lift Q out_of_fuel s f h = ensures λ a s' p. absurd (cc (ap (λ x. x.0) p))

pub Ensures-pure :
    {S E A : Type 0} (Q : A → S → Type 0) (a : A) (s : S) → Q a s → Ensures {E = E} Q (ok a, s)
Ensures-pure {E} {A} Q a s h = ensures λ a' s' p.
    let same : a ≡ a' = cc (ap (λ x. x.0) p) in
    subst (λ x. Q x s') same (subst (λ x. Q a x) (ap (λ x. x.1) p) h)
