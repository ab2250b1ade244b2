-- ===== src/Prelude/Slices.antt =====
-- How `take` and `drop` compose.
use Prim.Native.Nat.{ℕ, zero, suc, ◌+◌, ◌-◌, ◌≤◌, min}
use mathlib.Core.Path.{◌≡◌, refl, sym, ap, ◌∙◌}
use mathlib.Core.List.{List, [], ◌∷◌, ◌++◌}
use native.Mathlib.Omega.{arith}
use iso9660_rs.Prelude.Lists.{length, take, drop}

module _ {ℓ} {A : Type ℓ} where
  pub drop-nil : (n : ℕ) → drop {A = A} n [] ≡ []
  drop-nil zero = refl
  drop-nil (suc n) = refl

  pub take-nil : (n : ℕ) → take {A = A} n [] ≡ []
  take-nil zero = refl
  take-nil (suc n) = refl

  -- An equation in place of a sum, since sums of variables do not compute.
  pub drop-drop : (a b s : ℕ) (xs : List A) → s ≡ a + b → drop a (drop b xs) ≡ drop s xs
  drop-drop a zero s xs e = ap (λ k. drop k xs) (let p : a ≡ s = omega arith in p)
  drop-drop a (suc b) zero xs e = absurd (omega arith)
  drop-drop a (suc b) (suc s) [] e = drop-nil a
  drop-drop a (suc b) (suc s) (x ∷ xs) e = drop-drop a b s xs (omega arith)

  pub take-take : (a b m : ℕ) (xs : List A) → m ≡ min a b → take a (take b xs) ≡ take m xs
  take-take zero b zero xs e = refl
  take-take zero b (suc m) xs e = absurd (omega arith)
  take-take (suc a) zero zero xs e = refl
  take-take (suc a) zero (suc m) xs e = absurd (omega arith)
  take-take (suc a) (suc b) zero xs e = absurd (omega arith)
  take-take (suc a) (suc b) (suc m) [] e = refl
  take-take (suc a) (suc b) (suc m) (x ∷ xs) e =
      ap (λ ys. x ∷ ys) (take-take a b m xs (omega arith))

  pub drop-take : (a b : ℕ) (xs : List A) → drop a (take b xs) ≡ take (b - a) (drop a xs)
  drop-take zero b xs = ap (λ k. take k xs) (let p : b ≡ b - 0 = omega arith in p)
  drop-take (suc a) zero xs =
      ap (λ k. take k (drop (suc a) xs)) (let p : 0 ≡ 0 - suc a = omega arith in p)
  drop-take (suc a) (suc b) [] = rw take-nil
  drop-take (suc a) (suc b) (x ∷ xs) =
      drop-take a b xs
      ∙ ap (λ k. take k (drop a xs)) (let p : b - a ≡ suc b - suc a = omega arith in p)

  pub take-split :
      (a b s : ℕ) (xs : List A) → s ≡ a + b → take s xs ≡ take a xs ++ take b (drop a xs)
  take-split zero b s xs e = ap (λ k. take k xs) (let p : s ≡ b = omega arith in p)
  take-split (suc a) b zero xs e = absurd (omega arith)
  take-split (suc a) b (suc s) [] e = sym (take-nil b)
  take-split (suc a) b (suc s) (x ∷ xs) e = ap (λ ys. x ∷ ys) (take-split a b s xs (omega arith))

  pub length-take_le : (n : ℕ) (xs : List A) → n ≤ length xs → length (take n xs) ≡ n
  length-take_le zero xs h = refl
  length-take_le (suc n) [] h = absurd (omega arith)
  length-take_le (suc n) (x ∷ xs) h = ap suc (length-take_le n xs (omega arith))
