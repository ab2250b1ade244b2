-- ===== src/Parse/Susp/RoundTrip/Frames.antt =====
-- The frame of an entry of version 1, written and read back, and the asserts that it passes.
use iso9660_rs.Prelude.{
  ℕ, ◌+◌, ◌-◌, ◌≡◌, refl, true, false, [], ◌∷◌, ◌++◌, length, length-append, drop, take, arith,
  ◌==◌, ltb,
}
use iso9660_rs.Outcome.{ok, NomError}
use iso9660_rs.Crates.{Crates, Bytes}
use iso9660_rs.Crates.Documented.{documented}
use iso9660_rs.Machine.{sub_word, usize_mod}
use iso9660_rs.Text.{str_eq}
use iso9660_rs.Parse.Susp.Frame.{check, check_sig, sig_tail}

-- A frame for some data.
abbrev pub frame : ℕ → ℕ → Bytes → Bytes
frame a b body = a ∷ b ∷ (length body + 4) ∷ 1 ∷ body

drop-append : (body rest : Bytes) → drop (length body) (body ++ rest) ≡ rest
drop-append [] rest = refl
drop-append (x ∷ body) rest = drop-append body rest

take-append : (body rest : Bytes) → take (length body) (body ++ rest) ≡ body
take-append [] rest = refl
take-append (x ∷ body) rest = rw (take-append body rest)

module _ (c : Crates) where
  pub check-true : {E : Type 0} → check c {E = E} true ≡ ok tt
  unfolding check
  check-true = ground arith

  str_eq-same : (s : Bytes) → str_eq s s ≡ true
  unfolding str_eq
  str_eq-same [] = refl
  str_eq-same (x ∷ s) = let same : (x == x) ≡ true = ground arith in rw (same, str_eq-same s) refl

  pub check_sig-same : {E : Type 0} (sig : Bytes) → check_sig c {E = E} sig sig 1 ≡ ok tt
  unfolding check_sig
  check_sig-same sig = rw (str_eq-same sig) check-true

  pub sig_tail_lem :
      (sig body rest : Bytes)
      → sig_tail (documented c) sig ((length body + 4) ∷ 1 ∷ (body ++ rest))
        ≡ ok (rest, (sig, length body + 4, 1, body))
  unfolding sig_tail sub_word
  sig_tail_lem sig body rest =
      let some_length : (length body + 4 == 0) ≡ false = ground arith in
      let long : ltb (length (body ++ rest)) (length body) ≡ false =
        ground (arith, length-append body rest) in
      rw (some_length, less body, long, drop-append body rest, take-append body rest) refl
    where
      less :
          (body : Bytes)
          → sub_word (documented c) {E = NomError} usize_mod (length body + 4) 4 ≡ ok (length body)
      less body = let four : length body + 4 - 4 ≡ length body = omega arith in ground arith
