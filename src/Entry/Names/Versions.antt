-- ===== src/Entry/Names/Versions.antt =====
-- The name and the version in an identifier: `ISOFile::new` of cdfs/src/directory_entry/isofile.rs
-- and `Symlink::new` of cdfs/src/directory_entry/symlink.rs.
use iso9660_rs.Prelude.{
  ℕ, ◌≡◌, ◌≢◌, ◌⊎◌, inl, inr, Bool-cases, ap, refl, true, false, Option, none, some, [], ◌∷◌, ◌++◌,
  arith, ◌==◌,
}
use iso9660_rs.Outcome.{Result, ok, err, IsoError, parse_int, ◌>>=◌}
use iso9660_rs.Crates.{Str}
use iso9660_rs.Text.{rsplit_at, u16_from_str, ends_with, pop}
use iso9660_rs.Entry.Names.{versioned, drop_dot, parse_version}

-- A text without a character.
abbrev pub Without : ℕ → Str → Type 0
Without x [] = Unit {0}
Without x (ch ∷ s) = ((ch == x) ≡ false) × Without x s

rsplit_at-Without : (x : ℕ) (s : Str) → Without x s → rsplit_at x s ≡ none
unfolding rsplit_at
rsplit_at-Without x [] h = refl
rsplit_at-Without x (ch ∷ s) h = rw (rsplit_at-Without x s h.1, h.0)

rsplit_at-append : (x : ℕ) (s t : Str) → Without x t → rsplit_at x (s ++ (x ∷ t)) ≡ some (s, t)
unfolding rsplit_at
rsplit_at-append x [] t h =
    let same : (x == x) ≡ true = ground arith in rw (rsplit_at-Without x t h, same)
rsplit_at-append x (ch ∷ s) t h = rw (rsplit_at-append x s t h)

-- A name is shown without the dot at its end, if it has one.
abbrev pub LosesDot : Str → Str → Type 0
LosesDot name shown =
    (name ≡ shown ++ (b'.' ∷ [])) ⊎ ((name ≡ shown) × ((s : Str) → name ≢ s ++ (b'.' ∷ [])))

-- What an identifier with a name and a version, if that is a number, is read as.
abbrev pub with_version : Str → Option ℕ → Result IsoError (Str × ℕ)
with_version name none = err parse_int
with_version name (some version) = ok (name, version)

ends_with-pop : (s : Str) → ends_with b'.' s ≡ true → s ≡ pop s ++ (b'.' ∷ [])
unfolding ends_with pop
ends_with-pop [] h = absurd (cc h)
ends_with-pop (ch ∷ []) h = ground arith
ends_with-pop (ch ∷ x ∷ s) h = ap (λ t. ch ∷ t) (ends_with-pop (x ∷ s) h)

ends_with-append : (s : Str) → ends_with b'.' (s ++ (b'.' ∷ [])) ≡ true
unfolding ends_with
ends_with-append [] = refl
ends_with-append (ch ∷ []) = refl
ends_with-append (ch ∷ x ∷ s) = ends_with-append (x ∷ s)

drop_dot-LosesDot : (name : Str) → LosesDot name (drop_dot name)
unfolding drop_dot
drop_dot-LosesDot name = elim (Bool-cases (ends_with b'.' name)) [
  | inl m ↦ rw m (inl (ends_with-pop name m))
  | inr m ↦ rw m (inr (refl, λ s e. cc (m, ap (λ x. ends_with b'.' x) e, ends_with-append s)))
]

-- What stands behind the last semicolon is the version, read as a `u16`, or an error where it is
-- none; the name is what stands before it, without the dot at its end if it has one, and without one
-- dot only. With no semicolon the version is 1, and the name is the whole text, in the same way.
pub versioned_lem :
    (name behind : Str)
    → Without b';' behind
    → ((shown : Str) × LosesDot name shown
        × (versioned (name ++ (b';' ∷ behind)) ≡ with_version shown (u16_from_str behind)))
      × ((shown : Str) × LosesDot behind shown × (versioned behind ≡ ok (shown, 1)))
unfolding versioned
versioned_lem name behind h = (
  (
    drop_dot name,
    drop_dot-LosesDot name,
    rw (rsplit_at-append b';' name behind h) (same (u16_from_str behind)),
  ),
  (drop_dot behind, drop_dot-LosesDot behind, rw (rsplit_at-Without b';' behind h)),
)
  where
    same :
        (v : Option ℕ)
        → ((parse_version v >>= λ version. ok (name, version)) >>= λ (n, version).
            ok (drop_dot n, version))
          ≡ with_version (drop_dot name) v
    same none = refl
    same (some version) = refl
