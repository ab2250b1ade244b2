-- ===== src/Entry/Find/Listing.antt =====
-- `find` of cdfs/src/directory_entry/isodirectory.rs against the list of the entries that the
-- iterator gives.
use iso9660_rs.Prelude.{
  ◌≢◌, ◌⊎◌, ◌&&◌, ltb, map, true, false, ◌==◌, bit_and, sym, subst, ℕ, zero, suc, ◌+◌, ◌^◌, ◌<◌,
  ◌≡◌, refl, ap, Bool-cases, if◌then◌else◌, inl, inr, Option, none, some, List, [], ◌∷◌, arith,
  length, length-replicate, replicate,
}
use iso9660_rs.Outcome.{Result, ok, err, panic, out_of_fuel, IsoError}
use iso9660_rs.State.Ensures.{Ensures-elim}
use iso9660_rs.Crates.{Crates, Str}
use iso9660_rs.Crates.Documented.{IsCrates, IsBitflags}
use iso9660_rs.FileRef.{Iso9660Reader, block_size}
use iso9660_rs.Text.{eq_ignore_ascii_case}
use iso9660_rs.Entry.Attributes.{entry_header}
use iso9660_rs.Entry.Names.{identifier}
use iso9660_rs.Entry.Types.{IsoDirectory, DirectoryEntry}
use iso9660_rs.Entry.Directory.{DirState, read_entry_at}
use iso9660_rs.Entry.Directory.Progress.{
  IsFilling, IsEnough, IsBehind-IsEnough, MovesOn, read_entry_at-MovesOn,
}
use iso9660_rs.Entry.Find.{
  IsoDirectoryIterator, advance, is_match, next, contents, find_loop, find, rounds,
}
use iso9660_rs.Entry.Find.Ends.{after}

-- A text with its ASCII letters made small.
abbrev pub small_letter : ℕ → ℕ
small_letter ch = if ltb 64 ch && ltb ch 91 then ch + 32 else ch

abbrev pub SameLetters : Str → Str → Type 0
SameLetters s t = map small_letter s ≡ map small_letter t

abbrev pub name_in_directory : {D : Type 0} → DirectoryEntry D → Str
name_in_directory (DirectoryEntry.directory dir) = dir.identifier
name_in_directory (DirectoryEntry.file f) = f.identifier
name_in_directory (DirectoryEntry.symlink link) = link.identifier

-- An entry answers to a name where it is no associated file, which bit 2 of its flags says, and its
-- own name differs from this one at most in the case of ASCII letters.
abbrev pub AnswersTo : {D : Type 0} → Str → DirectoryEntry D → Type 0
AnswersTo name e =
    (bit_and (entry_header e).file_flags 4 ≢ 4) × SameLetters (name_in_directory e) name

-- The first entry of a list that answers to a name, or none where no entry does.
abbrev pub IsFirst :
    {D : Type 0} → Str → List (DirectoryEntry D) → Option (DirectoryEntry D) → Type 0
IsFirst name [] r = r ≡ none
IsFirst name (e ∷ es) r =
    (AnswersTo name e × (r ≡ some e)) ⊎ (¬ AnswersTo name e × IsFirst name es r)

eq_ignore_ascii_case-true : (s t : Str) → eq_ignore_ascii_case s t ≡ true → SameLetters s t
unfolding eq_ignore_ascii_case
eq_ignore_ascii_case-true [] [] h = refl
eq_ignore_ascii_case-true [] (y ∷ t) h = absurd (cc h)
eq_ignore_ascii_case-true (x ∷ s) [] h = absurd (cc h)
eq_ignore_ascii_case-true (x ∷ s) (y ∷ t) h = ground (arith, eq_ignore_ascii_case-true s t)

SameLetters-eq : (s t : Str) → SameLetters s t → eq_ignore_ascii_case s t ≡ true
unfolding eq_ignore_ascii_case
SameLetters-eq [] [] h = refl
SameLetters-eq [] (y ∷ t) h = absurd (cc h)
SameLetters-eq (x ∷ s) [] h = absurd (cc h)
SameLetters-eq (x ∷ s) (y ∷ t) h = ground (arith, SameLetters-eq s t)

module _ (c : Crates) {T : Type 0} (reader : Iso9660Reader T) (fuel : ℕ) where
  abbrev D : Type 0
  D = c.time.OffsetDateTime

  -- The iterator gives these entries and then its end.
  abbrev pub Lists : IsoDirectory D → List (DirectoryEntry D) → IsoDirectoryIterator T → Type 0
  Lists dir [] it = (next c reader fuel dir it).0 ≡ none
  Lists dir (e ∷ es) it =
      (it' : IsoDirectoryIterator T) × (next c reader fuel dir it ≡ (some (ok e), it'))
      × Lists dir es it'

  abbrev first_match : Str → List (DirectoryEntry D) → Option (DirectoryEntry D)
  first_match name [] = none
  first_match name (e ∷ es) = if is_match c reader fuel e name then some e else first_match name es

  identifier-name : (e : DirectoryEntry D) → identifier e ≡ name_in_directory e
  unfolding identifier
  identifier-name (DirectoryEntry.directory dir) = refl
  identifier-name (DirectoryEntry.file f) = refl
  identifier-name (DirectoryEntry.symlink link) = refl

  is_match-AnswersTo :
      IsBitflags c.bitflags
      → (e : DirectoryEntry D) (name : Str) → is_match c reader fuel e name ≡ true
      → AnswersTo name e
  unfolding is_match
  is_match-AnswersTo b e name h =
      let flags = (entry_header e).file_flags in
      elim (Bool-cases (bit_and flags 4 == 4)) [
        | inl m ↦ absurd (cc (rw (b.contains_doc flags 4, m) at h))
        | inr m ↦
            let same = rw (b.contains_doc flags 4, m, identifier-name e) at h in
            ((λ q. ground arith), eq_ignore_ascii_case-true (name_in_directory e) name same)
      ]

  AnswersTo-is_match :
      IsBitflags c.bitflags
      → (e : DirectoryEntry D) (name : Str) → AnswersTo name e
      → is_match c reader fuel e name ≡ true
  unfolding is_match
  AnswersTo-is_match b e name (plain, same) =
      let flags = (entry_header e).file_flags in
      let m : (bit_and flags 4 == 4) ≡ false = ground arith in
      rw (b.contains_doc flags 4, m, identifier-name e)
        (SameLetters-eq (name_in_directory e) name same)

  first_match-IsFirst :
      IsBitflags c.bitflags
      → (name : Str) (es : List (DirectoryEntry D)) → IsFirst name es (first_match name es)
  first_match-IsFirst b name [] = refl
  first_match-IsFirst b name (e ∷ es) = elim (Bool-cases (is_match c reader fuel e name)) [
    | inl m ↦ inl (is_match-AnswersTo b e name m, rw m refl)
    | inr m ↦ inr (
      (λ answers. cc (m, AnswersTo-is_match b e name answers)),
      rw m (first_match-IsFirst b name es),
    )
  ]

  -- An iterator that has an offset does not end.
  pub no_end :
      (it : IsoDirectoryIterator T) (r : Result IsoError (DirectoryEntry D × Option ℕ) × DirState T)
      → (advance c reader fuel it r).0 ≢ none
  unfolding advance
  no_end it (ok (e, nxt), s) p = absurd (cc p)
  no_end it (err x, s) p = absurd (cc p)
  no_end it (panic, s) p = absurd (cc p)
  no_end it (out_of_fuel, s) p = absurd (cc p)

  module _ (d : IsCrates c) (fills : IsFilling reader) (dir : IsoDirectory D) (name : Str)
      (small : dir.header.extent_length + block_size < 2 ^ 32) where
    -- The record that was read is the next one of the list: it is found, or the search goes on.
    step :
        (n o : ℕ) (s : DirState T) (e : DirectoryEntry D) (es : List (DirectoryEntry D))
        → IsEnough c reader fuel dir (suc n) (some o)
        → length s.block ≡ block_size
        → ((nxt : Option ℕ) (s' : DirState T)
            → IsEnough c reader fuel dir n nxt
            → length s'.block ≡ block_size
            → Lists dir es (record { next_offset = nxt; state = s' })
            → (find_loop c reader fuel n dir name (record { next_offset = nxt; state = s' })).0
              ≡ ok (first_match name es))
        → (r : Result IsoError (DirectoryEntry D × Option ℕ) × DirState T)
        → read_entry_at c reader fuel dir o s ≡ r
        → (it' : IsoDirectoryIterator T)
        → advance c reader fuel (record { next_offset = some o; state = s }) r ≡ (some (ok e), it')
        → Lists dir es it'
        → (after c reader fuel dir name n (record { next_offset = some o; state = s }) r).0
          ≡ ok (first_match name (e ∷ es))
    unfolding advance
    step n o s e es h w ih (ok (entry, nxt), s') q it' p ls =
        let (w', behind) =
          Ensures-elim (MovesOn c reader fuel dir o) (read_entry_at c reader fuel dir o s)
            (entry, nxt) s' (read_entry_at-MovesOn c reader fuel d fills dir o s small w) q in
        let same : entry ≡ e = cc (ap (λ x. x.0) p) in
        let here : record { next_offset = nxt; state = s' } ≡ it' = ap (λ x. x.1) p in
        elim (Bool-cases (is_match c reader fuel entry name)) [
          | inl m ↦ rw (m, sym same, m) refl
          | inr m ↦
              rw (m, sym same, m)
                (ih nxt s' (IsBehind-IsEnough c reader fuel dir n o nxt h.1 behind) w'
                  (subst (λ i. Lists dir es i) (sym here) ls))
        ]
    step n o s e es h w ih (err x, s') q it' p ls = absurd (cc (ap (λ x. x.0) p))
    step n o s e es h w ih (panic, s') q it' p ls = absurd (cc (ap (λ x. x.0) p))
    step n o s e es h w ih (out_of_fuel, s') q it' p ls = absurd (cc (ap (λ x. x.0) p))

    loop :
        (n : ℕ) (nxt : Option ℕ) (s : DirState T) (es : List (DirectoryEntry D))
        → IsEnough c reader fuel dir n nxt
        → length s.block ≡ block_size
        → Lists dir es (record { next_offset = nxt; state = s })
        → (find_loop c reader fuel n dir name (record { next_offset = nxt; state = s })).0
          ≡ ok (first_match name es)
    unfolding find_loop next
    loop zero none s [] h w ls = refl
    loop (suc n) none s [] h w ls = refl
    loop n (some o) s [] h w ls = absurd (
        no_end (record { next_offset = some o; state = s }) (read_entry_at c reader fuel dir o s)
          ls)
    loop n none s (e ∷ es) h w (it', p, ls) = absurd (cc (ap (λ x. x.0) p))
    loop zero (some o) s (e ∷ es) h w ls = absurd (omega arith)
    loop (suc n) (some o) s (e ∷ es) h w (it', p, ls) =
        step n o s e es h w (λ nxt s' h' w' ls'. loop n nxt s' es h' w' ls')
          (read_entry_at c reader fuel dir o s) refl it' p ls

    -- In a directory of less than 2 ^ 32 - 2048 bytes, whose iterator gives certain entries and then
    -- ends, a search for a name ends with the first entry of this list that is no associated file and
    -- has this name but for the case of ASCII letters, and with none where there is no such entry, on
    -- a reader that keeps the size of the buffers it fills.
    pub find-IsFirst :
        (t : T) (es : List (DirectoryEntry D))
        → Lists dir es (contents c reader fuel t)
        → (r : Option (DirectoryEntry D)) × ((find c reader fuel dir name t).0 ≡ ok r)
          × IsFirst name es r
    unfolding find contents
    find-IsFirst t es ls = (
      first_match name es,
      loop (rounds c reader fuel dir) (some 0)
          (record { block = replicate block_size 0; block_num = none; reader = t }) es (omega arith)
          (length-replicate {A = ℕ} block_size 0) ls,
      first_match-IsFirst d.bitflags_doc name es,
    )
