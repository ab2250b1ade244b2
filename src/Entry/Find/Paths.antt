-- ===== src/Entry/Find/Paths.antt =====
-- `find_recursive` of cdfs/src/directory_entry/isodirectory.rs: what a path
-- leads to, part by part.
use iso9660_rs.Prelude.{
  ℕ, ◌≡◌, ◌≢◌, refl, ap, ◌∙◌, true, Option, none, some, List, [], ◌∷◌, ◌++◌, ◌==◌, arith,
  Bool-cases, inl, inr,
}
use iso9660_rs.Outcome.{Result, ok, err, IsoError}
use iso9660_rs.Crates.{Crates, Str}
use iso9660_rs.FileRef.{Iso9660Reader}
use iso9660_rs.Text.{split}
use iso9660_rs.Entry.Find.{segments, find, find_segments, find_recursive, non_empty}
use iso9660_rs.Entry.Names.Versions.{Without}
use iso9660_rs.Entry.Types.{IsoDirectory, IsoFile, Symlink, DirectoryEntry}

split_cons : (x : ℕ) (s : Str) → (p : Str) × (ps : List Str) × (split x s ≡ p ∷ ps)
unfolding split
split_cons x [] = ([], [], refl)
split_cons x (ch ∷ s) =
    let (p, ps, e) = split_cons x s in
    elim (Bool-cases (ch == x)) [
      | inl same ↦ ([], split x s, rw same)
      | inr other ↦ (ch ∷ p, ps, rw (other, e))
    ]

-- The parts on both sides of a separator.
split-append : (x : ℕ) (s t : Str) → split x (s ++ (x ∷ t)) ≡ split x s ++ split x t
unfolding split
split-append x [] t = let same : (x == x) ≡ true = ground arith in rw same
split-append x (ch ∷ s) t =
    let (p, ps, e) = split_cons x s in
    elim (Bool-cases (ch == x)) [
      | inl same ↦ rw (same, split-append x s t)
      | inr other ↦ rw (other, split-append x s t, e)
    ]

non_empty-append : (xs ys : List Str) → non_empty (xs ++ ys) ≡ non_empty xs ++ non_empty ys
unfolding non_empty
non_empty-append [] ys = refl
non_empty-append (x ∷ xs) ys = ground (arith, non_empty-append xs ys)

segments-append : (p q : Str) → segments (p ++ (b'/' ∷ q)) ≡ segments p ++ segments q
unfolding segments
segments-append p q =
    ap non_empty (split-append b'/' p q) ∙ non_empty-append (split b'/' p) (split b'/' q)

-- A part of a path: a text with a character, and without a slash.
abbrev pub IsSegment : Str → Type 0
IsSegment s = (s ≢ []) × Without b'/' s

-- A path that spells out some parts: slashes stand between them, and more may stand anywhere.
pub data Spells : Str → List Str → Type 0 where
  nothing : Spells [] []
  slash : {path : Str} {parts : List Str} → Spells path parts → Spells (b'/' ∷ path) parts
  last : (part : Str) → IsSegment part → Spells part (part ∷ [])
  before :
      (part : Str) {path : Str} {parts : List Str}
      → IsSegment part
      → Spells path parts
      → Spells (part ++ (b'/' ∷ path)) (part ∷ parts)

split-Without : (x : ℕ) (s : Str) → Without x s → split x s ≡ s ∷ []
unfolding split
split-Without x [] h = refl
split-Without x (ch ∷ s) h = rw (h.0, split-Without x s h.1)

segments-IsSegment : (s : Str) → IsSegment s → segments s ≡ s ∷ []
unfolding segments
segments-IsSegment [] h = absurd (h.0 refl)
segments-IsSegment (ch ∷ s) h = rw (split-Without b'/' (ch ∷ s) h.1)

segments-Spells : {path : Str} {parts : List Str} → Spells path parts → segments path ≡ parts
segments-Spells nothing = unfold segments in unfold split in refl
segments-Spells (slash {path = path} g) =
    segments-append [] path ∙ rw (segments-Spells g) (unfold segments in unfold split in refl)
segments-Spells (last part h) = segments-IsSegment part h
segments-Spells (before part {path = path} h g) =
    segments-append part path ∙ rw (segments-IsSegment part h, segments-Spells g)

module _ (c : Crates) {T : Type 0} (reader : Iso9660Reader T) (fuel : ℕ) where
  abbrev D : Type 0
  D = c.time.OffsetDateTime

  -- What the parts of a path lead to from an entry: each part is looked up in the directory that the
  -- parts before it lead to. A part behind something that is no directory, or that is not in the
  -- directory, leads to nothing, and a lookup that fails ends the path.
  pub data Leads
      : DirectoryEntry D
        → List Str
        → T
        → Result IsoError (Option (DirectoryEntry D)) × T
        → Type 0 where
    here : (e : DirectoryEntry D) (t : T) → Leads e [] t (ok (some e), t)
    below_file :
        (f : IsoFile D) (part : Str) (parts : List Str) (t : T)
        → Leads (DirectoryEntry.file f) (part ∷ parts) t (ok none, t)
    below_symlink :
        (link : Symlink D) (part : Str) (parts : List Str) (t : T)
        → Leads (DirectoryEntry.symlink link) (part ∷ parts) t (ok none, t)
    missing :
        (dir : IsoDirectory D) (part : Str) (parts : List Str) (t t' : T)
        → find c reader fuel dir part t ≡ (ok none, t')
        → Leads (DirectoryEntry.directory dir) (part ∷ parts) t (ok none, t')
    fails :
        (dir : IsoDirectory D) (part : Str) (parts : List Str) (t t' : T) (x : IsoError)
        → find c reader fuel dir part t ≡ (err x, t')
        → Leads (DirectoryEntry.directory dir) (part ∷ parts) t (err x, t')
    below :
        (dir : IsoDirectory D) (part : Str) (parts : List Str) (t t' : T) (e : DirectoryEntry D)
        (r : Result IsoError (Option (DirectoryEntry D)) × T)
        → find c reader fuel dir part t ≡ (ok (some e), t')
        → Leads e parts t' r
        → Leads (DirectoryEntry.directory dir) (part ∷ parts) t r

  find_segments-Leads :
      (e : DirectoryEntry D) (parts : List Str) (t : T)
      (r : Result IsoError (Option (DirectoryEntry D)) × T)
      → Leads e parts t r
      → find_segments c reader fuel e parts t ≡ r
  unfolding find_segments
  find_segments-Leads _ _ _ _ (here e t) = refl
  find_segments-Leads _ _ _ _ (below_file f part parts t) = refl
  find_segments-Leads _ _ _ _ (below_symlink link part parts t) = refl
  find_segments-Leads _ _ _ _ (missing dir part parts t t' p) = rw p refl
  find_segments-Leads _ _ _ _ (fails dir part parts t t' x p) = rw p refl
  find_segments-Leads _ _ _ _ (below dir part parts t t' e r p g) =
      rw p (find_segments-Leads e parts t' r g)

  -- A path is looked up part by part from the directory, wherever slashes stand at its ends or
  -- doubled between the parts: the result and the state of the reader are those to which the parts
  -- lead, be that an entry, nothing or an error.
  pub find_recursive-Leads :
      (dir : IsoDirectory D) (path : Str) (parts : List Str) (t : T)
      (r : Result IsoError (Option (DirectoryEntry D)) × T)
      → Spells path parts
      → Leads (DirectoryEntry.directory dir) parts t r
      → find_recursive c reader fuel dir path t ≡ r
  unfolding find_recursive
  find_recursive-Leads dir path parts t r spelled g =
      rw (segments-Spells spelled) (find_segments-Leads (DirectoryEntry.directory dir) parts t r g)
