-- ===== src/Examples/PrintTree/Trees.antt =====
-- cdfs/examples/print_tree.rs: a tree of entries, its lines, and the directories that
-- hold it.
use Prim.Native.Nat.{max}
use iso9660_rs.Prelude.{
  ℕ, zero, suc, ◌+◌, ◌*◌, replicate, ◌^◌, ◌<◌, ◌≡◌, Bool, true, false, ◌||◌, Option, none, some, [],
  ◌∷◌, ◌++◌,
}
use iso9660_rs.Outcome.{ok, IsoError}
use iso9660_rs.Crates.{Crates, Str}
use iso9660_rs.FileRef.{Iso9660Reader, block_size}
use iso9660_rs.Text.{chars, str_eq}
use iso9660_rs.Entry.Attributes.{
  directory_attributes, file_attributes, symlink_attributes, mode, modify_time,
}
use iso9660_rs.Entry.Find.{IsoDirectoryIterator, contents, next}
use iso9660_rs.Entry.Types.{IsoDirectory, IsoFile, Symlink, DirectoryEntry}
use iso9660_rs.Parse.Susp.Mode.{show}

-- The entries of a directory in order, with those of the directories in it.

pub data Tree (D : Type 0) : Type 0 where
  empty : Tree D
  dots : IsoDirectory D → Tree D → Tree D
  file : IsoFile D → Tree D → Tree D
  symlink : Symlink D → Tree D → Tree D
  branch : IsoDirectory D → Tree D → Tree D → Tree D

abbrev pub depth : {D : Type 0} → Tree D → ℕ
depth empty = 0
depth (dots sub rest) = depth rest
depth (file f rest) = depth rest
depth (symlink link rest) = depth rest
depth (branch sub inner rest) = max (suc (depth inner)) (depth rest)

abbrev pub is_dots : {D : Type 0} → IsoDirectory D → Bool
is_dots dir = str_eq dir.identifier (chars ".") || str_eq dir.identifier (chars "..")

-- Two blanks for each level.
abbrev pub margin : ℕ → Str
margin level = replicate (2 * level) 32

abbrev pub unknown_target : Str
unknown_target = 8253 ∷ 8253 ∷ 8253 ∷ []

-- How the target of a link is shown.
abbrev pub link_text : Option Str → Str
link_text none = unknown_target
link_text (some []) = unknown_target
link_text (some (zero ∷ [])) = chars ".."
link_text (some (suc zero ∷ [])) = chars "."
link_text (some (suc (suc ch) ∷ [])) = suc (suc ch) ∷ []
link_text (some (ch ∷ d ∷ s)) = ch ∷ d ∷ s

-- The lines of a tree, where `shown` and `formatted` are the texts of modes and times.
module _ {D : Type 0} (shown : ℕ → Str) (formatted : D → Str) where
  abbrev pub line : Option ℕ → D → Str → Str
  line none d text = chars " " ++ (formatted d ++ (chars " " ++ (text ++ (10 ∷ []))))
  line (some m) d text =
      (shown m ++ chars " ") ++ (chars " " ++ (formatted d ++ (chars " " ++ (text ++ (10 ∷ [])))))

  abbrev pub lines : IsoDirectory D → ℕ → Tree D → Str
  lines dir level empty = []
  lines dir level (dots sub rest) = lines dir level rest
  lines dir level (file f rest) =
      line (mode file_attributes f) (modify_time file_attributes f) (margin level ++ f.identifier)
      ++ lines dir level rest
  lines dir level (symlink link rest) =
      line (mode symlink_attributes link) (modify_time directory_attributes dir)
        (margin level ++ (link.identifier ++ (32 ∷ 8594 ∷ 32 ∷ link_text link.ext.symlink_target)))
      ++ lines dir level rest
  lines dir level (branch sub inner rest) =
      line (mode directory_attributes sub) (modify_time directory_attributes sub)
        (margin level ++ (sub.identifier ++ chars "/"))
      ++ (lines sub (level + 1) inner ++ lines dir level rest)

-- Each mode and each time that the lines show has a text.
module _ (c : Crates) (format : c.time.OffsetDateTime → Option Str) (shown : ℕ → Str)
    (formatted : c.time.OffsetDateTime → Str) where
  abbrev pub HasMode : Option ℕ → Type 0
  HasMode none = Unit {0}
  HasMode (some m) = show c {E = IsoError} m ≡ ok (shown m)

  abbrev pub HasTexts : Option ℕ → c.time.OffsetDateTime → Type 0
  HasTexts m x = HasMode m × (format x ≡ some (formatted x))

  abbrev pub AllTexts : IsoDirectory c.time.OffsetDateTime → Tree c.time.OffsetDateTime → Type 0
  AllTexts dir empty = Unit {0}
  AllTexts dir (dots sub rest) = AllTexts dir rest
  AllTexts dir (file f rest) =
      HasTexts (mode file_attributes f) (modify_time file_attributes f) × AllTexts dir rest
  AllTexts dir (symlink link rest) =
      HasTexts (mode symlink_attributes link) (modify_time directory_attributes dir)
      × AllTexts dir rest
  AllTexts dir (branch sub inner rest) =
      HasTexts (mode directory_attributes sub) (modify_time directory_attributes sub)
      × AllTexts sub inner
      × AllTexts dir rest

module _ (c : Crates) {T : Type 0} (reader : Iso9660Reader T) (fuel : ℕ) where
  abbrev D : Type 0
  D = c.time.OffsetDateTime

  -- The iterator gives the entries of the tree, in which the iterator of each directory gives what is
  -- in it, and leaves the reader in a state.
  abbrev pub Walks : Tree D → IsoDirectory D → IsoDirectoryIterator T → T → Type 0
  Walks empty dir it t' =
      (it' : IsoDirectoryIterator T) × (next c reader fuel dir it ≡ (none, it'))
      × (it'.state.reader ≡ t')
  Walks (dots sub rest) dir it t' =
      (it' : IsoDirectoryIterator T) × (next c reader fuel dir it
        ≡ (some (ok (DirectoryEntry.directory sub)), it'))
      × (is_dots sub ≡ true)
      × Walks rest dir it' t'
  Walks (file f rest) dir it t' =
      (it' : IsoDirectoryIterator T) × (next c reader fuel dir it
        ≡ (some (ok (DirectoryEntry.file f)), it'))
      × Walks rest dir it' t'
  Walks (symlink link rest) dir it t' =
      (it' : IsoDirectoryIterator T) × (next c reader fuel dir it
        ≡ (some (ok (DirectoryEntry.symlink link)), it'))
      × Walks rest dir it' t'
  Walks (branch sub inner rest) dir it t' =
      (it' : IsoDirectoryIterator T) × (t₁ : T) × (next c reader fuel dir it
        ≡ (some (ok (DirectoryEntry.directory sub)), it'))
      × (is_dots sub ≡ false)
      × (sub.header.extent_length + block_size < 2 ^ 32)
      × Walks inner sub (contents c reader fuel it'.state.reader) t₁
      × Walks rest dir (record it' { state = record it'.state { reader = t₁ } }) t'
