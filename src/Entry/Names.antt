-- ===== src/Entry/Names.antt =====
-- cdfs/src/directory_entry: how an entry gets its name and its kind (`ISODirectory::new`,
-- `ISOFile::new`, `Symlink::new`, `DirectoryEntry::new`).
pub mod Versions
use iso9660_rs.Prelude.{ℕ, Bool, false, Option, none, some, [], ◌∷◌, if◌then◌else◌}
use iso9660_rs.Outcome.{Result, ok, err, IsoError, parse_int, ◌>>=◌}
use iso9660_rs.Crates.{Crates, Str}
use iso9660_rs.Text.{chars, str_eq, rsplit_at, ends_with, pop, u16_from_str}
use iso9660_rs.Parse.DirectoryEntry.{DirectoryEntryHeader, directory as directory_flag}
use iso9660_rs.Parse.Susp.Flags.{type_symlink}
use iso9660_rs.Parse.Susp.Types.{PosixAttributes}
use iso9660_rs.Entry.Types.{ExtraMeta, IsoDirectory, IsoFile, Symlink, DirectoryEntry}
use mathlib.Core.Option.{get_or}

-- The alternative name, where there is one.
abbrev pub name_of : {D : Type 0} → ExtraMeta D → Str → Str
name_of ext identifier = get_or ext.alt_name identifier

-- The names 0 and 1 of the directory itself and of its parent.
unfoldable pub dot_name : Str → Str
dot_name identifier =
    if str_eq identifier (0 ∷ [])
    then chars "."
    else if str_eq identifier (1 ∷ [])
    then chars ".."
    else identifier

unfoldable pub new_directory :
    {D : Type 0} → DirectoryEntryHeader D → ExtraMeta D → Str → IsoDirectory D
unfolding dot_name
new_directory header ext identifier = record {
  header = header;
  identifier = dot_name (name_of ext identifier);
  ext = ext;
}

parse_version : Option ℕ → Result IsoError ℕ
parse_version none = err parse_int
parse_version (some version) = ok version

-- What stands behind the last `;` is the version.
split_version : Str → Option (Str × Str) → Result IsoError (Str × ℕ)
unfolding parse_version
split_version identifier none = ok (identifier, 1)
split_version identifier (some (before, behind)) =
    parse_version (u16_from_str behind) >>= λ version. ok (before, version)

unfoldable pub drop_dot : Str → Str
drop_dot identifier = if ends_with b'.' identifier then pop identifier else identifier

-- The name and the version that `ISOFile::new` and `Symlink::new` make of an identifier.
unfoldable pub versioned : Str → Result IsoError (Str × ℕ)
unfolding split_version drop_dot
versioned identifier = do
  (identifier, version) ← split_version identifier (rsplit_at b';' identifier)
  ok (drop_dot identifier, version)

unfoldable pub new_file :
    {D : Type 0} → DirectoryEntryHeader D → ExtraMeta D → Str → Result IsoError (IsoFile D)
unfolding versioned
new_file header ext identifier = do
  (identifier, version) ← versioned (name_of ext identifier)
  ok (record { header = header; identifier = identifier; version = version; ext = ext })

unfoldable pub new_symlink :
    {D : Type 0} → DirectoryEntryHeader D → ExtraMeta D → Str → Result IsoError (Symlink D)
unfolding versioned
new_symlink header ext identifier = do
  (identifier, version) ← versioned (name_of ext identifier)
  ok (record { header = header; identifier = identifier; version = version; ext = ext })

module _ (c : Crates) where
  mode_is_symlink : Option PosixAttributes → Bool
  mode_is_symlink none = false
  mode_is_symlink (some attributes) = c.bitflags.contains attributes.mode type_symlink

  -- A directory goes before a symbolic link, and a file is what is neither.
  unfoldable pub new_entry :
      {D : Type 0} → DirectoryEntryHeader D → ExtraMeta D → Str → Result IsoError (DirectoryEntry D)
  unfolding mode_is_symlink new_directory new_file new_symlink
  new_entry header ext identifier =
      if c.bitflags.contains header.file_flags directory_flag
      then ok (DirectoryEntry.directory (new_directory header ext identifier))
      else if mode_is_symlink ext.attributes
      then (new_symlink header ext identifier >>= λ link. ok (DirectoryEntry.symlink link))
      else (new_file header ext identifier >>= λ f. ok (DirectoryEntry.file f))

-- `DirectoryEntry::identifier`.
unfoldable pub identifier : {D : Type 0} → DirectoryEntry D → Str
identifier (DirectoryEntry.directory dir) = dir.identifier
identifier (DirectoryEntry.file f) = f.identifier
identifier (DirectoryEntry.symlink link) = link.identifier
