-- ===== src/Entry/Attributes.antt =====
-- cdfs/src/directory_entry/extra_meta.rs: the trait `ExtraAttributes`, an interface of two methods
-- and what is read through them.
use iso9660_rs.Prelude.{ℕ, Bool, Option}
use iso9660_rs.Parse.DirectoryEntry.{DirectoryEntryHeader}
use iso9660_rs.Entry.Types.{ExtraMeta, IsoDirectory, IsoFile, Symlink, DirectoryEntry}
use mathlib.Core.Option
use mathlib.Core.Option.{get_or}

pub record ExtraAttributes (D A : Type 0) : Type 0 where
  pub ext : A → ExtraMeta D
  pub header : A → DirectoryEntryHeader D

module _ {D : Type 0} where
  abbrev pub directory_attributes : ExtraAttributes D (IsoDirectory D)
  directory_attributes = record { ext = λ dir. dir.ext; header = λ dir. dir.header }

  abbrev pub file_attributes : ExtraAttributes D (IsoFile D)
  file_attributes = record { ext = λ f. f.ext; header = λ f. f.header }

  abbrev pub symlink_attributes : ExtraAttributes D (Symlink D)
  symlink_attributes = record { ext = λ link. link.ext; header = λ link. link.header }

  abbrev pub entry_ext : DirectoryEntry D → ExtraMeta D
  entry_ext (DirectoryEntry.directory dir) = dir.ext
  entry_ext (DirectoryEntry.file f) = f.ext
  entry_ext (DirectoryEntry.symlink link) = link.ext

  abbrev pub entry_header : DirectoryEntry D → DirectoryEntryHeader D
  entry_header (DirectoryEntry.directory dir) = dir.header
  entry_header (DirectoryEntry.file f) = f.header
  entry_header (DirectoryEntry.symlink link) = link.header

  abbrev pub entry_attributes : ExtraAttributes D (DirectoryEntry D)
  entry_attributes = record { ext = entry_ext; header = entry_header }

module _ {D A : Type 0} (e : ExtraAttributes D A) where
  unfoldable pub relocated : A → Bool
  relocated a = (e.ext a).relocated

  unfoldable pub time : A → D
  time a = (e.header a).time

  unfoldable pub owner : A → Option ℕ
  owner a = Option.map (λ attributes. attributes.uid) (e.ext a).attributes

  unfoldable pub group : A → Option ℕ
  group a = Option.map (λ attributes. attributes.gid) (e.ext a).attributes

  unfoldable pub mode : A → Option ℕ
  mode a = Option.map (λ attributes. attributes.mode) (e.ext a).attributes

  unfoldable pub access_time : A → D
  unfolding time
  access_time a = get_or (e.ext a).timestamps.access (time a)

  unfoldable pub attribute_change_time : A → D
  unfolding time
  attribute_change_time a = get_or (e.ext a).timestamps.attributes (time a)

  unfoldable pub backup_time : A → D
  unfolding time
  backup_time a = get_or (e.ext a).timestamps.backup (time a)

  unfoldable pub create_time : A → D
  unfolding time
  create_time a = get_or (e.ext a).timestamps.creation (time a)

  unfoldable pub effective_time : A → D
  unfolding time
  effective_time a = get_or (e.ext a).timestamps.effective (time a)

  unfoldable pub expire_time : A → D
  unfolding time
  expire_time a = get_or (e.ext a).timestamps.expiration (time a)

  unfoldable pub modify_time : A → D
  unfolding time
  modify_time a = get_or (e.ext a).timestamps.modify (time a)

  unfoldable pub inode : A → Option ℕ
  inode a = Option.bind (e.ext a).attributes (λ attributes. attributes.inode)
