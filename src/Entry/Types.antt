-- ===== src/Entry/Types.antt =====
-- cdfs/src/directory_entry: the entries of a directory as data. The field `file` of an entry, the
-- shared reader, is passed along by the operations. `D` is the time stamp of the crate `time`.
use iso9660_rs.Prelude.{ℕ, Bool, false, Option, none, List, []}
use iso9660_rs.Crates.{Str}
use iso9660_rs.Parse.DirectoryEntry.{DirectoryEntryHeader}
use iso9660_rs.Parse.Susp.Types.{SuspExtension, PosixAttributes, PosixTimestamp, no_timestamps}

-- The `HashSet` of extensions is the list of what was put in.
pub record ExtraMeta (D : Type 0) : Type 0 where
  pub alt_name : Option Str
  pub attributes : Option PosixAttributes
  pub symlink_target : Option Str
  pub extensions : List SuspExtension
  pub timestamps : PosixTimestamp D
  pub relocated : Bool

-- `ExtraMeta::default()`.
abbrev pub no_meta : {D : Type 0} → ExtraMeta D
no_meta = record {
  alt_name = none;
  attributes = none;
  symlink_target = none;
  extensions = [];
  timestamps = no_timestamps;
  relocated = false;
}

pub record IsoDirectory (D : Type 0) : Type 0 where
  pub header : DirectoryEntryHeader D
  pub identifier : Str
  pub ext : ExtraMeta D

pub record IsoFile (D : Type 0) : Type 0 where
  pub header : DirectoryEntryHeader D
  pub identifier : Str
  pub version : ℕ
  pub ext : ExtraMeta D

pub record Symlink (D : Type 0) : Type 0 where
  pub header : DirectoryEntryHeader D
  pub identifier : Str
  pub version : ℕ
  pub ext : ExtraMeta D

pub data DirectoryEntry (D : Type 0) : Type 0 where
  directory : IsoDirectory D → DirectoryEntry D
  file : IsoFile D → DirectoryEntry D
  symlink : Symlink D → DirectoryEntry D
