-- ===== src/Fuse/Types.antt =====
-- cdfs-fuse/src/bin/cdfs_fuse.rs: the state, the replies, and the attributes of an entry. `D` is the
-- time stamp of the crate `time`, `S` the `SystemTime` that it turns into, T the state of the shared reader of the image.
pub mod Attributes
use iso9660_rs.Prelude.{ℕ, ◌+◌, ◌/◌, ◌^◌, Bool, Option, none, some, List, ℤ}
use iso9660_rs.Outcome.{Result, ok, ◌>>=◌}
use iso9660_rs.Crates.{Crates, Bytes, Str}
use iso9660_rs.FileRef.{block_size}
use iso9660_rs.Machine.{fit, sub_word}
use iso9660_rs.Parse.Susp.Mode.{u16_from}
use iso9660_rs.Entry.Attributes.{
  entry_attributes, entry_header, access_time, attribute_change_time, create_time, modify_time,
  owner, group, mode,
}
use iso9660_rs.Entry.Reader.{IsoFileReader}
use iso9660_rs.Entry.Types.{IsoDirectory, DirectoryEntry}
use mathlib.Core.Option.{get_or}

pub data FileType : Type 0 where
  directory : FileType
  regular_file : FileType
  symlink : FileType

pub record FileAttr (S : Type 0) : Type 0 where
  pub ino : ℕ
  pub size : ℕ
  pub blocks : ℕ
  pub atime : S
  pub mtime : S
  pub ctime : S
  pub crtime : S
  pub kind : FileType
  pub perm : ℕ
  pub nlink : ℕ
  pub uid : ℕ
  pub gid : ℕ
  pub rdev : ℕ
  pub flags : ℕ
  pub blksize : ℕ

-- What is handed to `ReplyDirectory::add`.
pub record DirItem : Type 0 where
  pub ino : ℕ
  pub offset : ℤ
  pub kind : FileType
  pub name : Str

pub data Reply (S : Type 0) : Type 0 where
  entry : FileAttr S → Reply S
  attr : FileAttr S → Reply S
  bytes : Bytes → Reply S
  opened : ℕ → Reply S
  listing : List DirItem → Reply S
  done : Reply S

-- The error numbers of libc that the handlers reply.
pub data Errno : Type 0 where
  einval eio eisdir enfile enoent enotdir enotsup : Errno

pub record IsoFuse (D T : Type 0) : Type 0 where
  pub inodes : List (ℕ × DirectoryEntry D)
  pub inode_number : ℕ
  pub inode_autogenerated : Bool
  pub directory_number : ℕ
  pub file_number : ℕ
  pub open_directories : List (ℕ × IsoDirectory D)
  pub open_files : List (ℕ × IsoFileReader)
  pub reader : T

abbrev pub u64_max : ℕ
u64_max = 0xffff_ffff_ffff_ffff

unfoldable pub entry_to_filetype : {D : Type 0} → DirectoryEntry D → FileType
entry_to_filetype (DirectoryEntry.directory dir) = FileType.directory
entry_to_filetype (DirectoryEntry.file f) = FileType.regular_file
entry_to_filetype (DirectoryEntry.symlink link) = FileType.symlink

-- Permissions where an entry has no mode of its own.
default_perm : FileType → ℕ
default_perm FileType.directory = 0o555
default_perm FileType.regular_file = 0o444
default_perm FileType.symlink = 0o444

-- `euid` and `egid` are what libc gives for the process.
module _ (c : Crates) (euid egid : ℕ) where
  perm_of : {E : Type 0} → Option ℕ → FileType → Result E ℕ
  unfolding u16_from default_perm
  perm_of (some m) kind = u16_from c m
  perm_of none kind = ok (default_perm kind)

  unfoldable pub get_fileattr :
      {E : Type 0}
      → ℕ
      → DirectoryEntry c.time.OffsetDateTime
      → Result E (FileAttr c.time.SystemTime)
  unfolding fit sub_word perm_of entry_to_filetype access_time attribute_change_time create_time
      modify_time owner group mode
  get_fileattr ino e = do
    sum ← fit c (2 ^ 32) ((entry_header e).extent_length + block_size)
    len ← sub_word c (2 ^ 32) sum 1
    perm ← perm_of (mode entry_attributes e) (entry_to_filetype e)
    ok (record {
      ino = ino;
      size = (entry_header e).extent_length;
      blocks = len / block_size;
      atime = c.time.into_system_time (access_time entry_attributes e);
      mtime = c.time.into_system_time (modify_time entry_attributes e);
      ctime = c.time.into_system_time (attribute_change_time entry_attributes e);
      crtime = c.time.into_system_time (create_time entry_attributes e);
      kind = entry_to_filetype e;
      perm = perm;
      nlink = 1;
      uid = get_or (owner entry_attributes e) euid;
      gid = get_or (group entry_attributes e) egid;
      rdev = 0;
      flags = 0;
      blksize = block_size;
    })
