-- ===== src/Fuse/Handlers.antt =====
-- cdfs-fuse/src/bin/cdfs_fuse.rs: `ISOFuse::new` and the handlers of the trait `Filesystem`.
pub mod Files
pub mod Release
pub mod Keeps
use iso9660_rs.Prelude.{
  ℕ, zero, suc, ◌+◌, ◌^◌, Bool, true, false, not, Option, none, some, List, [], ◌∷◌, ◌++◌, ltb,
  ◌==◌, ◌||◌, ◌&&◌, if◌then◌else◌, ℤ, pos, negsuc, replicate,
}
use iso9660_rs.Outcome.{Result, ok, err, panic, out_of_fuel, IoError, IsoError, unwrap}
use iso9660_rs.State.{M, ◌>>=◌, ◌>>◌, lift, pure}
use iso9660_rs.Crates.{Crates, Bytes, Str}
use iso9660_rs.FileRef.{Iso9660Reader, block_size}
use iso9660_rs.HashMap.{get, insert, remove}
use iso9660_rs.Text.{chars, str_eq, as_bytes}
use iso9660_rs.Entry.Attributes.{entry_attributes, inode, relocated}
use iso9660_rs.Entry.Directory.{DirState, read_entry_at}
use iso9660_rs.Entry.Find.{contents, next, find}
use iso9660_rs.Entry.Names.{identifier}
use iso9660_rs.Entry.Reader.{IsoFileReader, open_reader, read, SeekFrom, seek}
use iso9660_rs.Entry.Types.{IsoDirectory, IsoFile, Symlink, DirectoryEntry}
use iso9660_rs.Fuse.Types.{
  FileType, FileAttr, DirItem, Reply, Errno, einval, eio, eisdir, enfile, enoent, enotdir, enotsup,
  IsoFuse, u64_max, entry_to_filetype, get_fileattr,
}
use iso9660_rs.Iso.{Iso9660, root, is_rr}
use mathlib.Core.Option.{IsSome}

-- A handler's `match self.inodes.get(&ino) { None => return reply.error(EINVAL) }`, and the like.
abbrev pub or_error : {S A : Type 0} → Errno → Option A → M S Errno A
or_error e none s = (err e, s)
or_error e (some a) s = (ok a, s)

-- Every failure of a call becomes one error number.
abbrev pub as_errno : {E A : Type 0} → Errno → Result E A → Result Errno A
as_errno e (ok a) = ok a
as_errno e (err x) = err e
as_errno e panic = panic
as_errno e out_of_fuel = out_of_fuel

-- `u64::try_from` of an `i64`.
abbrev pub u64_from : ℤ → Option ℕ
u64_from (pos n) = some n
u64_from (negsuc n) = none

-- `fuel` bounds the continuation areas that one record may name; `reply.add` is `full`, which says
-- for what is listed already whether one more item does not fit.
module _ (c : Crates) {T : Type 0} (reader : Iso9660Reader T) (fuel : ℕ) (euid egid : ℕ)
    (full : List DirItem → DirItem → Bool) where
  abbrev D : Type 0
  D = c.time.OffsetDateTime

  abbrev pub Handler : Type 0
  Handler = M (IsoFuse D T) Errno (Reply c.time.SystemTime)

  -- A result of reading the image, with the reader put back.
  abbrev with_reader : {E A : Type 0} → IsoFuse D T → Result E A × T → Result E A × IsoFuse D T
  with_reader f (r, t) = (r, record f { reader = t })

  -- `lookup`, once an entry of the name is found.
  add_found : DirectoryEntry D → Handler
  unfolding get_fileattr insert inode
  add_found e f =
      (do
        ino ←
            lift (
              if f.inode_autogenerated
              then ok f.inode_number
              else unwrap (inode entry_attributes e))
        fileattr ← lift (get_fileattr c euid egid ino e)
        λ f. (
          ok (Reply.entry fileattr),
          record f {
            inodes = insert ino e f.inodes;
            inode_number = if f.inode_autogenerated then f.inode_number + 1 else f.inode_number;
          },
        ))
        f

  found_in :
      Result IsoError (Option (DirectoryEntry D)) × IsoFuse D T
      → Result Errno (Reply c.time.SystemTime) × IsoFuse D T
  unfolding add_found
  found_in (ok (some e), f) = add_found e f
  found_in (ok none, f) = (err enoent, f)
  found_in (err x, f) = (err enoent, f)
  found_in (panic, f) = (panic, f)
  found_in (out_of_fuel, f) = (out_of_fuel, f)

  lookup_in : DirectoryEntry D → Option Str → Handler
  unfolding found_in find
  lookup_in (DirectoryEntry.directory dir) name f =
      if f.inode_number == u64_max then (err enfile, f) else elim name [
        | none ↦ (panic, f)
        | some n ↦ found_in (with_reader f (find c reader fuel dir n f.reader))
      ]
  lookup_in (DirectoryEntry.file _) name f = (err enotdir, f)
  lookup_in (DirectoryEntry.symlink _) name f = (err enotdir, f)

  -- `name` is what `to_str` gives for it.
  unfoldable pub lookup : ℕ → Option Str → Handler
  unfolding get lookup_in
  lookup parent name f =
      (or_error einval (get parent f.inodes) >>= λ parent_entry. lookup_in parent_entry name) f

  -- There is nothing to reply.
  unfoldable pub forget : ℕ → IsoFuse D T → IsoFuse D T
  unfolding remove
  forget ino f = record f { inodes = remove ino f.inodes }

  unfoldable pub getattr : ℕ → Handler
  unfolding get get_fileattr
  getattr ino f =
      (or_error einval (get ino f.inodes) >>= λ e.
      lift (get_fileattr c euid egid ino e) >>= λ fileattr. pure (Reply.attr fileattr))
        f

  link_target : DirectoryEntry D → Option Str
  link_target (DirectoryEntry.symlink link) = link.ext.symlink_target
  link_target (DirectoryEntry.file _) = none
  link_target (DirectoryEntry.directory _) = none

  unfoldable pub readlink : ℕ → Handler
  unfolding get link_target as_bytes
  readlink ino f =
      (or_error einval (get ino f.inodes) >>= λ e.
      or_error einval (link_target e) >>= λ target. pure (Reply.bytes (as_bytes target)))
        f

  open_entry : DirectoryEntry D → Handler
  open_entry (DirectoryEntry.file file) f = if f.file_number == u64_max then (err enfile, f) else (
    ok (Reply.opened f.file_number),
    record f {
      open_files = insert f.file_number (open_reader file) f.open_files;
      file_number = f.file_number + 1;
    },
  )
  open_entry (DirectoryEntry.directory _) f = (err eisdir, f)
  open_entry (DirectoryEntry.symlink _) f = (err eisdir, f)

  unfoldable pub open_file : ℕ → Handler
  unfolding open_entry
  open_file ino f = (or_error einval (get ino f.inodes) >>= open_entry) f

  -- A file reader that was changed goes back to its place.
  abbrev put_back :
      {A : Type 0}
      → IsoFuse D T
      → ℕ
      → Result IoError A × (IsoFileReader × T)
      → Result Errno A × IsoFuse D T
  put_back f fh (r, (file, t)) =
      (as_errno eio r, record f { open_files = insert fh file f.open_files; reader = t })

  read_at_offset : ℕ → ℕ → ℕ → IsoFileReader → Handler
  read_at_offset fh offset size file f =
      let (r, file') = seek c (SeekFrom.start offset) file in
      ((λ f. put_back f fh (r, (file', f.reader))) >>= λ _.
      (λ (f : IsoFuse D T). put_back f fh (read reader size (file', f.reader))) >>= λ out.
      pure (Reply.bytes out))
        f

  unfoldable pub read_file : ℕ → ℤ → ℕ → Handler
  unfolding read_at_offset
  read_file fh offset size f =
      (or_error einval (u64_from offset) >>= λ offset.
      or_error einval (get fh f.open_files) >>= λ file. read_at_offset fh offset size file)
        f

  unfoldable pub release : ℕ → Handler
  unfolding get remove
  release fh f =
      (or_error einval (get fh f.open_files) >>= λ _ f.
      (ok Reply.done, record f { open_files = remove fh f.open_files }))
        f

  opendir_entry : DirectoryEntry D → Handler
  unfolding insert
  opendir_entry (DirectoryEntry.directory dir) f =
      if f.directory_number == u64_max then (err enfile, f) else (
        ok (Reply.opened f.directory_number),
        record f {
          open_directories = insert f.directory_number dir f.open_directories;
          directory_number = f.directory_number + 1;
        },
      )
  opendir_entry (DirectoryEntry.file _) f = (err enotdir, f)
  opendir_entry (DirectoryEntry.symlink _) f = (err enotdir, f)

  unfoldable pub opendir : ℕ → Handler
  unfolding get opendir_entry
  opendir ino f = (or_error einval (get ino f.inodes) >>= opendir_entry) f

  unfoldable pub getxattr : ℕ → Handler
  getxattr ino f = (err enotsup, f)

  unfoldable pub releasedir : ℕ → Handler
  unfolding get remove
  releasedir fh f =
      (or_error einval (get fh f.open_directories) >>= λ _ f.
      (ok Reply.done, record f { open_directories = remove fh f.open_directories }))
        f
