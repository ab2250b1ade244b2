-- ===== src/Fuse/Handlers/Keeps.antt =====
-- The handlers of cdfs-fuse/src/bin/cdfs_fuse.rs but `readdir` keep the numbers apart.
use iso9660_rs.Prelude.{
  ℕ, ◌<◌, ◌≢◌, Bool, false, Bool-cases, inl, inr, Option, none, some, List, ◌==◌, if◌then◌else◌, ℤ,
}
use iso9660_rs.Outcome.{Result, ok, err, panic, out_of_fuel, IoError, IsoError, unwrap}
use iso9660_rs.Crates.{Crates, Str}
use iso9660_rs.FileRef.{Iso9660Reader}
use iso9660_rs.HashMap.{get, insert, remove}
use iso9660_rs.Entry.Attributes.{entry_attributes, inode}
use iso9660_rs.Entry.Find.{find}
use iso9660_rs.Entry.Reader.{IsoFileReader, open_reader, read, SeekFrom, seek}
use iso9660_rs.Entry.Types.{DirectoryEntry}
use iso9660_rs.Fuse.Types.{DirItem, Errno, IsoFuse, u64_max, einval, get_fileattr}
use iso9660_rs.Fuse.Handlers.{
  u64_from, add_found, found_in, lookup_in, lookup, forget, getattr, link_target, readlink,
  open_entry, open_file, put_back, read_at_offset, read_file, release, opendir_entry, opendir,
  releasedir,
}
use iso9660_rs.Fuse.Requests.Handles.{
  IsConsistent, Unused-insert, Unused-remove, below, IsConsistent-reader, IsConsistent-files,
  IsConsistent-open, IsConsistent-directories, IsConsistent-opendir, IsConsistent-forget,
  IsConsistent-name, not_max, continue-IsConsistent, or_error-IsConsistent,
}

module _ (c : Crates) {T : Type 0} (reader : Iso9660Reader T) (fuel : ℕ) (euid egid : ℕ)
    (full : List DirItem → DirItem → Bool) where
  abbrev D : Type 0
  D = c.time.OffsetDateTime

  add_found-IsConsistent :
      (e : DirectoryEntry D) (f : IsoFuse D T)
      → f.inode_number ≢ u64_max
      → IsConsistent f
      → IsConsistent (add_found c reader fuel euid egid full e f).1
  unfolding add_found
  add_found-IsConsistent e f ne h =
      let o = unwrap {E = Errno} (inode entry_attributes e) in
      continue-IsConsistent _ ((if f.inode_autogenerated then ok f.inode_number else o), f) h
        λ ino q.
          continue-IsConsistent _ (get_fileattr c euid egid ino e, f) h
            λ attr _. IsConsistent-name f ino e false o q ne h

  found_in-IsConsistent :
      (r : Result IsoError (Option (DirectoryEntry D)) × IsoFuse D T)
      → r.1.inode_number ≢ u64_max
      → IsConsistent r.1
      → IsConsistent (found_in c reader fuel euid egid full r).1
  unfolding found_in
  found_in-IsConsistent (ok (some e), f) ne h = add_found-IsConsistent e f ne h
  found_in-IsConsistent (ok none, f) ne h = h
  found_in-IsConsistent (err x, f) ne h = h
  found_in-IsConsistent (panic, f) ne h = h
  found_in-IsConsistent (out_of_fuel, f) ne h = h

  lookup_in-IsConsistent :
      (e : DirectoryEntry D) (name : Option Str) (f : IsoFuse D T)
      → IsConsistent f
      → IsConsistent (lookup_in c reader fuel euid egid full e name f).1
  unfolding lookup_in
  lookup_in-IsConsistent (DirectoryEntry.directory dir) none f h =
      elim (Bool-cases (f.inode_number == u64_max)) [ inl m ↦ rw m h | inr m ↦ rw m h ]
  lookup_in-IsConsistent (DirectoryEntry.directory dir) (some n) f h =
      let (r, t) = find c reader fuel dir n f.reader in
      elim (Bool-cases (f.inode_number == u64_max)) [
        | inl m ↦ rw m h
        | inr m ↦ rw m (
            found_in-IsConsistent (r, record f { reader = t }) (not_max f.inode_number m)
              (IsConsistent-reader f t h))
      ]
  lookup_in-IsConsistent (DirectoryEntry.file _) name f h = h
  lookup_in-IsConsistent (DirectoryEntry.symlink _) name f h = h

  pub lookup-IsConsistent :
      (parent : ℕ) (name : Option Str) (f : IsoFuse D T)
      → IsConsistent f
      → IsConsistent (lookup c reader fuel euid egid full parent name f).1
  unfolding lookup
  lookup-IsConsistent parent name f h =
      or_error-IsConsistent einval (get parent f.inodes) _ f h
        λ e _. lookup_in-IsConsistent e name f h

  pub forget-IsConsistent :
      (ino : ℕ) (f : IsoFuse D T)
      → IsConsistent f
      → IsConsistent (forget c reader fuel euid egid full ino f)
  unfolding forget
  forget-IsConsistent ino f h = IsConsistent-forget f ino h

  pub getattr-IsConsistent :
      (ino : ℕ) (f : IsoFuse D T)
      → IsConsistent f
      → IsConsistent (getattr c reader fuel euid egid full ino f).1
  unfolding getattr
  getattr-IsConsistent ino f h =
      or_error-IsConsistent einval (get ino f.inodes) _ f h
        λ e _. continue-IsConsistent _ (get_fileattr c euid egid ino e, f) h λ attr _. h

  pub readlink-IsConsistent :
      (ino : ℕ) (f : IsoFuse D T)
      → IsConsistent f
      → IsConsistent (readlink c reader fuel euid egid full ino f).1
  unfolding readlink
  readlink-IsConsistent ino f h = or_error-IsConsistent einval (get ino f.inodes) _ f h λ e _.
      or_error-IsConsistent einval (link_target c reader fuel euid egid full e) _ f h λ target _. h

  open_entry-IsConsistent :
      (e : DirectoryEntry D) (f : IsoFuse D T)
      → IsConsistent f
      → IsConsistent (open_entry c reader fuel euid egid full e f).1
  unfolding open_entry
  open_entry-IsConsistent (DirectoryEntry.file file) f h =
      elim (Bool-cases (f.file_number == u64_max)) [
        | inl m ↦ rw m h
        | inr m ↦ rw m (IsConsistent-open f (open_reader file) (not_max f.file_number m) h)
      ]
  open_entry-IsConsistent (DirectoryEntry.directory _) f h = h
  open_entry-IsConsistent (DirectoryEntry.symlink _) f h = h

  pub open_file-IsConsistent :
      (ino : ℕ) (f : IsoFuse D T)
      → IsConsistent f
      → IsConsistent (open_file c reader fuel euid egid full ino f).1
  unfolding open_file
  open_file-IsConsistent ino f h =
      or_error-IsConsistent einval (get ino f.inodes) _ f h λ e _. open_entry-IsConsistent e f h

  opendir_entry-IsConsistent :
      (e : DirectoryEntry D) (f : IsoFuse D T)
      → IsConsistent f
      → IsConsistent (opendir_entry c reader fuel euid egid full e f).1
  unfolding opendir_entry
  opendir_entry-IsConsistent (DirectoryEntry.directory dir) f h =
      elim (Bool-cases (f.directory_number == u64_max)) [
        | inl m ↦ rw m h
        | inr m ↦ rw m (IsConsistent-opendir f dir (not_max f.directory_number m) h)
      ]
  opendir_entry-IsConsistent (DirectoryEntry.file _) f h = h
  opendir_entry-IsConsistent (DirectoryEntry.symlink _) f h = h

  pub opendir-IsConsistent :
      (ino : ℕ) (f : IsoFuse D T)
      → IsConsistent f
      → IsConsistent (opendir c reader fuel euid egid full ino f).1
  unfolding opendir
  opendir-IsConsistent ino f h =
      or_error-IsConsistent einval (get ino f.inodes) _ f h λ e _. opendir_entry-IsConsistent e f h

  pub release-IsConsistent :
      (fh : ℕ) (f : IsoFuse D T)
      → IsConsistent f
      → IsConsistent (release c reader fuel euid egid full fh f).1
  unfolding release
  release-IsConsistent fh f h = or_error-IsConsistent einval (get fh f.open_files) _ f h λ file _.
      IsConsistent-files f (remove fh f.open_files)
        (Unused-remove f.file_number fh f.open_files h.files) h

  pub releasedir-IsConsistent :
      (fh : ℕ) (f : IsoFuse D T)
      → IsConsistent f
      → IsConsistent (releasedir c reader fuel euid egid full fh f).1
  unfolding releasedir
  releasedir-IsConsistent fh f h =
      or_error-IsConsistent einval (get fh f.open_directories) _ f h λ dir _.
        IsConsistent-directories f (remove fh f.open_directories)
          (Unused-remove f.directory_number fh f.open_directories h.directories) h

  put_back-IsConsistent :
      {A : Type 0} (f : IsoFuse D T) (fh : ℕ) (r : Result IoError A × (IsoFileReader × T))
      → fh < f.file_number
      → IsConsistent f
      → IsConsistent (put_back c reader fuel euid egid full f fh r).1
  put_back-IsConsistent f fh (r, (file, t)) lt h =
      IsConsistent-reader (record f { open_files = insert fh file f.open_files }) t
        (IsConsistent-files f (insert fh file f.open_files)
          (Unused-insert f.file_number fh file f.open_files lt h.files) h)

  read_at_offset-IsConsistent :
      (fh offset size : ℕ) (file : IsoFileReader) (f : IsoFuse D T)
      → fh < f.file_number
      → IsConsistent f
      → IsConsistent (read_at_offset c reader fuel euid egid full fh offset size file f).1
  unfolding read_at_offset
  read_at_offset-IsConsistent fh offset size file f lt h =
      let (r, file') = seek c (SeekFrom.start offset) file in
      let h₁ = put_back-IsConsistent f fh (r, (file', f.reader)) lt h in
      let f₁ : IsoFuse D T =
        (put_back c reader fuel euid egid full f fh (r, (file', f.reader))).1 in
      let h₂ = put_back-IsConsistent f₁ fh (read reader size (file', f₁.reader)) lt h₁ in
      continue-IsConsistent _ (put_back c reader fuel euid egid full f fh (r, (file', f.reader))) h₁
        λ a _.
          continue-IsConsistent _
            (put_back c reader fuel euid egid full f₁ fh (read reader size (file', f₁.reader))) h₂
            λ out _. h₂

  pub read_file-IsConsistent :
      (fh : ℕ) (offset : ℤ) (size : ℕ) (f : IsoFuse D T)
      → IsConsistent f
      → IsConsistent (read_file c reader fuel euid egid full fh offset size f).1
  unfolding read_file
  read_file-IsConsistent fh offset size f h =
      or_error-IsConsistent einval (u64_from offset) _ f h λ o _.
        or_error-IsConsistent einval (get fh f.open_files) _ f h λ file e.
          read_at_offset-IsConsistent fh o size file f
            (below f.file_number fh file f.open_files h.files e) h
