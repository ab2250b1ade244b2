-- ===== src/Fuse/Types/Attributes.antt =====
-- `get_fileattr` of cdfs-fuse/src/bin/cdfs_fuse.rs: the attributes of an entry.
use iso9660_rs.Prelude.{
  ℕ, ◌+◌, ◌*◌, ◌/◌, ◌^◌, ◌≤◌, ◌<◌, ◌≡◌, refl, ap, Option, none, some, arith, bit_and,
}
use iso9660_rs.Outcome.{ok}
use iso9660_rs.Crates.{Crates}
use iso9660_rs.Crates.Documented.{IsCrates, by_documentation}
use iso9660_rs.FileRef.{block_size}
use iso9660_rs.Machine.{fit, sub_word}
use iso9660_rs.Machine.Masks.{bit_and_le}
use iso9660_rs.Parse.Susp.Flags.{all_permissions}
use iso9660_rs.Parse.Susp.Mode.{u16_from}
use iso9660_rs.Entry.Attributes.{
  entry_attributes, entry_ext, entry_header, mode, access_time, modify_time, attribute_change_time,
  create_time, owner, group,
}
use iso9660_rs.Entry.Types.{DirectoryEntry}
use iso9660_rs.Fuse.Types.{
  FileAttr, FileType, default_perm, perm_of, get_fileattr, entry_to_filetype,
}
use mathlib.Core.Option.{get_or}

-- The kind that an entry is shown as.
abbrev pub kind_of : {D : Type 0} → DirectoryEntry D → FileType
kind_of (DirectoryEntry.directory dir) = FileType.directory
kind_of (DirectoryEntry.file f) = FileType.regular_file
kind_of (DirectoryEntry.symlink link) = FileType.symlink

entry_to_filetype-kind_of : {D : Type 0} (e : DirectoryEntry D) → entry_to_filetype e ≡ kind_of e
unfolding entry_to_filetype
entry_to_filetype-kind_of (DirectoryEntry.directory dir) = refl
entry_to_filetype-kind_of (DirectoryEntry.file f) = refl
entry_to_filetype-kind_of (DirectoryEntry.symlink link) = refl

-- Where the conversion to `u16` keeps the permissions, it cannot fail.
u16_from-bits :
    (c : Crates)
    → IsCrates c
    → {E : Type 0} (bits : ℕ) → u16_from c {E = E} bits ≡ ok (bit_and bits all_permissions)
unfolding u16_from
u16_from-bits c d {E} bits =
    by_documentation c (λ c. u16_from c {E = E} bits ≡ ok (bit_and bits all_permissions)) d
      (ground (arith, bit_and_le bits all_permissions))

module _ (c : Crates) (euid egid : ℕ) where
  -- The permissions that an entry is shown with: those of its mode, or the default of its kind.
  abbrev pub shown_perm : Option ℕ → FileType → ℕ
  shown_perm (some bits) kind = bit_and bits 0o6777
  shown_perm none FileType.directory = 0o555
  shown_perm none FileType.regular_file = 0o444
  shown_perm none FileType.symlink = 0o444

  -- A time that an entry is shown with: its own of this kind, or that of its record.
  abbrev pub shown_time :
      Option c.time.OffsetDateTime → DirectoryEntry c.time.OffsetDateTime → c.time.SystemTime
  shown_time (some t) e = c.time.into_system_time t
  shown_time none e = c.time.into_system_time (entry_header e).time

  time-shown :
      (o : Option c.time.OffsetDateTime) (e : DirectoryEntry c.time.OffsetDateTime)
      → c.time.into_system_time (get_or o (entry_header e).time) ≡ shown_time o e
  time-shown (some t) e = refl
  time-shown none e = refl

  perm_of-shown :
      IsCrates c
      → {E : Type 0} (o : Option ℕ) (kind : FileType)
      → perm_of c euid egid {E = E} o kind ≡ ok (shown_perm o kind)
  unfolding perm_of default_perm
  perm_of-shown d (some bits) kind = u16_from-bits c d bits
  perm_of-shown d none FileType.directory = refl
  perm_of-shown d none FileType.regular_file = refl
  perm_of-shown d none FileType.symlink = refl

  -- Up to a size of 2 ^ 32 - 2049 the attributes of an entry are always given: its size, the number
  -- of blocks that hold it and not one more, its kind, the permissions of its mode or the default of
  -- its kind, and each of the four times from its own time stamp, where there is one, or else from
  -- the time of its record.
  pub get_fileattr_lem :
      IsCrates c
      → {E : Type 0} (ino : ℕ) (e : DirectoryEntry c.time.OffsetDateTime)
      → (entry_header e).extent_length + block_size < 2 ^ 32
      → (attr : FileAttr c.time.SystemTime) × (get_fileattr c euid egid {E = E} ino e ≡ ok attr)
        × (attr.ino ≡ ino)
        × (attr.size ≡ (entry_header e).extent_length)
        × (attr.size ≤ attr.blocks * block_size)
        × (attr.blocks * block_size < attr.size + block_size)
        × (attr.perm ≡ shown_perm (mode entry_attributes e) (kind_of e))
        × (attr.kind ≡ kind_of e)
        × (attr.atime ≡ shown_time (entry_ext e).timestamps.access e)
        × (attr.mtime ≡ shown_time (entry_ext e).timestamps.modify e)
        × (attr.ctime ≡ shown_time (entry_ext e).timestamps.attributes e)
        × (attr.crtime ≡ shown_time (entry_ext e).timestamps.creation e)
  unfolding get_fileattr
  get_fileattr_lem d {E} ino e h =
      let size = (entry_header e).extent_length in
      let sum : fit c {E = E} (2 ^ 32) (size + block_size) ≡ ok (size + block_size) =
        unfold fit in ground arith in
      let len : sub_word c {E = E} (2 ^ 32) (size + block_size) 1 ≡ ok (size + 2047) =
        unfold sub_word in ground arith in
      let perm = perm_of-shown d {E = E} (mode entry_attributes e) (entry_to_filetype e) in
      let attr : FileAttr c.time.SystemTime = record {
        ino = ino;
        size = size;
        blocks = (size + 2047) / block_size;
        atime = c.time.into_system_time (access_time entry_attributes e);
        mtime = c.time.into_system_time (modify_time entry_attributes e);
        ctime = c.time.into_system_time (attribute_change_time entry_attributes e);
        crtime = c.time.into_system_time (create_time entry_attributes e);
        kind = entry_to_filetype e;
        perm = shown_perm (mode entry_attributes e) (entry_to_filetype e);
        nlink = 1;
        uid = get_or (owner entry_attributes e) euid;
        gid = get_or (group entry_attributes e) egid;
        rdev = 0;
        flags = 0;
        blksize = block_size;
      } in
      (
        attr,
        rw (sum, len, perm) refl,
        refl,
        refl,
        omega arith,
        omega arith,
        ap (shown_perm (mode entry_attributes e)) (entry_to_filetype-kind_of e),
        entry_to_filetype-kind_of e,
        time-shown (entry_ext e).timestamps.access e,
        time-shown (entry_ext e).timestamps.modify e,
        time-shown (entry_ext e).timestamps.attributes e,
        time-shown (entry_ext e).timestamps.creation e,
      )
