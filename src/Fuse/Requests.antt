-- ===== src/Fuse/Requests.antt =====
-- The requests that the kernel sends, in whatever order: cdfs-fuse/src/bin/cdfs_fuse.rs as a relation
-- between the states before and after a handler of the trait `Filesystem`, whatever it replies.
pub mod Handles
pub mod Invariant
use iso9660_rs.Prelude.{ℕ, ◌≡◌, Bool, Option, List, ℤ}
use iso9660_rs.Outcome.{ok}
use iso9660_rs.Crates.{Crates, Str}
use iso9660_rs.FileRef.{Iso9660Reader}
use iso9660_rs.Iso.{Iso9660}
use iso9660_rs.Fuse.Types.{DirItem, IsoFuse}
use iso9660_rs.Fuse.Handlers.{
  lookup, forget, getattr, readlink, open_file, read_file, release, opendir, getxattr, releasedir,
}
use iso9660_rs.Fuse.Readdir.{readdir, new}

module _ (c : Crates) {T : Type 0} (reader : Iso9660Reader T) (fuel : ℕ) (euid egid : ℕ)
    (full : List DirItem → DirItem → Bool) where
  abbrev D : Type 0
  D = c.time.OffsetDateTime

  pub data Request (f g : IsoFuse D T) : Type 0 where
    looks_up :
        (parent : ℕ) (name : Option Str)
        → g ≡ (lookup c reader fuel euid egid full parent name f).1
        → Request f g
    forgets : (ino : ℕ) → g ≡ forget c reader fuel euid egid full ino f → Request f g
    gets_attr : (ino : ℕ) → g ≡ (getattr c reader fuel euid egid full ino f).1 → Request f g
    reads_link : (ino : ℕ) → g ≡ (readlink c reader fuel euid egid full ino f).1 → Request f g
    opens : (ino : ℕ) → g ≡ (open_file c reader fuel euid egid full ino f).1 → Request f g
    reads :
        (fh : ℕ) (offset : ℤ) (size : ℕ)
        → g ≡ (read_file c reader fuel euid egid full fh offset size f).1
        → Request f g
    releases : (fh : ℕ) → g ≡ (release c reader fuel euid egid full fh f).1 → Request f g
    opens_dir : (ino : ℕ) → g ≡ (opendir c reader fuel euid egid full ino f).1 → Request f g
    gets_xattr : (ino : ℕ) → g ≡ (getxattr c reader fuel euid egid full ino f).1 → Request f g
    reads_dir : (fh : ℕ) (offset : ℤ) → g ≡ (readdir c reader fuel full fh offset f).1 → Request f g
    releases_dir : (fh : ℕ) → g ≡ (releasedir c reader fuel euid egid full fh f).1 → Request f g

  -- The states that a mounted image can get into.
  pub data Reaches (iso : Iso9660 D) (t : T) : IsoFuse D T → Type 0 where
    mounted :
        {f : IsoFuse D T} (t' : T) → new c reader fuel full iso t ≡ (ok f, t') → Reaches iso t f
    after : {f g : IsoFuse D T} → Reaches iso t f → Request f g → Reaches iso t g
