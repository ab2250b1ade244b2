-- ===== src/Fuse/Handlers/Release.antt =====
-- The handlers `release` and `read` of cdfs-fuse/src/bin/cdfs_fuse.rs together.
use iso9660_rs.Prelude.{ℕ, ◌≡◌, Bool, true, none, some, List, ◌==◌, if◌then◌else◌, arith, pos}
use iso9660_rs.Outcome.{ok, err}
use iso9660_rs.Crates.{Crates}
use iso9660_rs.FileRef.{Iso9660Reader}
use iso9660_rs.HashMap.{get, remove, get-remove}
use iso9660_rs.Entry.Reader.{IsoFileReader}
use iso9660_rs.Fuse.Types.{DirItem, Reply, IsoFuse, einval}
use iso9660_rs.Fuse.Handlers.{release, read_file}

module _ (c : Crates) {T : Type 0} (reader : Iso9660Reader T) (fuel euid egid : ℕ)
    (full : List DirItem → DirItem → Bool) where
  abbrev D : Type 0
  D = c.time.OffsetDateTime

  -- The state after `release`.
  abbrev pub released_state : ℕ → IsoFuse D T → IsoFuse D T
  released_state fh f = record f { open_files = remove fh f.open_files }

  -- Releasing a handle that is in use succeeds and forgets this handle alone: from then on reading
  -- through it and releasing it again are refused with EINVAL and change nothing.
  pub release_lem :
      (f : IsoFuse D T) (fh : ℕ) (file : IsoFileReader)
      → get fh f.open_files ≡ some file
      → (release c reader fuel euid egid full fh f ≡ (ok Reply.done, released_state fh f))
        × (release c reader fuel euid egid full fh (released_state fh f)
            ≡ (err einval, released_state fh f))
        × ((offset n : ℕ)
            → read_file c reader fuel euid egid full fh (pos offset) n (released_state fh f)
              ≡ (err einval, released_state fh f))
        × ((j : ℕ)
            → get j (released_state fh f).open_files
              ≡ (if fh == j then none else get j f.open_files))
  unfolding release read_file
  release_lem f fh file h = (rw h, rw gone, λ offset n. rw gone, λ j. get-remove fh j f.open_files)
    where
      gone : get fh (remove fh f.open_files) ≡ none
      gone = let same : (fh == fh) ≡ true = ground arith in rw (get-remove fh fh f.open_files, same)
