-- ===== src/Fuse/Requests/Invariant.antt =====
-- What holds of every state that requests lead to, in cdfs-fuse/src/bin/cdfs_fuse.rs.
use iso9660_rs.Prelude.{ℕ, ◌≡◌, sym, subst, List, Bool}
use iso9660_rs.State.Ensures.{Ensures-elim}
use iso9660_rs.Crates.{Crates}
use iso9660_rs.FileRef.{Iso9660Reader}
use iso9660_rs.Iso.{Iso9660}
use iso9660_rs.Fuse.Types.{DirItem, IsoFuse}
use iso9660_rs.Fuse.Readdir.{new}
use iso9660_rs.Fuse.Handlers.{getxattr}
use iso9660_rs.Fuse.Handlers.Keeps.{
  lookup-IsConsistent, forget-IsConsistent, getattr-IsConsistent, readlink-IsConsistent,
  open_file-IsConsistent, read_file-IsConsistent, release-IsConsistent, opendir-IsConsistent,
  releasedir-IsConsistent,
}
use iso9660_rs.Fuse.Readdir.Keeps.{readdir-IsConsistent, new-IsConsistent}
use iso9660_rs.Fuse.Requests.{
  Request, Reaches, looks_up, forgets, gets_attr, reads_link, opens, reads, releases, opens_dir,
  gets_xattr, reads_dir, releases_dir, mounted, after,
}
use iso9660_rs.Fuse.Requests.Handles.{IsConsistent}

module _ (c : Crates) {T : Type 0} (reader : Iso9660Reader T) (fuel : ℕ) (euid egid : ℕ)
    (full : List DirItem → DirItem → Bool) where
  abbrev D : Type 0
  D = c.time.OffsetDateTime

  kept : (g g' : IsoFuse D T) → g ≡ g' → IsConsistent g' → IsConsistent g
  kept g g' e h = subst IsConsistent (sym e) h

  Request-IsConsistent :
      (f g : IsoFuse D T)
      → Request c reader fuel euid egid full f g
      → IsConsistent f
      → IsConsistent g
  unfolding getxattr
  Request-IsConsistent f g (looks_up parent name e) h =
      kept g _ e (lookup-IsConsistent c reader fuel euid egid full parent name f h)
  Request-IsConsistent f g (forgets ino e) h =
      kept g _ e (forget-IsConsistent c reader fuel euid egid full ino f h)
  Request-IsConsistent f g (gets_attr ino e) h =
      kept g _ e (getattr-IsConsistent c reader fuel euid egid full ino f h)
  Request-IsConsistent f g (reads_link ino e) h =
      kept g _ e (readlink-IsConsistent c reader fuel euid egid full ino f h)
  Request-IsConsistent f g (opens ino e) h =
      kept g _ e (open_file-IsConsistent c reader fuel euid egid full ino f h)
  Request-IsConsistent f g (reads fh offset size e) h =
      kept g _ e (read_file-IsConsistent c reader fuel euid egid full fh offset size f h)
  Request-IsConsistent f g (releases fh e) h =
      kept g _ e (release-IsConsistent c reader fuel euid egid full fh f h)
  Request-IsConsistent f g (opens_dir ino e) h =
      kept g _ e (opendir-IsConsistent c reader fuel euid egid full ino f h)
  Request-IsConsistent f g (gets_xattr ino e) h = kept g f e h
  Request-IsConsistent f g (reads_dir fh offset e) h =
      kept g _ e (readdir-IsConsistent c reader fuel full fh offset f h)
  Request-IsConsistent f g (releases_dir fh e) h =
      kept g _ e (releasedir-IsConsistent c reader fuel euid egid full fh f h)

  -- After any requests in any order, whatever was replied to them, the next file handle and the next
  -- directory handle are not in use, nor is any later one; so too the next inode number where the
  -- file system makes them up; and no counter has left `u64`.
  pub Reaches-IsConsistent :
      (iso : Iso9660 D) (t : T) (f : IsoFuse D T)
      → Reaches c reader fuel euid egid full iso t f
      → IsConsistent f
  Reaches-IsConsistent iso t f (mounted t' e) =
      Ensures-elim (λ (f : IsoFuse D T) _. IsConsistent f) (new c reader fuel full iso t) f t'
        (new-IsConsistent c reader fuel full iso t) e
  Reaches-IsConsistent iso t f (after {f = before} r step) =
      Request-IsConsistent before f step (Reaches-IsConsistent iso t before r)
