-- ===== src/Fuse/Readdir.antt =====
-- cdfs-fuse/src/bin/cdfs_fuse.rs: `ISOFuse::new` and the handler `readdir`.
pub mod Ends
pub mod Keeps
use iso9660_rs.Prelude.{
  ℕ, zero, suc, ◌+◌, ◌^◌, Bool, true, false, not, Option, none, some, List, [], ◌∷◌, ◌++◌, ltb,
  ◌==◌, ◌||◌, ◌&&◌, if◌then◌else◌, ℤ, pos, negsuc, replicate,
}
use iso9660_rs.Outcome.{Result, ok, err, panic, out_of_fuel, IsoError, unwrap}
use iso9660_rs.Outcome
use iso9660_rs.State.{M, ◌>>=◌, lift, pure}
use iso9660_rs.Crates.{Crates, Bytes}
use iso9660_rs.FileRef.{Iso9660Reader, block_size}
use iso9660_rs.HashMap.{get, insert}
use iso9660_rs.Text.{chars, str_eq}
use iso9660_rs.Entry.Attributes.{entry_attributes, inode, relocated}
use iso9660_rs.Entry.Directory.{DirState, read_entry_at}
use iso9660_rs.Entry.Find.{contents, next, rounds}
use iso9660_rs.Entry.Names.{identifier}
use iso9660_rs.Entry.Types.{IsoDirectory, DirectoryEntry}
use iso9660_rs.Fuse.Types.{
  DirItem, Reply, Errno, einval, enfile, IsoFuse, u64_max, entry_to_filetype,
}
use iso9660_rs.Fuse.Handlers.{or_error, u64_from}
use iso9660_rs.Iso.{Iso9660, root, is_rr}

-- `next_offset.map(i64::try_from).transpose()`, with -1 where there is no next offset.
fuse_offset : Option ℕ → Result Errno ℤ
fuse_offset none = ok (negsuc 0)
fuse_offset (some o) = if ltb o (2 ^ 63) then ok (pos o) else err einval

-- What a round of the loop leaves: the listing is finished, or goes on at an offset.
pub data Round (D T : Type 0) : Type 0 where
  stop : List DirItem → IsoFuse D T → Round D T
  again : List DirItem → ℕ → IsoFuse D T → Round D T

go_on : {D T : Type 0} → List DirItem → Option ℕ → IsoFuse D T → Round D T
go_on items none f = stop items f
go_on items (some offset) f = again items offset f

is_dots : {D : Type 0} → DirectoryEntry D → Bool
is_dots e = str_eq (identifier e) (chars ".") || str_eq (identifier e) (chars "..")

module _ (c : Crates) {T : Type 0} (reader : Iso9660Reader T) (fuel : ℕ)
    (full : List DirItem → DirItem → Bool) where
  abbrev D : Type 0
  D = c.time.OffsetDateTime

  -- One entry that was read: hidden where it is relocated, else added and remembered.
  list_entry : List DirItem → DirectoryEntry D → Option ℕ → IsoFuse D T → Result Errno (Round D T)
  unfolding fuse_offset go_on is_dots insert inode relocated entry_to_filetype identifier
  list_entry items e nxt f =
      if relocated entry_attributes e
      then ok (go_on items nxt f)
      else Outcome.◌>>=◌ (fuse_offset nxt) λ offset.
        Outcome.◌>>=◌
          (if f.inode_autogenerated then ok f.inode_number else unwrap (inode entry_attributes e))
          λ ino.
            let item : DirItem = record {
              ino = ino;
              offset = offset;
              kind = entry_to_filetype e;
              name = identifier e;
            } in
            if full items item
            then ok (stop items f)
            else ok (
                go_on (items ++ (item ∷ [])) nxt (record f {
                  inodes = if is_dots e then f.inodes else insert ino e f.inodes;
                  inode_number =
                      if f.inode_autogenerated then f.inode_number + 1 else f.inode_number;
                }))

  -- After `read_entry_at`; every error of it is EINVAL.
  listed :
      List DirItem
      → IsoFuse D T
      → Result IsoError (DirectoryEntry D × Option ℕ) × DirState T
      → Result Errno (Round D T)
  unfolding list_entry
  listed items f (ok (e, nxt), s) = list_entry items e nxt (record f { reader = s.reader })
  listed items f (err x, s) = err einval
  listed items f (panic, s) = panic
  listed items f (out_of_fuel, s) = out_of_fuel

  unfoldable pub readdir_loop :
      ℕ
      → IsoDirectory D
      → List DirItem
      → ℕ
      → Bytes
      → Option ℕ
      → IsoFuse D T
      → Result Errno (List DirItem) × IsoFuse D T
  unfolding listed
  readdir_loop zero dir items offset block block_num f = (out_of_fuel, f)
  readdir_loop (suc rounds) dir items offset block block_num f =
      let r =
        read_entry_at c reader fuel dir offset
          (record { block = block; block_num = block_num; reader = f.reader }) in
      let f' : IsoFuse D T = record f { reader = r.1.reader } in
      if f.inode_number == u64_max then (err enfile, f) else elim (listed items f r) [
        | ok (stop items' g) ↦ (ok items', g)
        | ok (again items' offset' g) ↦
            readdir_loop rounds dir items' offset' r.1.block r.1.block_num g
        | err e ↦ (err e, f')
        | panic ↦ (panic, f')
        | out_of_fuel ↦ (out_of_fuel, f')
      ]

  is_minus_one : ℤ → Bool
  is_minus_one (pos n) = false
  is_minus_one (negsuc n) = n == 0

  unfoldable pub readdir : ℕ → ℤ → M (IsoFuse D T) Errno (Reply c.time.SystemTime)
  unfolding get readdir_loop is_minus_one
  readdir fh offset f =
      (or_error einval (get fh f.open_directories) >>= λ dir.
      if is_minus_one offset
      then pure Reply.done
      else (or_error einval (u64_from offset) >>= λ offset.
          readdir_loop (rounds c reader fuel dir) dir [] offset (replicate block_size 0) none
          >>= λ items. pure (Reply.listing items)))
        f

  -- `root.contents().next().unwrap().unwrap()`
  first_entry : Option (Result IsoError (DirectoryEntry D)) → Result IsoError (DirectoryEntry D)
  first_entry none = panic
  first_entry (some (ok e)) = ok e
  first_entry (some (err e)) = panic
  first_entry (some panic) = panic
  first_entry (some out_of_fuel) = out_of_fuel

  has_inode : DirectoryEntry D → Bool
  unfolding inode
  has_inode e = elim (inode entry_attributes e) [ none ↦ false | some i ↦ true ]

  -- `ISOFuse::new` for an image that is open. `is_rr` is asked again for the inode numbers, and the
  -- root's own number is 1.
  unfoldable pub new : Iso9660 D → M T IsoError (IsoFuse D T)
  unfolding root first_entry has_inode is_rr insert
  new iso t =
      (root c reader fuel iso >>= λ dir t.
      let (item, it) = next c reader fuel dir (contents c reader fuel t) in
      (lift (first_entry item) >>= λ slashdot. is_rr c reader fuel iso >>= λ rr t. (
        ok (record {
          inodes = insert 1 (DirectoryEntry.directory dir) [];
          inode_number = 2;
          inode_autogenerated = not (rr && has_inode slashdot);
          directory_number = 0;
          file_number = 0;
          open_directories = [];
          open_files = [];
          reader = t;
        }),
        t,
      ))
        it.state.reader)
        t
