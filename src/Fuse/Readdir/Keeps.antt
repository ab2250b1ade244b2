-- ===== src/Fuse/Readdir/Keeps.antt =====
-- `ISOFuse::new` and `readdir` of cdfs-fuse/src/bin/cdfs_fuse.rs keep the numbers apart.
use iso9660_rs.Prelude.{
  ℕ, zero, suc, ◌≡◌, ◌≢◌, refl, Bool, true, false, not, ◌&&◌, Bool-cases, inl, inr, Option, none,
  some, List, [], ◌∷◌, ◌++◌, ◌==◌, if◌then◌else◌, arith, ℤ, replicate,
}
use iso9660_rs.Outcome.{Result, ok, err, panic, out_of_fuel, IsoError, unwrap}
use iso9660_rs.Outcome
use iso9660_rs.Crates.{Crates, Bytes}
use iso9660_rs.FileRef.{Iso9660Reader, block_size}
use iso9660_rs.HashMap.{get, insert, get-insert}
use iso9660_rs.Entry.Attributes.{entry_attributes, inode, relocated}
use iso9660_rs.Entry.Directory.{DirState, read_entry_at}
use iso9660_rs.Entry.Find.{rounds, contents, next}
use iso9660_rs.Iso.{Iso9660, root, is_rr}
use iso9660_rs.State.Ensures.{Ensures, Ensures-bind, Ensures-lift, Ensures-pure}
use iso9660_rs.Entry.Types.{IsoDirectory, DirectoryEntry}
use iso9660_rs.Fuse.Types.{DirItem, Errno, IsoFuse, u64_max, einval, entry_to_filetype}
use iso9660_rs.Entry.Names.{identifier}
use iso9660_rs.Fuse.Handlers.{u64_from}
use iso9660_rs.Fuse.Readdir.{
  Round, stop, again, go_on, is_dots, fuse_offset, list_entry, listed, readdir_loop, is_minus_one,
  readdir, first_entry, has_inode, new,
}
use iso9660_rs.Fuse.Requests.Handles.{
  IsConsistent, IsConsistent-reader, IsConsistent-name, not_max, continue-IsConsistent,
  or_error-IsConsistent,
}

-- What a round leaves, where it leaves something.
abbrev Leaves : {D T : Type 0} → Result Errno (Round D T) → Type 0
Leaves (ok (stop items g)) = IsConsistent g
Leaves (ok (again items o g)) = IsConsistent g
Leaves (err e) = Unit {0}
Leaves panic = Unit {0}
Leaves out_of_fuel = Unit {0}

go_on-Leaves :
    {D T : Type 0} (items : List DirItem) (nxt : Option ℕ) (f : IsoFuse D T)
    → IsConsistent f
    → Leaves (ok (go_on items nxt f))
unfolding go_on
go_on-Leaves items none f h = h
go_on-Leaves items (some o) f h = h

if-Leaves :
    {D T : Type 0} (b : Bool) (x y : Result Errno (Round D T))
    → Leaves x
    → Leaves y
    → Leaves (if b then x else y)
if-Leaves true x y h k = h
if-Leaves false x y h k = k

bind-Leaves :
    {D T A : Type 0} (r : Result Errno A) (k : A → Result Errno (Round D T))
    → ((a : A) → r ≡ ok a → Leaves (k a))
    → Leaves (Outcome.◌>>=◌ r k)
bind-Leaves (ok a) k h = h a refl
bind-Leaves (err e) k h = tt
bind-Leaves panic k h = tt
bind-Leaves out_of_fuel k h = tt

module _ (c : Crates) {T : Type 0} (reader : Iso9660Reader T) (fuel : ℕ)
    (full : List DirItem → DirItem → Bool) where
  abbrev D : Type 0
  D = c.time.OffsetDateTime

  list_entry-Leaves :
      (items : List DirItem) (e : DirectoryEntry D) (nxt : Option ℕ) (f : IsoFuse D T)
      → f.inode_number ≢ u64_max
      → IsConsistent f
      → Leaves (list_entry c reader fuel full items e nxt f)
  unfolding list_entry
  list_entry-Leaves items e nxt f ne h =
      if-Leaves (relocated entry_attributes e) (ok (go_on items nxt f)) _
        (go_on-Leaves items nxt f h)
        (bind-Leaves (fuse_offset nxt) _ λ o _.
          bind-Leaves
            (if f.inode_autogenerated then ok f.inode_number else unwrap (inode entry_attributes e))
            _
            λ ino q.
              let item : DirItem = record {
                ino = ino;
                offset = o;
                kind = entry_to_filetype e;
                name = identifier e;
              } in
              if-Leaves (full items item) (ok (stop items f)) _ h (
                go_on-Leaves (items ++ (item ∷ [])) nxt _ (
                  IsConsistent-name f ino e (is_dots e) (unwrap (inode entry_attributes e)) q ne
                    h)))

  listed-Leaves :
      (items : List DirItem) (f : IsoFuse D T)
      (r : Result IsoError (DirectoryEntry D × Option ℕ) × DirState T)
      → f.inode_number ≢ u64_max
      → IsConsistent f
      → Leaves (listed c reader fuel full items f r)
  unfolding listed
  listed-Leaves items f (ok (e, nxt), s) ne h =
      list_entry-Leaves items e nxt (record f { reader = s.reader }) ne
        (IsConsistent-reader f s.reader h)
  listed-Leaves items f (err x, s) ne h = tt
  listed-Leaves items f (panic, s) ne h = tt
  listed-Leaves items f (out_of_fuel, s) ne h = tt

  readdir_loop-IsConsistent :
      (n : ℕ) (dir : IsoDirectory D) (items : List DirItem) (o : ℕ) (block : Bytes) (num : Option ℕ)
      (f : IsoFuse D T)
      → IsConsistent f
      → IsConsistent (readdir_loop c reader fuel full n dir items o block num f).1
  unfolding readdir_loop
  readdir_loop-IsConsistent zero dir items o block num f h = h
  readdir_loop-IsConsistent (suc n) dir items o block num f h =
      let r =
        read_entry_at c reader fuel dir o
          (record { block = block; block_num = num; reader = f.reader }) in
      elim (Bool-cases (f.inode_number == u64_max)) [
        | inl m ↦ rw m h
        | inr m ↦ rw m (
            go r.1 (listed c reader fuel full items f r)
              (listed-Leaves items f r (not_max f.inode_number m) h)
              (λ items' o' g h'.
                readdir_loop-IsConsistent n dir items' o' r.1.block r.1.block_num g h'))
      ]
    where
      go :
          (s : DirState T) (l : Result Errno (Round D T))
          → Leaves l
          → ((items' : List DirItem) (o' : ℕ) (g : IsoFuse D T)
              → IsConsistent g
              → IsConsistent
                  (readdir_loop c reader fuel full n dir items' o' s.block s.block_num g).1)
          → IsConsistent (
              let out : Result Errno (List DirItem) × IsoFuse D T = elim l [
                | ok (stop items' g) ↦ (ok items', g)
                | ok (again items' offset' g) ↦
                    readdir_loop c reader fuel full n dir items' offset' s.block s.block_num g
                | err e ↦ (err e, record f { reader = s.reader })
                | panic ↦ (panic, record f { reader = s.reader })
                | out_of_fuel ↦ (out_of_fuel, record f { reader = s.reader })
              ] in
              out.1)
      go s (ok (stop items' g)) l ih = l
      go s (ok (again items' o' g)) l ih = ih items' o' g l
      go s (err e) l ih = IsConsistent-reader f s.reader h
      go s panic l ih = IsConsistent-reader f s.reader h
      go s out_of_fuel l ih = IsConsistent-reader f s.reader h

  pub readdir-IsConsistent :
      (fh : ℕ) (offset : ℤ) (f : IsoFuse D T)
      → IsConsistent f
      → IsConsistent (readdir c reader fuel full fh offset f).1
  unfolding readdir
  readdir-IsConsistent fh offset f h =
      or_error-IsConsistent einval (get fh f.open_directories) _ f h λ dir _.
        elim (Bool-cases (is_minus_one c reader fuel full offset)) [
          | inl m ↦ rw m h
          | inr m ↦ rw m (
              or_error-IsConsistent einval (u64_from offset) _ f h λ o _.
                let k =
                  readdir_loop-IsConsistent (rounds c reader fuel dir) dir [] o
                    (replicate block_size 0) none f h in
                continue-IsConsistent _
                  (readdir_loop c reader fuel full (rounds c reader fuel dir) dir [] o
                    (replicate block_size 0) none f)
                  k λ items _. k)
        ]

  fresh :
      (dir : IsoDirectory D) (auto : Bool) (t : T)
      → IsConsistent {D = D} (record {
        inodes = insert 1 (DirectoryEntry.directory dir) [];
        inode_number = 2;
        inode_autogenerated = auto;
        directory_number = 0;
        file_number = 0;
        open_directories = [];
        open_files = [];
        reader = t;
      })
  unfolding get
  fresh dir auto t = record {
    files = λ k le. refl;
    directories = λ k le. refl;
    inodes = λ a k le.
        let other : (1 == k) ≡ false = ground arith in
        rw (get-insert 1 k (DirectoryEntry.directory dir) [], other) refl;
    file_bound = omega arith;
    directory_bound = omega arith;
    inode_bound = omega arith;
  }

  pub new-IsConsistent :
      (iso : Iso9660 D) (t : T)
      → Ensures (λ (f : IsoFuse D T) _. IsConsistent f) (new c reader fuel full iso t)
  unfolding new
  new-IsConsistent iso t = Ensures-bind Q (root c reader fuel iso t) _ λ dir t₁ _.
      let (item, it) = next c reader fuel dir (contents c reader fuel t₁) in
      Ensures-lift Q (first_entry c reader fuel full item) it.state.reader _ λ slashdot _.
        Ensures-bind Q (is_rr c reader fuel iso it.state.reader) _ λ rr t₂ _.
          Ensures-pure Q _ t₂ (fresh dir (not (rr && has_inode c reader fuel full slashdot)) t₂)
    where
      Q : IsoFuse D T → T → Type 0
      Q f _ = IsConsistent f
