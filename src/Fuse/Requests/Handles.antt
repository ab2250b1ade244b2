-- ===== src/Fuse/Requests/Handles.antt =====
-- The numbers that cdfs-fuse/src/bin/cdfs_fuse.rs gives out, for inodes, files and directories, and
-- how the changes to the tables keep them apart.
use iso9660_rs.Prelude.{
  ℕ, ◌+◌, ◌≤◌, ◌<◌, ◌≡◌, ◌≢◌, refl, subst, Bool, true, false, Option, none, some, List, ◌==◌,
  if◌then◌else◌, leb, leb→le, Bool-cases, inl, inr, arith,
}
use iso9660_rs.Outcome.{Result, ok, err, panic, out_of_fuel}
use iso9660_rs.State.{M, continue}
use iso9660_rs.HashMap.{get, insert, remove, get-insert, get-remove}
use iso9660_rs.Entry.Types.{IsoDirectory, DirectoryEntry}
use iso9660_rs.Entry.Reader.{IsoFileReader}
use iso9660_rs.Fuse.Handlers.{or_error}
use iso9660_rs.Fuse.Types.{IsoFuse, u64_max, Errno}

-- No number from n on is in use.
abbrev pub Unused : {V : Type 0} → ℕ → List (ℕ × V) → Type 0
Unused n m = (k : ℕ) → n ≤ k → get k m ≡ none

-- The next number of each kind is free, and so are all that come after it; the inode numbers are the
-- file system's own only where the image has none. No counter leaves `u64`.
pub record IsConsistent {D T : Type 0} (f : IsoFuse D T) : Type 0 where
  pub files : Unused f.file_number f.open_files
  pub directories : Unused f.directory_number f.open_directories
  pub inodes : f.inode_autogenerated ≡ true → Unused f.inode_number f.inodes
  pub file_bound : f.file_number ≤ u64_max
  pub directory_bound : f.directory_number ≤ u64_max
  pub inode_bound : f.inode_number ≤ u64_max

module _ {V : Type 0} where
  pub Unused-insert :
      (n j : ℕ) (v : V) (m : List (ℕ × V)) → j < n → Unused n m → Unused n (insert j v m)
  Unused-insert n j v m h u k le =
      let other : (j == k) ≡ false = ground arith in rw (get-insert j k v m, other) (u k le)

  pub Unused-next : (n : ℕ) (v : V) (m : List (ℕ × V)) → Unused n m → Unused (n + 1) (insert n v m)
  Unused-next n v m u k le =
      let other : (n == k) ≡ false = ground arith in
      rw (get-insert n k v m, other) (u k (omega arith))

  pub Unused-suc : (n : ℕ) (m : List (ℕ × V)) → Unused n m → Unused (n + 1) m
  Unused-suc n m u k le = u k (omega arith)

  pub Unused-remove : (n j : ℕ) (m : List (ℕ × V)) → Unused n m → Unused n (remove j m)
  Unused-remove n j m u k le = rw (get-remove j k m, u k le) (same (j == k))
    where
      same : (b : Bool) → ◌≡◌ {A = Option V} (if b then none else none) none
      same true = refl
      same false = refl

  -- What is in use was given out before.
  pub below : (n j : ℕ) (v : V) (m : List (ℕ × V)) → Unused n m → get j m ≡ some v → j < n
  below n j v m u e = elim (Bool-cases (leb n j)) [
    | inl h ↦ absurd (cc (e, u j (leb→le n j h)))
    | inr h ↦ ground arith
  ]

named :
    {D : Type 0} (auto b : Bool) (n ino : ℕ) (e : DirectoryEntry D) (o : Result Errno ℕ)
    (m : List (ℕ × DirectoryEntry D))
    → (if auto then ok n else o) ≡ ok ino
    → (auto ≡ true → Unused n m)
    → auto ≡ true
    → Unused (if auto then n + 1 else n) (if b then m else insert ino e m)
named true true n ino e o m q u a = Unused-suc n m (u a)
named true false n ino e o m q u a =
    let same : n ≡ ino = cc q in
    subst (λ i. Unused (n + 1) (insert i e m)) same (Unused-next n e m (u a))
named false b n ino e o m q u a = absurd (cc a)

counted : (auto : Bool) (n : ℕ) → n ≢ u64_max → n ≤ u64_max → (if auto then n + 1 else n) ≤ u64_max
counted true n ne h = ground arith
counted false n ne h = h

module _ {D T : Type 0} (f : IsoFuse D T) where
  pub IsConsistent-reader : (t : T) → IsConsistent f → IsConsistent (record f { reader = t })
  IsConsistent-reader t h = record {
    files = h.files;
    directories = h.directories;
    inodes = h.inodes;
    file_bound = h.file_bound;
    directory_bound = h.directory_bound;
    inode_bound = h.inode_bound;
  }

  pub IsConsistent-files :
      (m : List (ℕ × IsoFileReader))
      → Unused f.file_number m
      → IsConsistent f
      → IsConsistent (record f { open_files = m })
  IsConsistent-files m u h = record {
    files = u;
    directories = h.directories;
    inodes = h.inodes;
    file_bound = h.file_bound;
    directory_bound = h.directory_bound;
    inode_bound = h.inode_bound;
  }

  pub IsConsistent-open :
      (file : IsoFileReader)
      → f.file_number ≢ u64_max
      → IsConsistent f
      → IsConsistent (record f {
        open_files = insert f.file_number file f.open_files;
        file_number = f.file_number + 1;
      })
  IsConsistent-open file ne h = record {
    files = Unused-next f.file_number file f.open_files h.files;
    directories = h.directories;
    inodes = h.inodes;
    file_bound = let le = h.file_bound in ground arith;
    directory_bound = h.directory_bound;
    inode_bound = h.inode_bound;
  }

  pub IsConsistent-directories :
      (m : List (ℕ × IsoDirectory D))
      → Unused f.directory_number m
      → IsConsistent f
      → IsConsistent (record f { open_directories = m })
  IsConsistent-directories m u h = record {
    files = h.files;
    directories = u;
    inodes = h.inodes;
    file_bound = h.file_bound;
    directory_bound = h.directory_bound;
    inode_bound = h.inode_bound;
  }

  pub IsConsistent-opendir :
      (dir : IsoDirectory D)
      → f.directory_number ≢ u64_max
      → IsConsistent f
      → IsConsistent (record f {
        open_directories = insert f.directory_number dir f.open_directories;
        directory_number = f.directory_number + 1;
      })
  IsConsistent-opendir dir ne h = record {
    files = h.files;
    directories = Unused-next f.directory_number dir f.open_directories h.directories;
    inodes = h.inodes;
    file_bound = h.file_bound;
    directory_bound = let le = h.directory_bound in ground arith;
    inode_bound = h.inode_bound;
  }

  pub IsConsistent-forget :
      (ino : ℕ) → IsConsistent f → IsConsistent (record f { inodes = remove ino f.inodes })
  IsConsistent-forget ino h = record {
    files = h.files;
    directories = h.directories;
    inodes = λ a. Unused-remove f.inode_number ino f.inodes (h.inodes a);
    file_bound = h.file_bound;
    directory_bound = h.directory_bound;
    inode_bound = h.inode_bound;
  }

  -- An entry gets the next number, or the one that the image has for it.
  pub IsConsistent-name :
      (ino : ℕ) (e : DirectoryEntry D) (b : Bool) (o : Result Errno ℕ)
      → (if f.inode_autogenerated then ok f.inode_number else o) ≡ ok ino
      → f.inode_number ≢ u64_max
      → IsConsistent f
      → IsConsistent (record f {
        inodes = if b then f.inodes else insert ino e f.inodes;
        inode_number = if f.inode_autogenerated then f.inode_number + 1 else f.inode_number;
      })
  IsConsistent-name ino e b o q ne h = record {
    files = h.files;
    directories = h.directories;
    inodes = named f.inode_autogenerated b f.inode_number ino e o f.inodes q h.inodes;
    file_bound = h.file_bound;
    directory_bound = h.directory_bound;
    inode_bound = counted f.inode_autogenerated f.inode_number ne h.inode_bound;
  }

pub not_max : (n : ℕ) → (n == u64_max) ≡ false → n ≢ u64_max
not_max n h e = ground arith

-- A step of a handler, and what it does where the step gave a value.
module _ {D T A B : Type 0} where
  pub continue-IsConsistent :
      (k : A → M (IsoFuse D T) Errno B) (r : Result Errno A × IsoFuse D T)
      → IsConsistent r.1
      → ((a : A) → r.0 ≡ ok a → IsConsistent (k a r.1).1)
      → IsConsistent (continue k r).1
  continue-IsConsistent k (ok a, f) h go = go a refl
  continue-IsConsistent k (err e, f) h go = h
  continue-IsConsistent k (panic, f) h go = h
  continue-IsConsistent k (out_of_fuel, f) h go = h

  pub or_error-IsConsistent :
      (e : Errno) (o : Option A) (k : A → M (IsoFuse D T) Errno B) (f : IsoFuse D T)
      → IsConsistent f
      → ((a : A) → o ≡ some a → IsConsistent (k a f).1)
      → IsConsistent (continue k (or_error e o f)).1
  or_error-IsConsistent e none k f h go = h
  or_error-IsConsistent e (some a) k f h go = go a refl
