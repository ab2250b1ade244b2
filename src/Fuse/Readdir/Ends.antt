-- ===== src/Fuse/Readdir/Ends.antt =====
-- The handler `readdir` of cdfs-fuse/src/bin/cdfs_fuse.rs comes to an end.
use iso9660_rs.Prelude.{
  ℕ, zero, suc, ◌+◌, ◌^◌, ◌<◌, ◌≡◌, refl, ap, ◌∙◌, subst, Bool, Bool-cases, inl, inr, Option, none,
  some, List, [], arith, length, length-replicate, replicate, ◌==◌, if◌then◌else◌, ℤ, pos, negsuc,
}
use iso9660_rs.Outcome.{Result, ok, err, panic, out_of_fuel, IsoError}
use iso9660_rs.State.{continue, pure}
use iso9660_rs.State.Ensures.{Ensures-elim}
use iso9660_rs.Crates.{Crates}
use iso9660_rs.Crates.Documented.{IsCrates}
use iso9660_rs.FileRef.{Iso9660Reader, block_size}
use iso9660_rs.HashMap.{get}
use iso9660_rs.Entry.Types.{IsoDirectory, DirectoryEntry}
use iso9660_rs.Entry.Directory.{DirState, read_entry_at}
use iso9660_rs.Entry.Directory.Chains.{IsAnswering, read_entry_at-ChainsAt}
use iso9660_rs.Entry.Directory.Progress.{
  IsFilling, IsBehind, IsEnough, IsBehind-IsEnough, MovesOn, read_entry_at-MovesOn,
}
use iso9660_rs.Entry.Find.{rounds, contents}
use iso9660_rs.Entry.Find.Ends.{RunsAway, lacks, later}
use iso9660_rs.Fuse.Types.{DirItem, Reply, Errno, IsoFuse, u64_max, enfile}
use iso9660_rs.Fuse.Readdir.{
  Round, stop, again, list_entry, listed, readdir_loop, is_minus_one, readdir,
}

module _ (c : Crates) {T : Type 0} (reader : Iso9660Reader T) (fuel : ℕ)
    (full : List DirItem → DirItem → Bool) where
  abbrev D : Type 0
  D = c.time.OffsetDateTime

  module _ (items : List DirItem) (e : DirectoryEntry D) (f : IsoFuse D T) where
    -- The loop goes on only at the offset of the next record, with the reader as it is, and adding an
    -- entry takes no fuel.
    list_entry-again :
        (nxt : Option ℕ) (items' : List DirItem) (o : ℕ) (g : IsoFuse D T)
        → list_entry c reader fuel full items e nxt f ≡ ok (again items' o g)
        → (nxt ≡ some o) × (g.reader ≡ f.reader)
    unfolding list_entry
    list_entry-again nxt items' o g h = ground arith

    list_entry-fuel :
        (nxt : Option ℕ) → ¬ (list_entry c reader fuel full items e nxt f ≡ out_of_fuel)
    unfolding list_entry
    list_entry-fuel nxt h = ground arith

  module _ (d : IsCrates c) (fills : IsFilling reader) (answers : IsAnswering reader)
      (dir : IsoDirectory D) (small : dir.header.extent_length + block_size < 2 ^ 32) where
    -- What a round of the loop does with the record that was read.
    abbrev after :
        ℕ
        → List DirItem
        → IsoFuse D T
        → Result IsoError (DirectoryEntry D × Option ℕ) × DirState T
        → Result Errno (Round D T)
        → Result Errno (List DirItem) × IsoFuse D T
    after n items f r l =
        let f' : IsoFuse D T = record f { reader = r.1.reader } in
        if f.inode_number == u64_max then (err enfile, f) else elim l [
          | ok (stop items' g) ↦ (ok items', g)
          | ok (again items' offset' g) ↦
              readdir_loop c reader fuel full n dir items' offset' r.1.block r.1.block_num g
          | err e ↦ (err e, f')
          | panic ↦ (panic, f')
          | out_of_fuel ↦ (out_of_fuel, f')
        ]

    round :
        (n o : ℕ) (items : List DirItem) (s : DirState T) (f f' : IsoFuse D T)
        → IsEnough c reader fuel dir (suc n) (some o)
        → length s.block ≡ block_size
        → ((o' : ℕ) (items' : List DirItem) (s' : DirState T) (g : IsoFuse D T)
            → IsEnough c reader fuel dir n (some o')
            → length s'.block ≡ block_size
            → readdir_loop c reader fuel full n dir items' o' s'.block s'.block_num g
              ≡ (out_of_fuel, f')
            → RunsAway c reader fuel dir o' (record s' { reader = g.reader }))
        → (r : Result IsoError (DirectoryEntry D × Option ℕ) × DirState T)
        → read_entry_at c reader fuel dir o s ≡ r
        → (l : Result Errno (Round D T)) → listed c reader fuel full items f r ≡ l
        → after n items f r l ≡ (out_of_fuel, f')
        → RunsAway c reader fuel dir o s
    unfolding listed
    round n o items s f f' h w ih r q l p e = elim (Bool-cases (f.inode_number == u64_max)) [
      | inl m ↦ absurd (cc (ap (λ x. x.0) (rw m at e)))
      | inr m ↦ go r q l p (rw m at e)
    ]
      where
        go :
            (r : Result IsoError (DirectoryEntry D × Option ℕ) × DirState T)
            → read_entry_at c reader fuel dir o s ≡ r
            → (l : Result Errno (Round D T)) → listed c reader fuel full items f r ≡ l
            → ◌≡◌ {A = Result Errno (List DirItem) × IsoFuse D T}
                (elim l [
                  | ok (stop items' g) ↦ (ok items', g)
                  | ok (again items' offset' g) ↦
                      readdir_loop c reader fuel full n dir items' offset' r.1.block r.1.block_num g
                  | err e ↦ (err e, record f { reader = r.1.reader })
                  | panic ↦ (panic, record f { reader = r.1.reader })
                  | out_of_fuel ↦ (out_of_fuel, record f { reader = r.1.reader })
                ])
                (out_of_fuel, f')
            → RunsAway c reader fuel dir o s
        go r q (ok (stop items' g)) p e = absurd (cc (ap (λ x. x.0) e))
        go (ok (entry, nxt), s') q (ok (again items' o' g)) p e =
            let (w', behind) =
              Ensures-elim (MovesOn c reader fuel dir o) (read_entry_at c reader fuel dir o s)
                (entry, nxt) s' (read_entry_at-MovesOn c reader fuel d fills dir o s small w) q in
            let (at, kept) =
              list_entry-again items entry (record f { reader = s'.reader }) nxt items' o' g p in
            later o o' s s' entry (q ∙ ap (λ x. (ok (entry, x), s')) at) (
              subst (λ t. RunsAway c reader fuel dir o' (record s' { reader = t })) kept
                (ih o' items' s' g
                  (IsBehind-IsEnough c reader fuel dir n o (some o') h.1
                    (subst (λ x. IsBehind c reader fuel dir o x) at behind))
                  w' e))
        go (err x, s') q (ok (again items' o' g)) p e = absurd (cc p)
        go (panic, s') q (ok (again items' o' g)) p e = absurd (cc p)
        go (out_of_fuel, s') q (ok (again items' o' g)) p e =
            lacks o s (read_entry_at-ChainsAt c reader d answers fuel dir o s s' q)
        go (ok (entry, nxt), s') q out_of_fuel p e =
            absurd (list_entry-fuel items entry (record f { reader = s'.reader }) nxt p)
        go (err x, s') q out_of_fuel p e = absurd (cc p)
        go (panic, s') q out_of_fuel p e = absurd (cc p)
        go (out_of_fuel, s') q out_of_fuel p e =
            lacks o s (read_entry_at-ChainsAt c reader d answers fuel dir o s s' q)
        go r q (err x) p e = absurd (cc (ap (λ x. x.0) e))
        go r q panic p e = absurd (cc (ap (λ x. x.0) e))

    loop :
        (n o : ℕ) (items : List DirItem) (s : DirState T) (f f' : IsoFuse D T)
        → IsEnough c reader fuel dir n (some o)
        → length s.block ≡ block_size
        → readdir_loop c reader fuel full n dir items o s.block s.block_num f ≡ (out_of_fuel, f')
        → RunsAway c reader fuel dir o (record s { reader = f.reader })
    unfolding readdir_loop
    loop zero o items s f f' h w e = absurd (omega arith)
    loop (suc n) o items s f f' h w e =
        let s₁ : DirState T = record {
          block = s.block;
          block_num = s.block_num;
          reader = f.reader;
        } in
        let r = read_entry_at c reader fuel dir o s₁ in
        round n o items s₁ f f' h w (λ o' items' s' g h' w' e'. loop n o' items' s' g f' h' w' e') r
          refl (listed c reader fuel full items f r) refl e

  -- Listing an open directory of less than 2 ^ 32 - 2048 bytes, on a reader that always answers and
  -- keeps the size of the buffers it fills, from any offset that the kernel asks for, has rounds
  -- enough: where it lacks fuel, the offset is not negative, and reading the records of the directory
  -- one after the other from there on, with an empty buffer, comes to one that parses and whose
  -- continuation areas go on for more than the fuel.
  pub readdir-RunsAway :
      IsCrates c
      → IsFilling reader
      → IsAnswering reader
      → (fh : ℕ) (offset : ℤ) (f f' : IsoFuse D T) (dir : IsoDirectory D)
      → get fh f.open_directories ≡ some dir
      → dir.header.extent_length + block_size < 2 ^ 32
      → readdir c reader fuel full fh offset f ≡ (out_of_fuel, f')
      → (start : ℕ) × (offset ≡ pos start)
        × RunsAway c reader fuel dir start (contents c reader fuel f.reader).state
  unfolding readdir is_minus_one contents
  readdir-RunsAway d fills answers fh (negsuc n) f f' dir known small e =
      elim (Bool-cases (n == 0)) [
        | inl m ↦ absurd (cc (ap (λ x. x.0) (rw (known, m) at e)))
        | inr m ↦ absurd (cc (ap (λ x. x.0) (rw (known, m) at e)))
      ]
  readdir-RunsAway d fills answers fh (pos o) f f' dir known small e =
      let s : DirState T = record {
        block = replicate block_size 0;
        block_num = none;
        reader = f.reader;
      } in
      (
        o,
        refl,
        go
            (readdir_loop c reader fuel full (rounds c reader fuel dir) dir [] o
              (replicate block_size 0) none f)
            (loop d fills answers dir small (rounds c reader fuel dir) o [] s f f' (omega arith)
              (length-replicate {A = ℕ} block_size 0))
            (rw known at e),
      )
    where
      go :
          (r : Result Errno (List DirItem) × IsoFuse D T)
          → (r ≡ (out_of_fuel, f')
              → RunsAway c reader fuel dir o (contents c reader fuel f.reader).state)
          → ◌≡◌ {A = Result Errno (Reply c.time.SystemTime) × IsoFuse D T}
              (continue (λ items. pure (Reply.listing items)) r)
              (out_of_fuel, f')
          → RunsAway c reader fuel dir o (contents c reader fuel f.reader).state
      go (ok items, g) h e = absurd (cc (ap (λ x. x.0) e))
      go (err x, g) h e = absurd (cc (ap (λ x. x.0) e))
      go (panic, g) h e = absurd (cc (ap (λ x. x.0) e))
      go (out_of_fuel, g) h e = h (ap (λ x. (out_of_fuel, x.1)) e)
