-- ===== src/Fuse/Handlers/Files.antt =====
-- The handlers `open` and `read` of cdfs-fuse/src/bin/cdfs_fuse.rs together.
use iso9660_rs.Prelude.{
  ℕ, ◌+◌, ◌*◌, ◌/◌, ◌^◌, ◌≤◌, ◌<◌, ◌≡◌, ◌∙◌, ap, sym, Bool, Bool-cases, inl, inr, false, some, List,
  ◌==◌, arith, lt→ltb, take, drop, length, pos, length-replicate,
}
use iso9660_rs.Outcome.{ok}
use iso9660_rs.Crates.{Crates, Bytes}
use iso9660_rs.FileRef.{Iso9660Reader, block_size}
use iso9660_rs.HashMap.{get, insert, get-insert_same, get-insert_other}
use iso9660_rs.Entry.Reader.{IsoFileReader, open_reader, SeekFrom, seek}
use iso9660_rs.Entry.Reader.Contents.{Serves, IsCoherent, read-contents}
use iso9660_rs.Entry.Reader.Seeking.{seek_lem}
use iso9660_rs.Entry.Types.{IsoFile, DirectoryEntry}
use iso9660_rs.Fuse.Types.{DirItem, Reply, IsoFuse, u64_max}
use iso9660_rs.Fuse.Handlers.{open_file, read_file}

module _ {D : Type 0} (file : IsoFile D) where
  seeks :
      (c : Crates) (offset : ℕ)
      → file.header.extent_length < 2 ^ 32
      → offset < 2 ^ 63
      → seek c (SeekFrom.start offset) (open_reader file)
        ≡ (ok offset, record (open_reader file) { seek = offset })
  unfolding open_reader
  seeks c offset small ho =
      seek_lem c (open_reader file) (SeekFrom.start offset) (omega arith) (omega arith)
        (lt→ltb offset (2 ^ 63) ho)

  coherent :
      (img : Bytes) (offset : ℕ)
      → (file.header.extent_loc + (file.header.extent_length + 2047) / block_size) * block_size
        ≤ length img
      → IsCoherent img (record (open_reader file) { seek = offset })
  unfolding open_reader
  coherent img offset inside = record {
    whole = length-replicate {A = ℕ} block_size 0;
    holds = tt;
    inside = inside;
  }

module _ (c : Crates) {T : Type 0} (reader : Iso9660Reader T) (fuel euid egid : ℕ)
    (full : List DirItem → DirItem → Bool) where
  abbrev D : Type 0
  D = c.time.OffsetDateTime

  -- A file's bytes in the image, as the header of its entry gives them.
  abbrev pub file_bytes : Bytes → IsoFile D → Bytes
  file_bytes img file =
      take file.header.extent_length (drop (file.header.extent_loc * block_size) img)

  -- The state after `open`.
  abbrev pub opened_state : IsoFile D → IsoFuse D T → IsoFuse D T
  opened_state file f = record f {
    open_files = insert f.file_number (open_reader file) f.open_files;
    file_number = f.file_number + 1;
  }

  -- Reading through a handle that stands for a reader at which nothing was read yet.
  reads :
      (g : IsoFuse D T) (fh : ℕ) (file : IsoFile D) (img : Bytes) (offset n : ℕ)
      → get fh g.open_files ≡ some (open_reader file)
      → Serves reader img
      → (file.header.extent_loc + (file.header.extent_length + 2047) / block_size) * block_size
        ≤ length img
      → file.header.extent_length < 2 ^ 32
      → offset < 2 ^ 63
      → (r r' : IsoFileReader) × (t' : T) × (read_file c reader fuel euid egid full fh
            (pos offset)
            n
            g
          ≡ (
            ok (Reply.bytes (take n (drop offset (file_bytes img file)))),
            record g { open_files = insert fh r' (insert fh r g.open_files); reader = t' },
          ))
  unfolding read_file open_reader
  reads g fh file img offset n found s inside small ho =
      let r : IsoFileReader = record (open_reader file) { seek = offset } in
      let (r', t', e, _, _, _) =
        read-contents reader img s r g.reader n (coherent file img offset inside) in
      (r, r', t', rw (found, seeks file c offset small ho, e))

  module _ (f : IsoFuse D T) (ino : ℕ) (file : IsoFile D)
      (known : get ino f.inodes ≡ some (DirectoryEntry.file file))
      (room : f.file_number < u64_max) where
    opens :
        open_file c reader fuel euid egid full ino f
        ≡ (ok (Reply.opened f.file_number), opened_state file f)
    unfolding open_file
    opens = let free : (f.file_number == u64_max) ≡ false = ground arith in rw (known, free)

    -- After opening a file that lies in the image, reading `n` bytes at an offset through its handle
    -- replies the file's bytes from there on, at most n of them.
    pub read_file-open_file :
        (img : Bytes) (offset n : ℕ)
        → Serves reader img
        → (file.header.extent_loc + (file.header.extent_length + 2047) / block_size) * block_size
          ≤ length img
        → file.header.extent_length < 2 ^ 32
        → offset < 2 ^ 63
        → (g : IsoFuse D T) × (read_file c reader fuel euid egid full f.file_number
              (pos offset)
              n
              (open_file c reader fuel euid egid full ino f).1
            ≡ (ok (Reply.bytes (take n (drop offset (file_bytes img file)))), g))
    read_file-open_file img offset n s inside small ho =
        let (r, r', t', e) =
          reads (opened_state file f) f.file_number file img offset n
            (get-insert_same f.file_number (open_reader file) f.open_files) s inside small ho in
        (
          record (opened_state file f) {
            open_files =
                insert f.file_number r' (insert f.file_number r (opened_state file f).open_files);
            reader = t';
          },
          rw opens e,
        )

  -- What an open request that succeeds replies and leaves.
  opens_inv :
      (f g : IsoFuse D T) (ino fh : ℕ) (file : IsoFile D)
      → get ino f.inodes ≡ some (DirectoryEntry.file file)
      → open_file c reader fuel euid egid full ino f ≡ (ok (Reply.opened fh), g)
      → (f.file_number ≡ fh) × (opened_state file f ≡ g)
  unfolding open_file
  opens_inv f g ino fh file known e = elim (Bool-cases (f.file_number == u64_max)) [
    | inl m ↦ absurd (cc (ap (λ x. x.0) (rw (known, m) at e)))
    | inr m ↦ let e' = rw (known, m) at e in (cc (ap (λ x. x.0) e'), ap (λ x. x.1) e')
  ]

  -- Two files that the kernel knows, which may be the same, are opened one after the other. Reading
  -- through the second handle and then through the first replies the bytes of the second file and
  -- of the first, each from the offset asked for, on a reader that serves an image in which both
  -- files lie.
  pub read_file-two_handles :
      (f fa fb : IsoFuse D T) (ino_a ino_b ha hb : ℕ) (a b : IsoFile D)
      → get ino_a f.inodes ≡ some (DirectoryEntry.file a)
      → get ino_b f.inodes ≡ some (DirectoryEntry.file b)
      → open_file c reader fuel euid egid full ino_a f ≡ (ok (Reply.opened ha), fa)
      → open_file c reader fuel euid egid full ino_b fa ≡ (ok (Reply.opened hb), fb)
      → (img : Bytes) (offset_a offset_b n m : ℕ) → Serves reader img
      → (a.header.extent_loc + (a.header.extent_length + 2047) / block_size) * block_size
        ≤ length img
      → (b.header.extent_loc + (b.header.extent_length + 2047) / block_size) * block_size
        ≤ length img
      → a.header.extent_length < 2 ^ 32
      → b.header.extent_length < 2 ^ 32
      → offset_a < 2 ^ 63
      → offset_b < 2 ^ 63
      → (g g' : IsoFuse D T) × (read_file c reader fuel euid egid full hb (pos offset_b) m fb
          ≡ (ok (Reply.bytes (take m (drop offset_b (file_bytes img b)))), g))
        × (read_file c reader fuel euid egid full ha (pos offset_a) n g
            ≡ (ok (Reply.bytes (take n (drop offset_a (file_bytes img a)))), g'))
  read_file-two_handles f fa fb ino_a ino_b ha hb a b known_a known_b open_a open_b img offset_a
        offset_b n m s inside_a inside_b small_a small_b ho_a ho_b =
      let (at_a, is_a) = opens_inv f fa ino_a ha a known_a open_a in
      let (at_b, is_b) =
        opens_inv fa fb ino_b hb b
          (ap (λ (x : IsoFuse D T). get ino_b x.inodes) (sym is_a) ∙ known_b) open_b in
      let apart : f.file_number + 1 ≡ hb = ap (λ (x : IsoFuse D T). x.file_number) is_a ∙ at_b in
      let other : (hb == ha) ≡ false = ground arith in
      let files_a : fa.open_files ≡ insert ha (open_reader a) f.open_files =
        ap (λ (x : IsoFuse D T). x.open_files) (sym is_a)
        ∙ ap (λ k. insert k (open_reader a) f.open_files) at_a in
      let files_b : fb.open_files ≡ insert hb (open_reader b) fa.open_files =
        ap (λ (x : IsoFuse D T). x.open_files) (sym is_b)
        ∙ ap (λ k. insert k (open_reader b) fa.open_files) at_b in
      let found_b : get hb fb.open_files ≡ some (open_reader b) =
        ap (get hb) files_b ∙ get-insert_same hb (open_reader b) fa.open_files in
      let found_a : get ha fb.open_files ≡ some (open_reader a) =
        ap (get ha) files_b
        ∙ get-insert_other hb ha (open_reader b) fa.open_files other
        ∙ ap (get ha) files_a
        ∙ get-insert_same ha (open_reader a) f.open_files in
      let (r, r', t', e) = reads fb hb b img offset_b m found_b s inside_b small_b ho_b in
      let g : IsoFuse D T = record fb {
        open_files = insert hb r' (insert hb r fb.open_files);
        reader = t';
      } in
      let kept : get ha g.open_files ≡ some (open_reader a) =
        get-insert_other hb ha r' (insert hb r fb.open_files) other
        ∙ get-insert_other hb ha r fb.open_files other
        ∙ found_a in
      let (r₁, r₁', t₁, e') = reads g ha a img offset_a n kept s inside_a small_a ho_a in
      (g, record g { open_files = insert ha r₁' (insert ha r₁ g.open_files); reader = t₁ }, e, e')
