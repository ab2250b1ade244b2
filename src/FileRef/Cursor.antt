-- ===== src/FileRef/Cursor.antt =====
-- The blanket implementation of `ISO9660Reader` in cdfs/src/fileref.rs, for a `Read + Seek` that
-- holds the image in memory, as `std::io::Cursor` does, or reads it from a file without a short
-- count.
use iso9660_rs.Prelude.{
  ℕ, ◌+◌, ◌*◌, ◌^◌, ◌≤◌, ◌<◌, ◌≡◌, ◌++◌, arith, length, take, drop, append-nil, ltb, lt→ltb, true,
  drop-length,
}
use iso9660_rs.Outcome.{ok, IoError}
use iso9660_rs.Crates.{Crates, Bytes}
use iso9660_rs.Machine.{fit}
use iso9660_rs.FileRef.{ReadSeek, block_size, read_at, reader}
use iso9660_rs.Entry.Reader.Contents.{Serves, block, length-block}

-- What is documented of a cursor on an image: it seeks to any position, and a read copies from there
-- what the buffer can hold and the image has.
pub record IsCursor {T : Type 0} (r : ReadSeek T) (img : Bytes) : Type 0 where
  pub position : T → ℕ
  pub seeks : (t : T) (p : ℕ) → (t' : T) × (r.seek t p ≡ (ok p, t')) × (position t' ≡ p)
  pub reads :
      (t : T) (buf : Bytes)
      → let got = take (length buf) (drop (position t) img) in
        (t' : T) × (r.read t buf ≡ (ok (length got), got ++ drop (length got) buf, t'))

module _ (c : Crates) {T : Type 0} (r : ReadSeek T) (img : Bytes) (d : IsCursor r img)
    (small : length img < 2 ^ 64) where
  -- A position in the image is what the code computes for a block in it.
  fits :
      (lba : ℕ)
      → (lba + 1) * block_size ≤ length img
      → fit c {E = IoError} (2 ^ 64) (lba * block_size) ≡ ok (lba * block_size)
  unfolding fit
  fits lba inside =
      let low : ltb (lba * block_size) (2 ^ 64) ≡ true = lt→ltb _ _ (omega arith) in rw low

  read_at_lem :
      (t : T) (buf : Bytes) (lba : ℕ)
      → length buf ≡ block_size
      → (lba + 1) * block_size ≤ length img
      → (t' : T) × (read_at c r t buf lba ≡ (ok block_size, block img lba, t'))
  unfolding read_at
  read_at_lem t buf lba whole inside =
      let (t₁, sought, stands) = d.seeks t (lba * block_size) in
      let (t₂, got) = d.reads t₁ buf in
      let full = length-block img lba inside in
      (
        t₂,
        rw (
          fits lba inside,
          sought,
          got,
          stands,
          whole,
          full,
          drop-length {A = ℕ} block_size buf whole,
          append-nil,
        ),
      )

  -- The block at an address is read whole where it lies in the image, which must be shorter than
  -- 2 ^ 64 bytes, wherever the cursor stood before.
  pub reader-Serves : Serves (reader c r) img
  unfolding reader
  reader-Serves = record {
    serves = λ t buf lba whole inside. rw (read_at_lem t buf lba whole inside).1;
  }
