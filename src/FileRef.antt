-- ===== src/FileRef.antt =====
-- cdfs/src/fileref.rs: reading blocks of the image. A `FileRef` is a shared reference to the one
-- reader of an image, so here the reader's state is passed along instead.
pub mod Cursor
use iso9660_rs.Prelude.{ℕ, ◌*◌, ◌^◌}
use iso9660_rs.Outcome.{Result, ok, err, panic, out_of_fuel, IoError}
use iso9660_rs.Crates.{Crates, Bytes}
use iso9660_rs.Machine.{fit}

-- `BLOCK_SIZE` of cdfs/src/lib.rs.
abbrev pub block_size : ℕ
block_size = 2048

-- The trait: `read_at` fills the buffer from its front, and says how much it read. T is the state.
pub record Iso9660Reader (T : Type 0) : Type 0 where
  pub read_at : T → Bytes → ℕ → Result IoError ℕ × Bytes × T

-- `Read` and `Seek` of the standard library, as far as they are used: `seek` to a position from the
-- start, and `read`.
pub record ReadSeek (T : Type 0) : Type 0 where
  pub seek : T → ℕ → Result IoError ℕ × T
  pub read : T → Bytes → Result IoError ℕ × Bytes × T

module _ (c : Crates) {T : Type 0} (r : ReadSeek T) where
  then_read : Bytes → Result IoError ℕ × T → Result IoError ℕ × Bytes × T
  then_read buf (ok _, t) = r.read t buf
  then_read buf (err e, t) = (err e, buf, t)
  then_read buf (panic, t) = (panic, buf, t)
  then_read buf (out_of_fuel, t) = (out_of_fuel, buf, t)

  seek_to : T → Bytes → Result IoError ℕ → Result IoError ℕ × Bytes × T
  unfolding then_read
  seek_to t buf (ok position) = then_read buf (r.seek t position)
  seek_to t buf (err e) = (err e, buf, t)
  seek_to t buf panic = (panic, buf, t)
  seek_to t buf out_of_fuel = (out_of_fuel, buf, t)

  -- The implementation for every `Read + Seek`: `lba * BLOCK_SIZE` is computed in `u64`.
  unfoldable pub read_at : T → Bytes → ℕ → Result IoError ℕ × Bytes × T
  unfolding fit seek_to
  read_at t buf lba = seek_to t buf (fit c (2 ^ 64) (lba * block_size))

  unfoldable pub reader : Iso9660Reader T
  unfolding read_at
  reader = record { read_at = read_at }
