-- ===== src/Entry/Reader.antt =====
-- cdfs/src/directory_entry/isofile.rs: `ISOFileReader`, which reads a file by whole blocks and keeps
-- the last one. T is the state of the shared reader of the image.
pub mod Contents
pub mod Seeking
pub mod ToEnd
use iso9660_rs.Prelude.{
  ℕ, zero, suc, ◌+◌, ◌-◌, ◌*◌, ◌/◌, ◌%◌, min, Bool, true, false, Option, none, some, [], ◌++◌, leb,
  ◌==◌, ◌||◌, if◌then◌else◌, length, take, replicate, ℤ, pos, negsuc,
}
use iso9660_rs.Outcome.{Result, ok, err, panic, out_of_fuel, IoError, invalid_input}
use iso9660_rs.Outcome
use iso9660_rs.State.{M, ◌>>=◌, ◌>>◌, pure}
use iso9660_rs.Crates.{Crates, Bytes}
use iso9660_rs.Machine.{slice, to_i64, add_i64}
use iso9660_rs.FileRef.{Iso9660Reader, block_size}
use iso9660_rs.Entry.Types.{IsoFile}

pub record IsoFileReader : Type 0 where
  pub buf : Bytes
  pub buf_lba : Option ℕ
  pub seek : ℕ
  pub start_lba : ℕ
  pub size : ℕ

unfoldable pub size : {D : Type 0} → IsoFile D → ℕ
size f = f.header.extent_length

-- `ISOFile::read`: a reader at the start of the file.
unfoldable pub open_reader : {D : Type 0} → IsoFile D → IsoFileReader
unfolding size
open_reader f = record {
  buf = replicate block_size 0;
  buf_lba = none;
  seek = 0;
  start_lba = f.header.extent_loc;
  size = size f;
}

abbrev pub is_lba : Option ℕ → ℕ → Bool
is_lba none lba = false
is_lba (some l) lba = l == lba

module _ {T : Type 0} (reader : Iso9660Reader T) where
  abbrev pub Io : Type 0 → Type 0
  Io = M (IsoFileReader × T) IoError

  -- After a failed read the buffer may have changed, and `buf_lba` stays.
  fetched :
      IsoFileReader
      → ℕ
      → Result IoError ℕ × Bytes × T
      → Result IoError (Unit {0}) × (IsoFileReader × T)
  fetched r lba (ok _, b, t) = (ok tt, (record r { buf = b; buf_lba = some lba }, t))
  fetched r lba (err e, b, t) = (err e, (record r { buf = b }, t))
  fetched r lba (panic, b, t) = (panic, (record r { buf = b }, t))
  fetched r lba (out_of_fuel, b, t) = (out_of_fuel, (record r { buf = b }, t))

  -- The count that `read_at` returns is not looked at.
  unfoldable pub fetch : ℕ → Io (Unit {0})
  unfolding fetched
  fetch lba (r, t) =
      if is_lba r.buf_lba lba then (ok tt, (r, t)) else fetched r lba (reader.read_at t r.buf lba)

  -- What `buf.write` takes of the block, into a caller's buffer with n bytes left.
  unfoldable pub write_chunk : ℕ → ℕ → Io Bytes
  unfolding slice
  write_chunk seek n (r, t) = (
    Outcome.◌>>=◌
        (slice r.buf (seek % block_size) (min (r.size - seek / block_size * block_size) block_size))
        (λ chunk. ok (take n chunk)),
    (r, t),
  )

  unfoldable pub read_round : ℕ → ℕ → Io Bytes
  unfolding fetch write_chunk
  read_round seek n (r, t) = (fetch (r.start_lba + seek / block_size) >> write_chunk seek n) (r, t)

  -- The `while` loop, for n bytes left in the caller's buffer: the position that it reaches, and what
  -- it wrote.
  unfoldable pub read_loop : ℕ → ℕ → ℕ → Io (ℕ × Bytes)
  unfolding read_round
  read_loop zero seek n (r, t) = elim ((n == 0) || leb r.size seek) [
    | true ↦ (ok (seek, []), (r, t))
    | false ↦ (out_of_fuel, (r, t))
  ]
  read_loop (suc fuel) seek n (r, t) = elim ((n == 0) || leb r.size seek) [
    | true ↦ (ok (seek, []), (r, t))
    | false ↦
        (read_round seek n >>= λ chunk.
        read_loop fuel (seek + length chunk) (n - length chunk) >>= λ (seek, more).
        pure (seek, chunk ++ more))
          (r, t)
  ]

  abbrev set_seek : ℕ → Io (Unit {0})
  set_seek seek (r, t) = (ok tt, (record r { seek = seek }, t))

  -- `Read::read` into a buffer of n bytes: the bytes read, whose number is what it returns. Every
  -- round of the loop reads at least one byte, so n rounds are enough.
  unfoldable pub read : ℕ → Io Bytes
  unfolding read_loop
  read n (r, t) = (read_loop n r.seek n >>= λ (seek, out). set_seek seek >> pure out) (r, t)

pub data SeekFrom : Type 0 where
  start : ℕ → SeekFrom
  end : ℤ → SeekFrom
  current : ℤ → SeekFrom

module _ (c : Crates) where
  unfoldable pub seek_target : IsoFileReader → SeekFrom → Result IoError ℤ
  unfolding add_i64
  seek_target r (start p) = ok (to_i64 p)
  seek_target r (end p) = add_i64 c (to_i64 r.size) p
  seek_target r (current p) = add_i64 c (to_i64 r.seek) p

  abbrev set_position : IsoFileReader → Result IoError ℤ → Result IoError ℕ × IsoFileReader
  set_position r (ok (pos n)) = (ok n, record r { seek = n })
  set_position r (ok (negsuc n)) = (err invalid_input, r)
  set_position r (err e) = (err e, r)
  set_position r panic = (panic, r)
  set_position r out_of_fuel = (out_of_fuel, r)

  -- `Seek::seek`: the new position, or an error that leaves the reader as it was.
  unfoldable pub seek : SeekFrom → M IsoFileReader IoError ℕ
  unfolding seek_target
  seek p r = set_position r (seek_target r p)
