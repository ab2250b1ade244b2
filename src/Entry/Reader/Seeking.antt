-- ===== src/Entry/Reader/Seeking.antt =====
-- `Seek for ISOFileReader` of cdfs/src/directory_entry/isofile.rs against positions as integers.
use iso9660_rs.Prelude.{ℕ, ◌^◌, ◌<◌, ◌≡◌, true, arith, ℤ, pos, negsuc, ◌+ℤ◌}
use iso9660_rs.Outcome.{Result, ok, err, IoError, invalid_input}
use iso9660_rs.Crates.{Crates}
use iso9660_rs.Machine.{is_i64, add_i64}
use iso9660_rs.Entry.Reader.{IsoFileReader, SeekFrom, start, end, current, seek}

-- The position that is asked for, as an integer.
abbrev pub target : IsoFileReader → SeekFrom → ℤ
target r (start p) = pos p
target r (end p) = pos r.size +ℤ p
target r (current p) = pos r.seek +ℤ p

abbrev pub moved : IsoFileReader → ℤ → Result IoError ℕ × IsoFileReader
moved r (pos n) = (ok n, record r { seek = n })
moved r (negsuc n) = (err invalid_input, r)

-- Where the size, the position and the position asked for lie in `i64`, seeking goes exactly there,
-- also behind the end of the file, and a position before the start is refused and changes nothing.
pub seek_lem :
    (c : Crates) (r : IsoFileReader) (p : SeekFrom)
    → r.size < 2 ^ 63
    → r.seek < 2 ^ 63
    → is_i64 (target r p) ≡ true
    → seek c p r ≡ moved r (target r p)
unfolding seek add_i64
seek_lem c r (start p) hs hk h = ground arith
seek_lem c r (end p) hs hk h = ground arith
seek_lem c r (current p) hs hk h = ground arith
