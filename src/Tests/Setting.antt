-- ===== src/Tests/Setting.antt =====
-- A build of cdfs for the runs: nom, bitflags and itertools as documented, a decoder of UTF-16 for
-- the basic plane, and a calendar of numbers. A reader of an image in memory.
use iso9660_rs.Prelude.{
  ℕ, ◌+◌, ◌*◌, true, false, Bool, some, [], ◌∷◌, ◌++◌, pos_part, length, drop, append-nil,
  drop-length,
}
use iso9660_rs.Outcome.{ok}
use iso9660_rs.Crates.{Crates, Bytes, Str, TimeCrate}
use iso9660_rs.Crates.Documented.{
  doc_nom, doc_bitflags, doc_itertools, IsCrates, documented-IsCrates,
}
use iso9660_rs.FileRef.{Iso9660Reader, block_size}
use iso9660_rs.Entry.Reader.Contents.{Serves, block, length-block}

abbrev decode_pairs : Bytes → Str × Bool
decode_pairs (a ∷ b ∷ i) = let (s, bad) = decode_pairs i in ((256 * a + b) ∷ s, bad)
decode_pairs [] = ([], false)
decode_pairs (a ∷ []) = ([], true)

abbrev pub numbers : TimeCrate
numbers = record {
  Month = ℕ;
  Date = ℕ;
  Time = ℕ;
  UtcOffset = ℕ;
  OffsetDateTime = ℕ;
  SystemTime = ℕ;
  january = 1;
  utc = 0;
  month_try_from = λ m. some m;
  from_calendar_date = λ y m d. some (pos_part y * 400 + m * 31 + d);
  from_hms = λ h m s. some (h * 3600 + m * 60 + s);
  from_hms_milli = λ h m s ms. some (h * 3600 + m * 60 + s);
  from_whole_seconds = λ s. some (pos_part s);
  assume_offset = λ d t o. d * 86400 + t + o;
  into_system_time = λ t. t + 1;
}

abbrev pub crates : Crates
crates = record {
  nom = doc_nom;
  bitflags = doc_bitflags;
  itertools = doc_itertools;
  utf_16be = decode_pairs;
  time = numbers;
  assertions = false;
  big_endian = false;
  overflow_checks = true;
}

pub crates-IsCrates : IsCrates crates
crates-IsCrates = documented-IsCrates crates

-- A reader of an image in memory. It has no state.
abbrev pub image_reader : Bytes → Iso9660Reader (Unit {0})
image_reader img = record {
  read_at = λ t buf lba.
      (ok (length (block img lba)), block img lba ++ drop (length (block img lba)) buf, t);
}

pub image_reader-Serves : (img : Bytes) → Serves (image_reader img) img
image_reader-Serves img = record {
  serves = λ t buf lba whole inside.
      let full = length-block img lba inside in
      rw (full, drop-length {A = ℕ} block_size buf whole, append-nil);
}
