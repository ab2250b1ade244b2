-- ===== src/Parse/DirectoryEntry.antt =====
-- cdfs/src/parse/directory_entry.rs: a directory record, its identifier and its system use area.
-- `D` is the time stamp of the crate `time`.
pub mod Framing
use iso9660_rs.Prelude.{ℕ, ◌-◌, ◌%◌, Option, List, [], ◌∷◌, ◌==◌, ◌&&◌, if◌then◌else◌, length}
use iso9660_rs.Outcome.{Result, IsoError, ok, ◌>>=◌, ◌>>◌}
use iso9660_rs.Crates.{Crates, Bytes, Str, Parser}
use iso9660_rs.Machine.{sub_word, usize_mod}
use iso9660_rs.Parse.BothEndian.{both_endian16, both_endian32}
use iso9660_rs.Parse.DateTime.{date_time}
use iso9660_rs.Parse.Encoding.{CharacterEncoding, value, decode_string, finish}
use iso9660_rs.Parse.Susp.Entries.{system_use_entries}
use iso9660_rs.Parse.Susp.Frame.{check}
use iso9660_rs.Parse.Susp.Types.{SystemUseEntry}

-- FileFlags, each flag by the number of its bit.
abbrev pub existance : ℕ
existance = 1

abbrev pub directory : ℕ
directory = 2

abbrev pub associated_file : ℕ
associated_file = 4

abbrev pub file_flags_all : ℕ
file_flags_all = 0x9f

pub record DirectoryEntryHeader (D : Type 0) : Type 0 where
  pub length : ℕ
  pub extended_attribute_record_length : ℕ
  pub extent_loc : ℕ
  pub extent_length : ℕ
  pub time : D
  pub file_flags : ℕ
  pub file_unit_size : ℕ
  pub interleave_gap_size : ℕ
  pub volume_sequence_number : ℕ
  pub character_encoding : CharacterEncoding

module _ (c : Crates) where
  -- A record: its header, its identifier, and the system use entries where they parse.
  abbrev pub Record : Type 0
  Record =
      DirectoryEntryHeader c.time.OffsetDateTime
      × Str
      × Option (List (SystemUseEntry c.time.OffsetDateTime))

  -- The identifiers of one byte, 0 and 1, stand for the directory itself and for its parent.
  unfoldable pub identifier_text : CharacterEncoding → Parser Str
  unfolding decode_string
  identifier_text encoding bytes =
      if length bytes == 1
      then c.nom.alt
          (value c (0 ∷ []) (c.nom.tag (0 ∷ []))
            ∷ value c (1 ∷ []) (c.nom.tag (1 ∷ []))
            ∷ decode_string c encoding
            ∷ [])
          bytes
      else decode_string c encoding bytes

  -- Positions in the slice are differences of lengths that only shrink.
  unfoldable pub directory_entry : CharacterEncoding → Parser Record
  unfolding both_endian16 both_endian32 date_time check identifier_text sub_word
  directory_entry encoding i = do
    let orig_len = length i
    (i, entry_length) ← c.nom.le_u8 i
    (i, extended_attribute_record_length) ← c.nom.le_u8 i
    (i, extent_loc) ← both_endian32 c i
    (i, extent_length) ← both_endian32 c i
    (i, time) ← date_time c i
    (i, file_flags) ← c.nom.le_u8 i
    let file_flags = c.bitflags.from_bits_truncate file_flags_all file_flags
    (i, file_unit_size) ← c.nom.le_u8 i
    (i, interleave_gap_size) ← c.nom.le_u8 i
    (i, volume_sequence_number) ← both_endian16 c i
    check c ((interleave_gap_size == 0) && (file_unit_size == 0))
    let identifier_len = length i
    (i, identifier) ← c.nom.map_parser (c.nom.length_data c.nom.le_u8) (identifier_text encoding) i
    let identifier_len = identifier_len - length i
    (i, _) ← if identifier_len % 2 == 0 then ok (i, []) else c.nom.take 1 i
    let offset = orig_len - length i
    remainder ← sub_word c usize_mod entry_length offset
    (i, susp) ← c.nom.map_parser (c.nom.take remainder) (c.nom.opt (system_use_entries c)) i
    ok (
      i,
      (
        record {
          length = entry_length;
          extended_attribute_record_length = extended_attribute_record_length;
          extent_loc = extent_loc;
          extent_length = extent_length;
          time = time;
          file_flags = file_flags;
          file_unit_size = file_unit_size;
          interleave_gap_size = interleave_gap_size;
          volume_sequence_number = volume_sequence_number;
          character_encoding = encoding;
        },
        identifier,
        susp,
      ),
    )

  -- `DirectoryEntryHeader::parse`.
  unfoldable pub parse : CharacterEncoding → Bytes → Result IsoError Record
  parse encoding input = finish (directory_entry encoding input)
