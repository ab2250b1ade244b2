-- ===== src/Parse/Susp/Entries.antt =====
-- cdfs/src/parse/susp.rs: the data of each kind of entry, and the loop over the entries.
use iso9660_rs.Prelude.{
  ℕ, Bool, true, false, Option, none, some, List, [], ◌∷◌, ◌==◌, ◌&&◌, ◌||◌, if◌then◌else◌, length,
}
use iso9660_rs.Outcome.{Result, NomError, ok, panic, ◌>>=◌, ◌>>◌}
use iso9660_rs.Crates.{Crates, Bytes, Str, Parser, NomRes}
use iso9660_rs.Text.{chars, from_utf8, trim_end, trim_matches, str_eq}
use iso9660_rs.Parse.BothEndian.{both_endian32}
use iso9660_rs.Parse.DateTime.{date_time}
use iso9660_rs.Parse.Encoding.{value}
use iso9660_rs.Parse.Susp.Flags.{
  name_all, link_all, mode_all, rock_ridge_all, time_all, time_creation, time_modify, time_access,
  time_attributes, time_backup, time_expiration, time_effective,
}
use iso9660_rs.Parse.Susp.Frame.{check, check_sig, parse}
use iso9660_rs.Parse.Susp.Types.{
  SuspExtension, rock_ridge_1_09, rock_ridge_1_12, AlternateName, ContinuationArea,
  ExtensionsReference, PosixTimestamp, PosixAttributes, SymbolicLinkRecord, SymbolicLink, Unknown,
  SystemUseEntry, continuation_area, extensions_reference, susp_indicator, alternate_name,
  posix_attributes, posix_timestamp, rock_ridge, symbolic_link, child_link, relocated_directory,
  unknown,
}

-- `match flags.contains(F) { true => it.next(), false => None }`.
next_if : {D : Type 0} → Bool → List D → Option D × List D
next_if false it = (none, it)
next_if true [] = (none, [])
next_if true (t ∷ it) = (some t, it)

module _ (c : Crates) where
  abbrev D : Type 0
  D = c.time.OffsetDateTime

  unfoldable pub parse_alternate_name : Bytes → Bytes → ℕ → NomRes AlternateName
  unfolding check_sig
  parse_alternate_name input sig version = do
    check_sig c (chars "NM") sig version
    (input, flags) ← c.nom.map c.nom.le_u8 (c.bitflags.from_bits_truncate name_all) input
    (input, name) ← c.nom.map (c.nom.map_res c.nom.rest from_utf8) (trim_matches 0) input
    ok (input, record { name = name; flags = flags })

  unfoldable pub parse_child_link : Bytes → Bytes → ℕ → NomRes ℕ
  unfolding check_sig both_endian32
  parse_child_link input sig version = do
    check_sig c (chars "CL") sig version
    (input, lba) ← both_endian32 c input
    ok (input, lba)

  unfoldable pub parse_continuation_area : Bytes → Bytes → ℕ → NomRes ContinuationArea
  unfolding check_sig check both_endian32
  parse_continuation_area input sig version = do
    check_sig c (chars "CE") sig version
    check c (length input == 24)
    (input, block_location) ← both_endian32 c input
    (input, offset) ← both_endian32 c input
    (input, length) ← both_endian32 c input
    ok (input, record { block_location = block_location; offset = offset; length = length })

  -- The description and the source are read and then dropped. An unknown extension panics.
  abbrev extension_of : Str → ℕ → Result NomError SuspExtension
  extension_of id version =
      if str_eq id (chars "RRIP_1991A") && (version == 1)
      then ok rock_ridge_1_09
      else if str_eq id (chars "IEEE_P1282") && (version == 1)
      then ok rock_ridge_1_12
      else if str_eq id (chars "IEEE_1282") && (version == 1)
      then ok rock_ridge_1_12
      else panic

  unfoldable pub susp_extension : Parser SuspExtension
  susp_extension input = do
    (input, id_len) ← c.nom.le_u8 input
    (input, description_len) ← c.nom.le_u8 input
    (input, source_len) ← c.nom.le_u8 input
    (input, version) ← c.nom.le_u8 input
    (input, id) ← c.nom.map (c.nom.map_res (c.nom.take id_len) from_utf8) trim_end input
    (input, _) ← c.nom.map (c.nom.map_res (c.nom.take description_len) from_utf8) trim_end input
    (input, _) ← c.nom.map (c.nom.map_res (c.nom.take source_len) from_utf8) trim_end input
    extension ← extension_of id version
    ok (input, extension)

  unfoldable pub parse_extensions_reference : Bytes → Bytes → ℕ → NomRes ExtensionsReference
  unfolding check_sig susp_extension
  parse_extensions_reference input sig version = do
    check_sig c (chars "ER") sig version
    (input, extensions) ← c.nom.many1 susp_extension input
    ok (input, record { extensions = extensions })

  -- The time stamps are taken one after the other, in the order of the flags' bits.
  unfoldable pub timestamps_of : ℕ → List D → PosixTimestamp D
  unfolding next_if
  timestamps_of flags it =
      let (creation, it) = next_if (c.bitflags.contains flags time_creation) it in
      let (modify, it) = next_if (c.bitflags.contains flags time_modify) it in
      let (access, it) = next_if (c.bitflags.contains flags time_access) it in
      let (attributes, it) = next_if (c.bitflags.contains flags time_attributes) it in
      let (backup, it) = next_if (c.bitflags.contains flags time_backup) it in
      let (expiration, it) = next_if (c.bitflags.contains flags time_expiration) it in
      let (effective, it) = next_if (c.bitflags.contains flags time_effective) it in
      record {
        access = access;
        attributes = attributes;
        backup = backup;
        creation = creation;
        effective = effective;
        expiration = expiration;
        modify = modify;
      }

  unfoldable pub parse_posix_timestamp : Bytes → Bytes → ℕ → NomRes (PosixTimestamp D)
  unfolding check_sig timestamps_of date_time
  parse_posix_timestamp input sig version = do
    check_sig c (chars "TF") sig version
    (input, flags) ← c.nom.map c.nom.le_u8 (c.bitflags.from_bits_truncate time_all) input
    (input, timestamps) ← c.nom.many1 (date_time c) input
    ok (input, timestamps_of flags timestamps)

  unfoldable pub parse_posix_attributes : Bytes → Bytes → ℕ → NomRes PosixAttributes
  unfolding check_sig check both_endian32
  parse_posix_attributes input sig version = do
    check_sig c (chars "PX") sig version
    check c ((length input == 32) || (length input == 40))
    (input, mode) ← c.nom.map (both_endian32 c) (c.bitflags.from_bits_truncate mode_all) input
    (input, links) ← both_endian32 c input
    (input, uid) ← both_endian32 c input
    (input, gid) ← both_endian32 c input
    (input, inode) ← c.nom.opt (both_endian32 c) input
    ok (input, record { mode = mode; links = links; uid = uid; gid = gid; inode = inode })

  unfoldable pub parse_relocated_directory : Bytes → Bytes → ℕ → NomRes Bool
  unfolding check_sig check
  parse_relocated_directory input sig version = do
    check_sig c (chars "RE") sig version
    check c (length input == 0)
    ok (input, true)

  unfoldable pub parse_rock_ridge : Bytes → Bytes → ℕ → NomRes ℕ
  unfolding check_sig check
  parse_rock_ridge input sig version = do
    check_sig c (chars "RR") sig version
    check c (length input == 1)
    (input, flags) ← c.nom.map c.nom.le_u8 (c.bitflags.from_bits_truncate rock_ridge_all) input
    ok (input, flags)

  unfoldable pub parse_susp_indicator : Bytes → Bytes → ℕ → NomRes ℕ
  unfolding check_sig
  parse_susp_indicator input sig version = do
    check_sig c (chars "SP") sig version
    (input, _) ← c.nom.tag (0xbe ∷ 0xef ∷ []) input
    (input, skip) ← c.nom.le_u8 input
    ok (input, skip)

  unfoldable pub parse_symbolic_link_record : Parser SymbolicLinkRecord
  parse_symbolic_link_record input = do
    (input, flags) ← c.nom.map c.nom.le_u8 (c.bitflags.from_bits_truncate link_all) input
    (input, component) ← c.nom.map_res (c.nom.length_data c.nom.le_u8) from_utf8 input
    ok (input, record { flags = flags; component = component })

  unfoldable pub parse_symbolic_link : Bytes → Bytes → ℕ → NomRes SymbolicLink
  unfolding check_sig parse_symbolic_link_record
  parse_symbolic_link input sig version = do
    check_sig c (chars "SL") sig version
    (input, should_continue) ←
        c.nom.alt (value c true (c.nom.tag (1 ∷ [])) ∷ value c false (c.nom.tag (0 ∷ [])) ∷ [])
          input
    (input, records) ← c.nom.many1 parse_symbolic_link_record input
    ok (input, record { should_continue = should_continue; records = records })

  unfoldable pub parse_unknown : Bytes → Bytes → ℕ → NomRes Unknown
  parse_unknown input sig version =
      ok (input, record { sig = sig; version = version; payload = input })

  abbrev entry_as :
      {A : Type 0}
      → Str
      → (Bytes → Bytes → ℕ → NomRes A)
      → (A → SystemUseEntry D)
      → Parser (SystemUseEntry D)
  entry_as signature parse_data constructor =
      c.nom.map (parse c (some signature) parse_data) constructor

  -- The kinds of entry in the order in which they are tried; what no signature fits, or what its
  -- own parser refuses, is read as `unknown`.
  unfoldable pub system_use_entry : Parser (SystemUseEntry D)
  unfolding parse parse_susp_indicator parse_continuation_area parse_extensions_reference
      parse_posix_timestamp parse_alternate_name parse_posix_attributes parse_rock_ridge
      parse_child_link parse_relocated_directory parse_symbolic_link parse_unknown
  system_use_entry = c.nom.alt (
      entry_as (chars "SP") parse_susp_indicator susp_indicator
      ∷ entry_as (chars "CE") parse_continuation_area continuation_area
      ∷ entry_as (chars "ER") parse_extensions_reference extensions_reference
      ∷ entry_as (chars "TF") parse_posix_timestamp posix_timestamp
      ∷ entry_as (chars "NM") parse_alternate_name alternate_name
      ∷ entry_as (chars "PX") parse_posix_attributes posix_attributes
      ∷ entry_as (chars "RR") parse_rock_ridge rock_ridge
      ∷ entry_as (chars "CL") parse_child_link child_link
      ∷ entry_as (chars "RE") parse_relocated_directory relocated_directory
      ∷ entry_as (chars "SL") parse_symbolic_link symbolic_link
      ∷ c.nom.map (parse c none parse_unknown) unknown
      ∷ [])

  unfoldable pub system_use_entries : Parser (List (SystemUseEntry D))
  system_use_entries input = c.nom.many1 system_use_entry input
