-- ===== src/Parse/VolumeDescriptor.antt =====
-- cdfs/src/parse/volume_descriptor.rs: the volume descriptors. `D` is the time stamp of the crate
-- `time`.
use iso9660_rs.Prelude.{ℕ, Option, none, some, ◌==◌, if◌then◌else◌}
use iso9660_rs.Outcome.{Result, IsoError, ok, ◌>>=◌}
use iso9660_rs.Crates.{Crates, Bytes, Str, Parser}
use iso9660_rs.Text.{chars}
use iso9660_rs.Parse.BothEndian.{both_endian16, both_endian32}
use iso9660_rs.Parse.DateTime.{date_time_ascii}
use iso9660_rs.Parse.Encoding.{
  CharacterEncoding, iso9660, character_encoding, decode_string, finish,
}
use iso9660_rs.Parse.DirectoryEntry.{DirectoryEntryHeader, directory_entry}

pub record VolumeDescriptorTable (D : Type 0) : Type 0 where
  pub system_identifier : Str
  pub volume_identifier : Str
  pub character_encoding : CharacterEncoding
  pub volume_space_size : ℕ
  pub volume_set_size : ℕ
  pub volume_sequence_number : ℕ
  pub logical_block_size : ℕ
  pub path_table_size : ℕ
  pub path_table_loc : ℕ
  pub optional_path_table_loc : ℕ
  pub root_directory_entry : DirectoryEntryHeader D
  pub root_directory_entry_identifier : Str
  pub volume_set_identifier : Str
  pub publisher_identifier : Str
  pub data_preparer_identifier : Str
  pub application_identifier : Str
  pub copyright_file_identifier : Str
  pub abstract_file_identifier : Str
  pub bibliographic_file_identifier : Str
  pub creation_time : D
  pub modification_time : D
  pub expiration_time : D
  pub effective_time : D
  pub file_structure_version : ℕ

pub data VolumeDescriptor (D : Type 0) : Type 0 where
  primary : VolumeDescriptorTable D → VolumeDescriptor D
  supplementary : VolumeDescriptorTable D → VolumeDescriptor D
  boot_record : Str → Str → Bytes → VolumeDescriptor D
  volume_descriptor_set_terminator : VolumeDescriptor D

module _ (c : Crates) where
  abbrev D : Type 0
  D = c.time.OffsetDateTime

  unfoldable pub parse_boot_record : Parser (VolumeDescriptor D)
  unfolding decode_string
  parse_boot_record i = do
    (i, boot_system_identifier) ← c.nom.map_parser (c.nom.take 32) (decode_string c iso9660) i
    (i, boot_identifier) ← c.nom.map_parser (c.nom.take 32) (decode_string c iso9660) i
    (i, payload) ← c.nom.take 1977 i
    ok (i, boot_record boot_system_identifier boot_identifier payload)

  unfoldable pub descriptor_table : Parser (VolumeDescriptorTable D)
  unfolding both_endian16 both_endian32 character_encoding directory_entry date_time_ascii
      decode_string
  descriptor_table i = do
    (i, _) ← c.nom.take 1 i
    (i, system_identifier) ← c.nom.take 32 i
    (i, volume_identifier) ← c.nom.take 32 i
    (i, _) ← c.nom.take 8 i
    (i, volume_space_size) ← both_endian32 c i
    (i, encoding) ← character_encoding c i
    (i, volume_set_size) ← both_endian16 c i
    (i, volume_sequence_number) ← both_endian16 c i
    (i, logical_block_size) ← both_endian16 c i
    (i, path_table_size) ← both_endian32 c i
    (i, path_table_loc) ← c.nom.le_u32 i
    (i, optional_path_table_loc) ← c.nom.le_u32 i
    (i, _) ← c.nom.take 4 i
    (i, _) ← c.nom.take 4 i
    (i, root_directory_entry) ← directory_entry c encoding i
    (i, volume_set_identifier) ← c.nom.take 128 i
    (i, publisher_identifier) ← c.nom.take 128 i
    (i, data_preparer_identifier) ← c.nom.take 128 i
    (i, application_identifier) ← c.nom.take 128 i
    (i, copyright_file_identifier) ← c.nom.take 38 i
    (i, abstract_file_identifier) ← c.nom.take 36 i
    (i, bibliographic_file_identifier) ← c.nom.take 37 i
    (i, creation_time) ← date_time_ascii c i
    (i, modification_time) ← date_time_ascii c i
    (i, expiration_time) ← date_time_ascii c i
    (i, effective_time) ← date_time_ascii c i
    (i, file_structure_version) ← c.nom.le_u8 i
    (_, system_identifier) ← decode_string c encoding system_identifier
    (_, volume_identifier) ← decode_string c encoding volume_identifier
    (_, volume_set_identifier) ← decode_string c encoding volume_set_identifier
    (_, publisher_identifier) ← decode_string c encoding publisher_identifier
    (_, data_preparer_identifier) ← decode_string c encoding data_preparer_identifier
    (_, application_identifier) ← decode_string c encoding application_identifier
    (_, copyright_file_identifier) ← decode_string c encoding copyright_file_identifier
    (_, abstract_file_identifier) ← decode_string c encoding abstract_file_identifier
    (_, bibliographic_file_identifier) ← decode_string c iso9660 bibliographic_file_identifier
    ok (
      i,
      record {
        system_identifier = system_identifier;
        volume_identifier = volume_identifier;
        character_encoding = encoding;
        volume_space_size = volume_space_size;
        volume_set_size = volume_set_size;
        volume_sequence_number = volume_sequence_number;
        logical_block_size = logical_block_size;
        path_table_size = path_table_size;
        path_table_loc = path_table_loc;
        optional_path_table_loc = optional_path_table_loc;
        root_directory_entry = root_directory_entry.0;
        root_directory_entry_identifier = root_directory_entry.1;
        volume_set_identifier = volume_set_identifier;
        publisher_identifier = publisher_identifier;
        data_preparer_identifier = data_preparer_identifier;
        application_identifier = application_identifier;
        copyright_file_identifier = copyright_file_identifier;
        abstract_file_identifier = abstract_file_identifier;
        bibliographic_file_identifier = bibliographic_file_identifier;
        creation_time = creation_time;
        modification_time = modification_time;
        expiration_time = expiration_time;
        effective_time = effective_time;
        file_structure_version = file_structure_version;
      },
    )

  unfoldable pub supplementary_descriptor : Parser (VolumeDescriptor D)
  unfolding descriptor_table
  supplementary_descriptor i = c.nom.map descriptor_table supplementary i

  unfoldable pub primary_descriptor : Parser (VolumeDescriptor D)
  unfolding descriptor_table
  primary_descriptor i = c.nom.map descriptor_table primary i

  unfoldable pub volume_descriptor : Parser (Option (VolumeDescriptor D))
  unfolding parse_boot_record primary_descriptor supplementary_descriptor
  volume_descriptor i = do
    (i, type_code) ← c.nom.le_u8 i
    (i, _) ← c.nom.tag (chars "CD001\u{1}") i
    if type_code == 0
        then c.nom.map parse_boot_record some i
        else if type_code == 1
        then c.nom.map primary_descriptor some i
        else if type_code == 2
        then c.nom.map supplementary_descriptor some i
        else if type_code == 255
        then ok (i, some volume_descriptor_set_terminator)
        else ok (i, none)

  -- `VolumeDescriptor::parse`.
  unfoldable pub parse : Bytes → Result IsoError (Option (VolumeDescriptor D))
  unfolding volume_descriptor
  parse bytes = finish (volume_descriptor bytes)
