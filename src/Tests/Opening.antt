-- ===== src/Tests/Opening.antt =====
-- Opening an image of one primary descriptor and a terminator.
use iso9660_rs.Prelude.{
  ℕ, ◌*◌, ◌≡◌, refl, none, some, arith, [], ◌∷◌, ◌++◌, ◌==◌, if◌then◌else◌, replicate,
}
use iso9660_rs.Outcome.{ok}
use iso9660_rs.Crates.{Bytes}
use iso9660_rs.FileRef.{Iso9660Reader}
use iso9660_rs.Text.{chars}
use iso9660_rs.Parse.BothEndian.RoundTrip.{le16, be16, le32, be32}
use iso9660_rs.Parse.Encoding.{iso9660}
use iso9660_rs.Entry.Types.{no_meta}
use iso9660_rs.Parse.VolumeDescriptor.{
  VolumeDescriptorTable, primary, volume_descriptor_set_terminator, parse,
}
use iso9660_rs.Iso.{Iso9660, new, descriptor_in}
use iso9660_rs.Iso.Descriptors.{expected, new-expected}
use iso9660_rs.Iso.Opening.{Opened, new-Opened}
use iso9660_rs.Tests.Setting.{crates}

abbrev pub both32 : ℕ → Bytes
both32 n = le32 n ++ be32 n

abbrev pub both16 : ℕ → Bytes
both16 n = le16 n ++ be16 n

abbrev pub zeros : ℕ → Bytes
zeros n = replicate n 0

abbrev pub root_record : Bytes
root_record =
    34
    ∷ 0
    ∷ (both32 18
        ++ (both32 2048 ++ (100 ∷ 1 ∷ 1 ∷ 0 ∷ 0 ∷ 0 ∷ 0 ∷ 2 ∷ 0 ∷ 0 ∷ (both16 1 ++ (1 ∷ 0 ∷ [])))))

abbrev pub primary_block : Bytes
primary_block =
    1
    ∷ (chars "CD001"
        ++ (1
            ∷ (zeros 73
                ++ (both32 19
                    ++ (zeros 32
                        ++ (both16 1
                            ++ (both16 1
                                ++ (both16 2048 ++ (zeros 24 ++ (root_record ++ zeros 1858))))))))))

abbrev pub last_block : Bytes
last_block = 255 ∷ (chars "CD001" ++ (1 ∷ zeros 2041))

abbrev disc : Iso9660Reader (Unit {0})
disc = record {
  read_at = λ t buf lba. (ok 2048, (if lba == 16 then primary_block else last_block), t);
}

abbrev no_time : ℕ
no_time = 760000 * 86400

abbrev pub table : VolumeDescriptorTable ℕ
table = record {
  system_identifier = zeros 32;
  volume_identifier = zeros 32;
  character_encoding = iso9660;
  volume_space_size = 19;
  volume_set_size = 1;
  volume_sequence_number = 1;
  logical_block_size = 2048;
  path_table_size = 0;
  path_table_loc = 0;
  optional_path_table_loc = 0;
  root_directory_entry = record {
    length = 34;
    extended_attribute_record_length = 0;
    extent_loc = 18;
    extent_length = 2048;
    time = 800032 * 86400;
    file_flags = 2;
    file_unit_size = 0;
    interleave_gap_size = 0;
    volume_sequence_number = 1;
    character_encoding = iso9660;
  };
  root_directory_entry_identifier = 0 ∷ [];
  volume_set_identifier = zeros 128;
  publisher_identifier = zeros 128;
  data_preparer_identifier = zeros 128;
  application_identifier = zeros 128;
  copyright_file_identifier = zeros 38;
  abstract_file_identifier = zeros 36;
  bibliographic_file_identifier = zeros 37;
  creation_time = no_time;
  modification_time = no_time;
  expiration_time = no_time;
  effective_time = no_time;
  file_structure_version = 0;
}

abbrev pub iso : Iso9660 ℕ
iso = record {
  root = record { header = table.root_directory_entry; identifier = chars "."; ext = no_meta };
  sup_root = none;
  primary = primary table;
}

disc_opens : new crates disc 2 tt ≡ (ok iso, tt)
unfolding new parse iso9660_rs.Parse.DateTime.date_or_default
    iso9660_rs.Parse.DateTime.time_or_default iso9660_rs.Parse.Susp.Entries.system_use_entries
    iso9660_rs.Parse.Susp.Entries.system_use_entry iso9660_rs.Parse.DateTime.ascii_i32
    iso9660_rs.Text.from_utf8 mathlib.Core.Option.bind iso9660_rs.Text.i32_from_str
    iso9660_rs.Machine.fit iso9660_rs.Entry.Names.new_directory iso9660_rs.Text.trim_end
    iso9660_rs.Parse.DateTime.offset_of iso9660_rs.Text.str_eq
disc_opens = refl

new-Opened_example : (t : VolumeDescriptorTable ℕ) × Opened iso t
new-Opened_example = new-Opened crates disc 2 tt tt iso disc_opens

abbrev zero_block : Bytes
zero_block = zeros 2048

primary_read : descriptor_in crates disc (disc.read_at tt zero_block 16) ≡ ok (some (primary table))
unfolding descriptor_in parse iso9660_rs.Parse.DateTime.date_or_default
    iso9660_rs.Parse.DateTime.time_or_default iso9660_rs.Parse.Susp.Entries.system_use_entries
    iso9660_rs.Parse.Susp.Entries.system_use_entry iso9660_rs.Parse.DateTime.ascii_i32
    iso9660_rs.Text.from_utf8 mathlib.Core.Option.bind iso9660_rs.Text.i32_from_str
    iso9660_rs.Machine.fit iso9660_rs.Entry.Names.new_directory iso9660_rs.Text.trim_end
    iso9660_rs.Parse.DateTime.offset_of iso9660_rs.Text.str_eq
primary_read = refl

terminator_read :
    descriptor_in crates disc (disc.read_at tt primary_block 17)
    ≡ ok (some volume_descriptor_set_terminator)
unfolding descriptor_in parse
terminator_read = refl

new-expected_example :
    (new crates disc 2 tt).0 ≡ expected none none (some (primary table) ∷ []) none
new-expected_example =
    new-expected crates disc 2 tt (some (primary table) ∷ []) none (omega arith)
      (primary_read, refl, terminator_read)
