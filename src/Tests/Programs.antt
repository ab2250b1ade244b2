-- ===== src/Tests/Programs.antt =====
-- Looking up a path, and the example programs, at a small image: a root directory of one file.
use iso9660_rs.Prelude.{
  false, ℕ, ◌+◌, ◌*◌, ◌≡◌, refl, true, some, [], ◌∷◌, ◌++◌, ltb, ◌==◌, if◌then◌else◌, arith, length,
  take, drop, replicate, length-replicate, lt→ltb,
}
use iso9660_rs.Outcome.{ok}
use iso9660_rs.Crates.{Bytes, Str}
use iso9660_rs.FileRef.{Iso9660Reader, ReadSeek, reader}
use iso9660_rs.FileRef.Cursor.{reader-Serves}
use iso9660_rs.Text.{chars, split}
use iso9660_rs.Parse.DirectoryEntry.{DirectoryEntryHeader}
use iso9660_rs.Parse.Encoding.{iso9660}
use iso9660_rs.Entry.Reader.Contents.{Serves}
use iso9660_rs.Entry.Types.{IsoFile, DirectoryEntry, no_meta}
use iso9660_rs.Iso.{new, open_path, root, is_rr}
use iso9660_rs.Entry.Find.{find, find_recursive, segments}
use iso9660_rs.Entry.Find.Paths.{Spells, nothing, slash, before, here, below, find_recursive-Leads}
use iso9660_rs.Examples.PrintFile.{main}
use iso9660_rs.Examples.PrintFile.Prints.{main-writes}
use iso9660_rs.Tests.Setting.{crates, image_reader, image_reader-Serves}
use iso9660_rs.Tests.Opening.{both16, both32, iso, root_record, primary_block, last_block}

-- The first blocks of the image.
abbrev image : Bytes
image = replicate 6144 7

abbrev file_record : Bytes
file_record =
    36
    ∷ 0
    ∷ (both32 1
        ++ (both32 3000
            ++ (100 ∷ 1 ∷ 1 ∷ 0 ∷ 0 ∷ 0 ∷ 0 ∷ 0 ∷ 0 ∷ 0 ∷ (both16 1 ++ (3 ∷ chars "A;1")))))

abbrev pub root_block : Bytes
root_block = root_record ++ (file_record ++ replicate 1978 0)

abbrev behind : ℕ → Bytes
behind lba = if lba == 16 then primary_block else if lba == 17 then last_block else root_block

abbrev disc : Iso9660Reader (Unit {0})
disc = record {
  read_at = λ t buf lba.
      if ltb lba 3 then (image_reader image).read_at t buf lba else (ok 2048, behind lba, t);
}

disc-Serves : Serves disc image
disc-Serves = record {
  serves = λ t buf lba whole inside.
      let low : ltb lba 3 ≡ true =
        lt→ltb lba 3 (omega (arith, inside, length-replicate {A = ℕ} 6144 7)) in
      rw low ((image_reader-Serves image).serves t buf lba whole inside);
}

abbrev pub file : IsoFile ℕ
file = record {
  header = record {
    length = 36;
    extended_attribute_record_length = 0;
    extent_loc = 1;
    extent_length = 3000;
    time = 800032 * 86400;
    file_flags = 0;
    file_unit_size = 0;
    interleave_gap_size = 0;
    volume_sequence_number = 1;
    character_encoding = iso9660;
  };
  identifier = chars "A";
  version = 1;
  ext = no_meta;
}

opens : new crates disc 2 tt ≡ (ok iso, tt)
unfolding new iso9660_rs.Parse.VolumeDescriptor.parse iso9660_rs.Parse.DateTime.date_or_default
    iso9660_rs.Parse.DateTime.time_or_default iso9660_rs.Parse.Susp.Entries.system_use_entries
    iso9660_rs.Parse.Susp.Entries.system_use_entry iso9660_rs.Parse.DateTime.ascii_i32
    iso9660_rs.Text.from_utf8 mathlib.Core.Option.bind iso9660_rs.Text.i32_from_str
    iso9660_rs.Machine.fit iso9660_rs.Entry.Names.new_directory iso9660_rs.Text.trim_end
    iso9660_rs.Parse.DateTime.offset_of iso9660_rs.Text.str_eq
opens = refl

no_rock_ridge : is_rr crates disc 2 iso tt ≡ (ok false, tt)
unfolding is_rr iso9660_rs.Entry.Directory.read_entry_at iso9660_rs.Parse.DirectoryEntry.parse
    iso9660_rs.Parse.DirectoryEntry.directory_entry iso9660_rs.Parse.DateTime.date_or_default
    iso9660_rs.Parse.DateTime.time_or_default iso9660_rs.Parse.DateTime.offset_of
    iso9660_rs.Parse.Susp.Entries.system_use_entries iso9660_rs.Parse.Susp.Entries.system_use_entry
    iso9660_rs.Text.str_eq iso9660_rs.Entry.Meta.split_continuation iso9660_rs.Entry.Meta.extra_meta
    mathlib.Core.List.filter_map iso9660_rs.Entry.Names.new_entry
    iso9660_rs.Entry.Directory.block_count iso9660_rs.Entry.Meta.child_link_of
    iso9660_rs.Entry.Find.is_rock_ridge iso9660_rs.Entry.Find.next iso9660_rs.Entry.Find.contents
no_rock_ridge = refl

has_file : find crates disc 2 iso.root (chars "a") tt ≡ (ok (some (DirectoryEntry.file file)), tt)
unfolding find iso9660_rs.Entry.Directory.read_entry_at iso9660_rs.Parse.DirectoryEntry.parse
    iso9660_rs.Parse.DirectoryEntry.directory_entry iso9660_rs.Parse.DateTime.date_or_default
    iso9660_rs.Parse.DateTime.time_or_default iso9660_rs.Parse.DateTime.offset_of
    iso9660_rs.Parse.Susp.Entries.system_use_entries iso9660_rs.Parse.Susp.Entries.system_use_entry
    iso9660_rs.Text.str_eq iso9660_rs.Entry.Meta.split_continuation iso9660_rs.Entry.Meta.extra_meta
    mathlib.Core.List.filter_map iso9660_rs.Entry.Names.new_entry
    iso9660_rs.Entry.Directory.block_count iso9660_rs.Entry.Meta.child_link_of
    iso9660_rs.Text.eq_ignore_ascii_case iso9660_rs.Entry.Names.identifier iso9660_rs.Text.from_utf8
    mathlib.Core.Option.bind iso9660_rs.Text.rsplit_at iso9660_rs.Text.trim_end
    iso9660_rs.Text.u16_from_str iso9660_rs.Text.ends_with
has_file = refl

-- The path `//a/`.
abbrev path_a : Str
path_a = b'/' ∷ b'/' ∷ (chars "a" ++ (b'/' ∷ []))

path_a-Spells : Spells path_a (chars "a" ∷ [])
path_a-Spells = slash (slash (before (chars "a") ((λ e. cc e), (refl, tt)) nothing))

find_recursive-Leads_example :
    find_recursive crates disc 2 iso.root path_a tt ≡ (ok (some (DirectoryEntry.file file)), tt)
find_recursive-Leads_example =
    find_recursive-Leads crates disc 2 iso.root path_a (chars "a" ∷ []) tt
      (ok (some (DirectoryEntry.file file)), tt) path_a-Spells
      (below iso.root (chars "a") [] tt tt (DirectoryEntry.file file)
        (ok (some (DirectoryEntry.file file)), tt) has_file (here (DirectoryEntry.file file) tt))

finds : open_path crates disc 2 iso (chars "/a") tt ≡ (ok (some (DirectoryEntry.file file)), tt)
unfolding open_path root find_recursive segments split
finds = rw (no_rock_ridge, has_file)

main-writes_example :
    main crates disc (λ text. 32) 2 4000 (ok tt) (some (chars "/a"))
    ≡ ok (take 3000 (drop 2048 image))
main-writes_example =
    main-writes crates disc (λ text. 32) 2 4000 image disc-Serves (λ text. omega arith) tt tt tt iso
      (chars "/a") file opens finds (omega (arith, length-replicate {A = ℕ} 6144 7)) (omega arith)

-- The state of a cursor is its position.
abbrev cursor : ReadSeek ℕ
cursor = record {
  seek = λ t p. (ok p, p);
  read = λ t buf.
      let got = take (length buf) (drop t image) in
      (ok (length got), got ++ drop (length got) buf, t + length got);
}

reader-Serves_example : Serves (reader crates cursor) image
reader-Serves_example =
    reader-Serves crates cursor image
      (record {
        position = λ t. t;
        seeks = λ t p. (p, refl, refl);
        reads = λ t buf. (t + length (take (length buf) (drop t image)), refl);
      })
      (omega (arith, length-replicate {A = ℕ} 6144 7))
