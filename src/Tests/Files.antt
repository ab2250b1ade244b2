-- ===== src/Tests/Files.antt =====
-- Reading files, seeking, the places of records, and the file handlers of FUSE at
-- concrete inputs.
use iso9660_rs.Prelude.{
  ℕ, if◌then◌else◌, ◌==◌, ◌+◌, ◌*◌, ◌<◌, ◌≤◌, ◌≡◌, refl, true, false, none, some, [], ◌∷◌, arith,
  length, length-replicate, replicate, take, drop, pos, negsuc, List,
}
use iso9660_rs.Outcome.{ok, err, IsoError}
use iso9660_rs.Crates.{Bytes}
use iso9660_rs.FileRef.{block_size}
use iso9660_rs.HashMap.{get}
use iso9660_rs.Text.{chars}
use iso9660_rs.Parse.DirectoryEntry.{DirectoryEntryHeader}
use iso9660_rs.Parse.Encoding.{iso9660}
use iso9660_rs.Entry.Directory.{block_count}
use iso9660_rs.Entry.Directory.Offsets.{block_count_lem}
use iso9660_rs.Entry.Reader.{IsoFileReader, open_reader, SeekFrom, seek, read}
use iso9660_rs.Entry.Reader.Contents.{IsCoherent, SameFile, contents, read-contents}
use iso9660_rs.Entry.Reader.Seeking.{seek_lem, moved, target}
use iso9660_rs.Entry.Types.{IsoDirectory, IsoFile, DirectoryEntry, no_meta}
use iso9660_rs.Fuse.Handlers.{open_file, read_file, release}
use iso9660_rs.Fuse.Handlers.Files.{file_bytes, read_file-two_handles, read_file-open_file}
use iso9660_rs.Fuse.Handlers.Release.{released_state, release_lem}
use iso9660_rs.Fuse.Types.{DirItem, Reply, IsoFuse, einval}
use iso9660_rs.Tests.Setting.{crates, image_reader, image_reader-Serves}
use mathlib.Core.Bool.{Bool}

-- Three blocks.
abbrev image : Bytes
image = replicate 6144 7

abbrev file_reader : IsoFileReader
file_reader = record {
  buf = replicate 2048 0;
  buf_lba = none;
  seek = 5;
  start_lba = 1;
  size = 3000;
}

read-contents_example :
    let out = take 100 (drop 5 (contents image file_reader)) in
    (r' : IsoFileReader) × (t' : Unit {0}) × (read (image_reader image) 100 (file_reader, tt)
      ≡ (ok out, (r', t')))
    × IsCoherent image r'
    × SameFile file_reader r'
    × (r'.seek ≡ 5 + length out)
read-contents_example =
    read-contents (image_reader image) image (image_reader-Serves image) file_reader tt 100
      (record {
        whole = length-replicate {A = ℕ} 2048 0;
        holds = tt;
        inside = omega (arith, length-replicate {A = ℕ} 6144 7);
      })

seek_lem_example :
    seek crates (SeekFrom.end (negsuc 9)) file_reader
    ≡ moved file_reader (target file_reader (SeekFrom.end (negsuc 9)))
seek_lem_example =
    seek_lem crates file_reader (SeekFrom.end (negsuc 9)) (omega arith) (omega arith) refl

abbrev header : DirectoryEntryHeader ℕ
header = record {
  length = 34;
  extended_attribute_record_length = 0;
  extent_loc = 1;
  extent_length = 3000;
  time = 0;
  file_flags = 2;
  file_unit_size = 0;
  interleave_gap_size = 0;
  volume_sequence_number = 1;
  character_encoding = iso9660;
}

abbrev dir : IsoDirectory ℕ
dir = record { header = header; identifier = chars "."; ext = no_meta }

block_count_lem_example :
    (n : ℕ) × (block_count crates (image_reader image) {E = IsoError} dir ≡ ok n)
    × (3000 ≤ n * block_size)
    × (n * block_size < 3000 + block_size)
block_count_lem_example = block_count_lem crates (image_reader image) IsoError dir (omega arith)

-- A record of 34 bytes at offset 68, and one more behind it.
abbrev records : Bytes
records = replicate 200 34

abbrev file : IsoFile ℕ
file = record { header = header; identifier = chars "a"; version = 1; ext = no_meta }

abbrev never_full : List DirItem → DirItem → Bool
never_full items item = false

abbrev fuse : IsoFuse ℕ (Unit {0})
fuse = record {
  inodes = (5, DirectoryEntry.file file) ∷ [];
  inode_number = 6;
  inode_autogenerated = true;
  directory_number = 0;
  file_number = 3;
  open_directories = [];
  open_files = [];
  reader = tt;
}

known : get 5 fuse.inodes ≡ some (DirectoryEntry.file file)
unfolding get
known = refl

-- The file is opened twice.
abbrev opened_once : IsoFuse ℕ (Unit {0})
opened_once = record fuse { open_files = (3, open_reader file) ∷ []; file_number = 4 }

abbrev opened_twice : IsoFuse ℕ (Unit {0})
opened_twice = record fuse {
  open_files = (4, open_reader file) ∷ (3, open_reader file) ∷ [];
  file_number = 5;
}

first_open :
    open_file crates (image_reader image) 3 0 0 never_full 5 fuse
    ≡ (ok (Reply.opened 3), opened_once)
unfolding open_file iso9660_rs.HashMap.insert get
first_open = refl

second_open :
    open_file crates (image_reader image) 3 0 0 never_full 5 opened_once
    ≡ (ok (Reply.opened 4), opened_twice)
unfolding open_file iso9660_rs.HashMap.insert get
second_open = refl

read_file-two_handles_example :
    let bytes = file_bytes crates (image_reader image) 3 0 0 never_full image file in
    (g g' : IsoFuse ℕ (Unit {0})) × (read_file crates
        (image_reader image)
        3
        0
        0
        never_full
        4
        (pos 2990)
        50
        opened_twice
      ≡ (ok (Reply.bytes (take 50 (drop 2990 bytes))), g))
    × (read_file crates (image_reader image) 3 0 0 never_full 3 (pos 10) 20 g
        ≡ (ok (Reply.bytes (take 20 (drop 10 bytes))), g'))
read_file-two_handles_example =
    read_file-two_handles crates (image_reader image) 3 0 0 never_full fuse opened_once opened_twice
      5 5 3 4 file file known known first_open second_open image 10 2990 20 50
      (image_reader-Serves image) (omega (arith, length-replicate {A = ℕ} 6144 7))
      (omega (arith, length-replicate {A = ℕ} 6144 7)) (omega arith) (omega arith) (omega arith)
      (omega arith)

read_file-open_file_example :
    (g : IsoFuse ℕ (Unit {0})) × (read_file crates
        (image_reader image)
        3
        0
        0
        never_full
        3
        (pos 10)
        20
        (open_file crates (image_reader image) 3 0 0 never_full 5 fuse).1
      ≡ (
        ok (
            Reply.bytes (
              take 20
                (drop 10 (file_bytes crates (image_reader image) 3 0 0 never_full image file)))),
        g,
      ))
read_file-open_file_example =
    read_file-open_file crates (image_reader image) 3 0 0 never_full fuse 5 file known (omega arith)
      image 10 20 (image_reader-Serves image) (omega (arith, length-replicate {A = ℕ} 6144 7))
      (omega arith) (omega arith)

-- The handle 3, in use.
abbrev reading : IsoFuse ℕ (Unit {0})
reading = record fuse { open_files = (3, file_reader) ∷ (2, file_reader) ∷ [] }

in_use : get 3 reading.open_files ≡ some file_reader
unfolding get
in_use = refl

release_lem_example :
    let g = released_state crates (image_reader image) 3 0 0 never_full 3 reading in
    (release crates (image_reader image) 3 0 0 never_full 3 reading ≡ (ok Reply.done, g))
    × (release crates (image_reader image) 3 0 0 never_full 3 g ≡ (err einval, g))
    × ((offset n : ℕ)
        → read_file crates (image_reader image) 3 0 0 never_full 3 (pos offset) n g
          ≡ (err einval, g))
    × ((j : ℕ) → get j g.open_files ≡ (if 3 == j then none else get j reading.open_files))
release_lem_example =
    release_lem crates (image_reader image) 3 0 0 never_full reading 3 file_reader in_use
