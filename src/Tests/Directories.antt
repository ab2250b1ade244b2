-- ===== src/Tests/Directories.antt =====
-- Directories: a record whose continuation areas never end, the attributes of an
-- entry, and a file system that is mounted and asked.
use iso9660_rs.Prelude.{
  ℕ, ◌+◌, ◌*◌, ◌==◌, if◌then◌else◌, ◌<◌, ◌≤◌, ◌≡◌, refl, Bool, true, false, none, some, List, [],
  ◌∷◌, ◌++◌, arith, length, length-take, length-drop, length-append, replicate, take, drop, pos,
}
use iso9660_rs.Outcome.{ok, out_of_fuel}
use iso9660_rs.Crates.{Bytes}
use iso9660_rs.HashMap.{get}
use iso9660_rs.FileRef.{Iso9660Reader, block_size}
use iso9660_rs.Text.{chars}
use iso9660_rs.Parse.DirectoryEntry.{DirectoryEntryHeader, directory_entry}
use iso9660_rs.Parse.DirectoryEntry.Framing.{Extends, directory_entry-Extends}
use iso9660_rs.Parse.Encoding.{iso9660}
use iso9660_rs.Entry.Types.{DirectoryEntry}
use iso9660_rs.Entry.Attributes.{entry_attributes, entry_ext, mode}
use iso9660_rs.Entry.Directory.{DirState, read_entry_at}
use iso9660_rs.Entry.Directory.Chains.{IsAnswering}
use iso9660_rs.Entry.Directory.Progress.{IsFilling}
use iso9660_rs.Entry.Find.{find, contents}
use iso9660_rs.Entry.Find.Ends.{RunsAway, find-RunsAway}
use iso9660_rs.Fuse.Types.{FileAttr, DirItem, Errno, IsoFuse, get_fileattr}
use iso9660_rs.Fuse.Types.Attributes.{kind_of, shown_perm, shown_time, get_fileattr_lem}
use iso9660_rs.Fuse.Handlers.{opendir}
use iso9660_rs.Fuse.Readdir.{readdir, new}
use iso9660_rs.Fuse.Readdir.Ends.{readdir-RunsAway}
use iso9660_rs.Fuse.Requests.{mounted, after, opens_dir}
use iso9660_rs.Fuse.Requests.Handles.{IsConsistent}
use iso9660_rs.Fuse.Requests.Invariant.{Reaches-IsConsistent}
use iso9660_rs.Tests.Setting.{crates, crates-IsCrates}
use iso9660_rs.Tests.Opening.{both16, both32, iso, root_record, table}

-- A reader for which every block starts with the same bytes.
abbrev pub repeating : Bytes → Iso9660Reader (Unit {0})
repeating bytes = record {
  read_at = λ t buf lba. (ok 2048, take (length buf) bytes ++ drop (length bytes) buf, t);
}

pub repeating-IsFilling : (bytes : Bytes) → IsFilling (repeating bytes)
repeating-IsFilling bytes = record {
  keeps_size = λ t buf lba. omega (
    arith,
    length-append (take (length buf) bytes) (drop (length bytes) buf),
    length-take (length buf) bytes,
    length-drop (length bytes) buf,
  );
}

root_parses :
    directory_entry crates iso9660 root_record ≡ ok ([], (table.root_directory_entry, 0 ∷ [], none))
unfolding directory_entry iso9660_rs.Parse.DateTime.date_or_default
    iso9660_rs.Parse.DateTime.time_or_default iso9660_rs.Parse.Susp.Entries.system_use_entries
    iso9660_rs.Parse.Susp.Entries.system_use_entry iso9660_rs.Parse.DateTime.offset_of
root_parses = refl

directory_entry-Extends_example :
    Extends crates root_record [] (table.root_directory_entry, 0 ∷ [], none)
directory_entry-Extends_example =
    directory_entry-Extends crates crates-IsCrates iso9660 root_record []
      (table.root_directory_entry, 0 ∷ [], none) (omega arith) root_parses

abbrev pub empty_state : DirState (Unit {0})
empty_state = record { block = replicate 2048 0; block_num = none; reader = tt }

-- A record that names a continuation area in the block 19, and what it finds there: the area names
-- itself.
abbrev area : Bytes
area = chars "CE" ++ (28 ∷ 1 ∷ (both32 19 ++ (both32 0 ++ both32 28)))

abbrev endless : Bytes
endless =
    62
    ∷ 0
    ∷ (both32 18
        ++ (both32 2048
            ++ (100 ∷ 1 ∷ 1 ∷ 0 ∷ 0 ∷ 0 ∷ 0 ∷ 2 ∷ 0 ∷ 0 ∷ (both16 1 ++ (1 ∷ 0 ∷ area)))))

abbrev looping : Iso9660Reader (Unit {0})
looping = record {
  read_at = λ t buf lba. (repeating (if lba == 19 then area else endless)).read_at t buf lba;
}

looping-IsAnswering : IsAnswering looping
looping-IsAnswering = record { answers = λ t buf lba e. cc e }

looping-IsFilling : IsFilling looping
looping-IsFilling = record {
  keeps_size =
      λ t buf lba. (repeating-IsFilling (if lba == 19 then area else endless)).keeps_size t buf lba;
}

no_end : find crates looping 2 iso.root (chars "a") tt ≡ (out_of_fuel, tt)
unfolding find read_entry_at iso9660_rs.Parse.DirectoryEntry.parse directory_entry
    iso9660_rs.Parse.DateTime.date_or_default iso9660_rs.Parse.DateTime.time_or_default
    iso9660_rs.Parse.Susp.Entries.system_use_entries iso9660_rs.Parse.Susp.Entries.system_use_entry
    iso9660_rs.Text.str_eq iso9660_rs.Crates.Documented.many_loop
    iso9660_rs.Entry.Meta.split_continuation iso9660_rs.Entry.Directory.read_area
    iso9660_rs.Entry.Meta.take_continuation
no_end = refl

find-RunsAway_example : RunsAway crates looping 2 iso.root 0 empty_state
unfolding contents
find-RunsAway_example =
    find-RunsAway crates looping 2 crates-IsCrates looping-IsFilling looping-IsAnswering iso.root
      (chars "a") (omega arith) tt tt no_end

abbrev never_full : List DirItem → DirItem → Bool
never_full items item = false

abbrev listing : IsoFuse ℕ (Unit {0})
listing = record {
  inodes = [];
  inode_number = 2;
  inode_autogenerated = true;
  directory_number = 1;
  file_number = 0;
  open_directories = (0, iso.root) ∷ [];
  open_files = [];
  reader = tt;
}

listing_open : get 0 listing.open_directories ≡ some iso.root
unfolding get
listing_open = refl

no_end_of_listing : readdir crates looping 2 never_full 0 (pos 0) listing ≡ (out_of_fuel, listing)
unfolding readdir read_entry_at iso9660_rs.Parse.DirectoryEntry.parse directory_entry
    iso9660_rs.Parse.DateTime.date_or_default iso9660_rs.Parse.DateTime.time_or_default
    iso9660_rs.Parse.Susp.Entries.system_use_entries iso9660_rs.Parse.Susp.Entries.system_use_entry
    iso9660_rs.Text.str_eq iso9660_rs.Crates.Documented.many_loop
    iso9660_rs.Entry.Meta.split_continuation iso9660_rs.Entry.Directory.read_area
    iso9660_rs.Entry.Meta.take_continuation
no_end_of_listing = refl

readdir-RunsAway_example :
    (start : ℕ) × (pos 0 ≡ pos start) × RunsAway crates looping 2 iso.root start empty_state
unfolding contents
readdir-RunsAway_example =
    readdir-RunsAway crates looping 2 never_full crates-IsCrates looping-IsFilling
      looping-IsAnswering 0 (pos 0) listing listing iso.root listing_open (omega arith)
      no_end_of_listing

get_fileattr_lem_example :
    let e : DirectoryEntry ℕ = DirectoryEntry.directory iso.root in
    (attr : FileAttr ℕ) × (get_fileattr crates 0 0 {E = Errno} 1 e ≡ ok attr)
    × (attr.ino ≡ 1)
    × (attr.size ≡ 2048)
    × (attr.size ≤ attr.blocks * block_size)
    × (attr.blocks * block_size < attr.size + block_size)
    × (attr.perm ≡ shown_perm crates 0 0 (mode entry_attributes e) (kind_of e))
    × (attr.kind ≡ kind_of e)
    × (attr.atime ≡ shown_time crates 0 0 (entry_ext e).timestamps.access e)
    × (attr.mtime ≡ shown_time crates 0 0 (entry_ext e).timestamps.modify e)
    × (attr.ctime ≡ shown_time crates 0 0 (entry_ext e).timestamps.attributes e)
    × (attr.crtime ≡ shown_time crates 0 0 (entry_ext e).timestamps.creation e)
get_fileattr_lem_example =
    get_fileattr_lem crates 0 0 crates-IsCrates 1 (DirectoryEntry.directory iso.root) (omega arith)

abbrev mounted_state : IsoFuse ℕ (Unit {0})
mounted_state = record {
  inodes = (1, DirectoryEntry.directory iso.root) ∷ [];
  inode_number = 2;
  inode_autogenerated = true;
  directory_number = 0;
  file_number = 0;
  open_directories = [];
  open_files = [];
  reader = tt;
}

mounts : new crates (repeating root_record) 2 never_full iso tt ≡ (ok mounted_state, tt)
unfolding new read_entry_at iso9660_rs.Parse.DirectoryEntry.parse directory_entry
    iso9660_rs.Parse.DateTime.date_or_default iso9660_rs.Parse.DateTime.time_or_default
    iso9660_rs.Parse.Susp.Entries.system_use_entries iso9660_rs.Parse.Susp.Entries.system_use_entry
    iso9660_rs.Text.str_eq iso9660_rs.Crates.Documented.many_loop
    iso9660_rs.Entry.Meta.split_continuation iso9660_rs.Entry.Find.next
    iso9660_rs.Entry.Find.contents iso9660_rs.Entry.Meta.extra_meta mathlib.Core.List.filter_map
    iso9660_rs.Entry.Names.new_entry iso9660_rs.Entry.Directory.block_count
    iso9660_rs.Entry.Meta.child_link_of iso9660_rs.Entry.Find.is_rock_ridge
mounts = refl

-- Mounted, and then asked to open the root directory.
abbrev asked : IsoFuse ℕ (Unit {0})
asked = record mounted_state { directory_number = 1; open_directories = (0, iso.root) ∷ [] }

opened_root : asked ≡ (opendir crates (repeating root_record) 2 0 0 never_full 1 mounted_state).1
unfolding opendir
opened_root = refl

Reaches-IsConsistent_example : IsConsistent asked
Reaches-IsConsistent_example =
    Reaches-IsConsistent crates (repeating root_record) 2 0 0 never_full iso tt asked
      (after (mounted tt mounts) (opens_dir 1 opened_root))
