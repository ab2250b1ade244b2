-- ===== src/Tests/Listing.antt =====
-- Finding an entry in a directory of two records, and printing the directory.
use iso9660_rs.Prelude.{
  ap, ℕ, ◌≡◌, ◌<◌, ◌*◌, ◌/◌, refl, Option, none, some, [], ◌∷◌, List, arith, length,
  length-replicate,
}
use iso9660_rs.Outcome.{ok}
use iso9660_rs.Text.{chars, str_eq}
use iso9660_rs.FileRef.{block_size}
use iso9660_rs.State.Ensures.{Ensures-elim}
use iso9660_rs.Entry.Directory.{DirState, read_entry_at}
use iso9660_rs.Entry.Directory.Progress.{MovesOn, read_entry_at-MovesOn}
use iso9660_rs.Entry.Find.{find, contents, next}
use iso9660_rs.Entry.Find.Listing.{IsFirst, find-IsFirst}
use iso9660_rs.Entry.Types.{DirectoryEntry}
use iso9660_rs.Examples.PrintTree.{print_tree}
use iso9660_rs.Examples.PrintTree.Trees.{dots, file, empty, Walks, lines}
use iso9660_rs.Examples.PrintTree.Lines.{print_tree-lines}
use iso9660_rs.Tests.Setting.{crates, crates-IsCrates}
use iso9660_rs.Tests.Opening.{iso}
use iso9660_rs.Tests.Directories.{repeating, repeating-IsFilling, empty_state}
use iso9660_rs.Tests.Programs.{root_block, file as file_a}

abbrev read_block : DirState (Unit {0})
read_block = record { block = root_block; block_num = some 0; reader = tt }

abbrev entries : List (DirectoryEntry ℕ)
entries = DirectoryEntry.directory iso.root ∷ DirectoryEntry.file file_a ∷ []

first_entry :
    next crates (repeating root_block) 2 iso.root (contents crates (repeating root_block) 2 tt) ≡ (
      some (ok (DirectoryEntry.directory iso.root)),
      record { next_offset = some 34; state = read_block },
    )
unfolding next contents iso9660_rs.Entry.Directory.read_entry_at
    iso9660_rs.Parse.DirectoryEntry.parse iso9660_rs.Parse.DirectoryEntry.directory_entry
    iso9660_rs.Parse.DateTime.date_or_default iso9660_rs.Parse.DateTime.time_or_default
    iso9660_rs.Parse.Susp.Entries.system_use_entries iso9660_rs.Parse.Susp.Entries.system_use_entry
    iso9660_rs.Entry.Meta.split_continuation iso9660_rs.Entry.Meta.extra_meta
    mathlib.Core.List.filter_map iso9660_rs.Entry.Names.new_entry
    iso9660_rs.Entry.Directory.block_count iso9660_rs.Entry.Meta.child_link_of
    iso9660_rs.Parse.DateTime.offset_of iso9660_rs.Text.str_eq
first_entry = refl

second_entry :
    next crates
      (repeating root_block)
      2
      iso.root
      (record { next_offset = some 34; state = read_block })
    ≡ (some (ok (DirectoryEntry.file file_a)), record { next_offset = none; state = read_block })
unfolding next iso9660_rs.Entry.Directory.read_entry_at iso9660_rs.Parse.DirectoryEntry.parse
    iso9660_rs.Parse.DirectoryEntry.directory_entry iso9660_rs.Parse.DateTime.date_or_default
    iso9660_rs.Parse.DateTime.time_or_default iso9660_rs.Parse.Susp.Entries.system_use_entries
    iso9660_rs.Parse.Susp.Entries.system_use_entry iso9660_rs.Entry.Meta.split_continuation
    iso9660_rs.Entry.Meta.extra_meta mathlib.Core.List.filter_map iso9660_rs.Entry.Names.new_entry
    iso9660_rs.Entry.Directory.block_count iso9660_rs.Entry.Meta.child_link_of
    iso9660_rs.Parse.DateTime.offset_of iso9660_rs.Text.str_eq iso9660_rs.Text.from_utf8
    mathlib.Core.Option.bind iso9660_rs.Text.rsplit_at iso9660_rs.Text.trim_end
    iso9660_rs.Text.u16_from_str iso9660_rs.Text.ends_with
second_entry = refl

no_third :
    next crates
      (repeating root_block)
      2
      iso.root
      (record { next_offset = none; state = read_block })
    ≡ (none, record { next_offset = none; state = read_block })
unfolding next
no_third = refl

read_first :
    read_entry_at crates (repeating root_block) 2 iso.root 0 empty_state
    ≡ (ok (DirectoryEntry.directory iso.root, some 34), read_block)
unfolding iso9660_rs.Entry.Directory.read_entry_at iso9660_rs.Parse.DirectoryEntry.parse
    iso9660_rs.Parse.DirectoryEntry.directory_entry iso9660_rs.Parse.DateTime.date_or_default
    iso9660_rs.Parse.DateTime.time_or_default iso9660_rs.Parse.Susp.Entries.system_use_entries
    iso9660_rs.Parse.Susp.Entries.system_use_entry iso9660_rs.Entry.Meta.split_continuation
    iso9660_rs.Entry.Meta.extra_meta mathlib.Core.List.filter_map iso9660_rs.Entry.Names.new_entry
    iso9660_rs.Entry.Directory.block_count iso9660_rs.Entry.Meta.child_link_of
    iso9660_rs.Parse.DateTime.offset_of iso9660_rs.Text.str_eq
read_first = refl

-- The record at 0 is followed by the one at 34, in the one block of the directory.
read_entry_at-MovesOn_example :
    (length root_block ≡ block_size) × ((0 < 34) × (34 / block_size * block_size < 2048))
read_entry_at-MovesOn_example =
    Ensures-elim (MovesOn crates (repeating root_block) 2 iso.root 0)
      (read_entry_at crates (repeating root_block) 2 iso.root 0 empty_state)
      (DirectoryEntry.directory iso.root, some 34) read_block
      (read_entry_at-MovesOn crates (repeating root_block) 2 crates-IsCrates
        (repeating-IsFilling root_block) iso.root 0 empty_state (omega arith)
        (length-replicate {A = ℕ} 2048 0))
      read_first

find-IsFirst_example :
    (r : Option (DirectoryEntry ℕ)) × ((find crates
        (repeating root_block)
        2
        iso.root
        (chars "a")
        tt).0
      ≡ ok r)
    × IsFirst (chars "a") entries r
find-IsFirst_example =
    find-IsFirst crates (repeating root_block) 2 crates-IsCrates (repeating-IsFilling root_block)
      iso.root (chars "a") (omega arith) tt entries
      (
        record { next_offset = some 34; state = read_block },
        first_entry,
        (record { next_offset = none; state = read_block }, second_entry, ap (λ x. x.0) no_third),
      )

walk :
    Walks crates
      (repeating root_block)
      2
      (dots iso.root (file file_a empty))
      iso.root
      (contents crates (repeating root_block) 2 tt)
      tt
unfolding str_eq
walk = (
  record { next_offset = some 34; state = read_block },
  first_entry,
  refl,
  (
    record { next_offset = none; state = read_block },
    second_entry,
    (record { next_offset = none; state = read_block }, no_third, refl),
  ),
)

print_tree-lines_example :
    print_tree crates (λ x. some (chars "now")) (repeating root_block) 2 1 iso.root 0 ([], tt) ≡ (
      ok tt,
      (lines (λ m. []) (λ x. chars "now") iso.root 0 (dots iso.root (file file_a empty)), tt),
    )
unfolding iso9660_rs.Entry.Attributes.mode
print_tree-lines_example =
    print_tree-lines crates (repeating root_block) 2 crates-IsCrates
      (repeating-IsFilling root_block) (λ x. some (chars "now")) (λ x. chars "now") (λ m. []) 1
      iso.root 0 (dots iso.root (file file_a empty)) [] tt tt (omega arith) (omega arith)
      ((tt, refl), tt) walk
