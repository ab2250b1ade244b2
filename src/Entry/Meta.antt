-- ===== src/Entry/Meta.antt =====
-- cdfs/src/directory_entry/isodirectory.rs, the middle of `read_entry_at`: what the system use
-- entries of a record say of its entry.
pub mod LongNames
pub mod Fuel
use iso9660_rs.Prelude.{
  ℕ, Bool, true, false, Option, none, some, List, [], ◌∷◌, ◌++◌, ◌==◌, if◌then◌else◌,
}
use iso9660_rs.Outcome.{Result, ok, ◌>>=◌, ◌>>◌}
use iso9660_rs.Parse.Susp.Frame.{check}
use iso9660_rs.Crates.{Crates, Str}
use iso9660_rs.Text.{chars, ends_with}
use iso9660_rs.Parse.Susp.Flags.{name_continue, link_root, link_current, link_parent}
use iso9660_rs.Parse.Susp.Types.{
  SuspExtension, AlternateName, ContinuationArea, PosixTimestamp, PosixAttributes,
  SymbolicLinkRecord, SymbolicLink, SystemUseEntry, continuation_area, extensions_reference,
  alternate_name, posix_attributes, posix_timestamp, symbolic_link, child_link, relocated_directory,
  no_timestamps,
}
use iso9660_rs.Entry.Types.{ExtraMeta}
use mathlib.Core.List.{filter_map, head?, foldl}
use mathlib.Core.Option
use mathlib.Core.Option.{get_or}

module _ {D : Type 0} where
  -- The fold that takes the continuation areas out of a record's own entries, and keeps the last.
  unfoldable pub split_step :
      List (SystemUseEntry D) × Option ContinuationArea
      → SystemUseEntry D
      → List (SystemUseEntry D) × Option ContinuationArea
  split_step (susp, _) (continuation_area cont) = (susp, some cont)
  split_step (susp, continuation) entry = (susp ++ (entry ∷ []), continuation)

  unfoldable pub split_continuation :
      List (SystemUseEntry D) → List (SystemUseEntry D) × Option ContinuationArea
  unfolding split_step
  split_continuation susp = foldl split_step ([], none) susp

  -- The first continuation area of the collected entries, and the entries without it.
  unfoldable pub keep :
      SystemUseEntry D
      → List (SystemUseEntry D) × Option ContinuationArea
      → List (SystemUseEntry D) × Option ContinuationArea
  keep entry (susp, cont) = (entry ∷ susp, cont)

  unfoldable pub take_continuation :
      List (SystemUseEntry D) → List (SystemUseEntry D) × Option ContinuationArea
  unfolding keep
  take_continuation [] = ([], none)
  take_continuation (continuation_area cont ∷ susp) = (susp, some cont)
  take_continuation (entry ∷ susp) = keep entry (take_continuation susp)

  as_extensions : SystemUseEntry D → Option (List SuspExtension)
  as_extensions (extensions_reference er) = some er.extensions
  as_extensions _ = none

  as_relocated : SystemUseEntry D → Option Bool
  as_relocated (relocated_directory b) = some b
  as_relocated _ = none

  as_child_link : SystemUseEntry D → Option ℕ
  as_child_link (child_link lba) = some lba
  as_child_link _ = none

  as_name : SystemUseEntry D → Option AlternateName
  as_name (alternate_name name) = some name
  as_name _ = none

  as_timestamp : SystemUseEntry D → Option (PosixTimestamp D)
  as_timestamp (posix_timestamp t) = some t
  as_timestamp _ = none

  as_link : SystemUseEntry D → Option SymbolicLink
  as_link (symbolic_link link) = some link
  as_link _ = none

  as_attributes : SystemUseEntry D → Option PosixAttributes
  as_attributes (posix_attributes attributes) = some attributes
  as_attributes _ = none

  unfoldable pub extensions_of : List (SystemUseEntry D) → List SuspExtension
  unfolding as_extensions
  extensions_of susp = get_or (head? (filter_map as_extensions susp)) []

  unfoldable pub relocated_of : List (SystemUseEntry D) → Bool
  unfolding as_relocated
  relocated_of susp = get_or (Option.map (λ _. true) (head? (filter_map as_relocated susp))) false

  unfoldable pub child_link_of : List (SystemUseEntry D) → Option ℕ
  unfolding as_child_link
  child_link_of susp = head? (filter_map as_child_link susp)

  unfoldable pub attributes_of : List (SystemUseEntry D) → Option PosixAttributes
  unfolding as_attributes
  attributes_of susp = head? (filter_map as_attributes susp)

  -- Of the time stamps only these four are carried over; a later one replaces an earlier one.
  abbrev newer : Option D → Option D → Option D
  newer old none = old
  newer old (some t) = some t

  merge_timestamps : PosixTimestamp D → PosixTimestamp D → PosixTimestamp D
  merge_timestamps acc new_timestamp = record acc {
    creation = newer acc.creation new_timestamp.creation;
    modify = newer acc.modify new_timestamp.modify;
    access = newer acc.access new_timestamp.access;
    attributes = newer acc.attributes new_timestamp.attributes;
  }

  unfoldable pub fold_timestamps : List (SystemUseEntry D) → PosixTimestamp D
  unfolding as_timestamp merge_timestamps
  fold_timestamps susp = foldl merge_timestamps no_timestamps (filter_map as_timestamp susp)

-- `PathBuf::join` on Unix: an absolute path replaces what there was.
is_absolute : Str → Bool
is_absolute [] = false
is_absolute (ch ∷ s) = ch == b'/'

needs_separator : Str → Bool
needs_separator [] = false
needs_separator (ch ∷ s) = if ends_with b'/' (ch ∷ s) then false else true

unfoldable pub join : Str → Str → Str
unfolding is_absolute needs_separator
join path component =
    if is_absolute component
    then component
    else if needs_separator path
    then path ++ (b'/' ∷ component)
    else path ++ component

append_name : Option Str → AlternateName → Option Str
append_name acc name = some (get_or acc [] ++ name.name)

join_link : Option Str → Str → Option Str
unfolding join
join_link acc component = some (join (get_or acc []) component)

-- A closure that may panic, over a list.
map_result : {E A B : Type 0} → (A → Result E B) → List A → Result E (List B)
map_result f [] = ok []
map_result f (x ∷ xs) = f x >>= λ y. map_result f xs >>= λ ys. ok (y ∷ ys)

module _ (c : Crates) where
  -- The `NM` entries up to the first that does not continue, one after the other.
  unfoldable pub alt_name_of : {D : Type 0} → List (SystemUseEntry D) → Option Str
  unfolding as_name append_name
  alt_name_of susp = foldl append_name none (
      c.itertools.take_while_inclusive
        (λ (name : AlternateName). c.bitflags.contains name.flags name_continue)
        (filter_map as_name susp))

  is_empty : Str → Bool
  is_empty [] = true
  is_empty (ch ∷ s) = false

  -- A component that stands for a place has no text of its own.
  place : {E : Type 0} → SymbolicLinkRecord → Str → Result E Str
  unfolding is_empty check
  place r path = check c (is_empty r.component) >> ok path

  component_path : {E : Type 0} → SymbolicLinkRecord → Result E Str
  unfolding place
  component_path r =
      if c.bitflags.contains r.flags link_root
      then place r (chars "/")
      else if c.bitflags.contains r.flags link_current
      then place r (chars ".")
      else if c.bitflags.contains r.flags link_parent
      then place r (chars "..")
      else ok r.component

  link_path : {E : Type 0} → SymbolicLink → Result E Str
  unfolding component_path join
  link_path link = map_result component_path link.records >>= λ paths. ok (foldl join [] paths)

  -- The `SL` entries up to the first that does not continue.
  unfoldable pub symlink_target_of :
      {E D : Type 0} → List (SystemUseEntry D) → Result E (Option Str)
  unfolding as_link link_path join_link map_result
  symlink_target_of susp =
      map_result link_path (
        c.itertools.take_while_inclusive (λ (link : SymbolicLink). link.should_continue)
          (filter_map as_link susp))
      >>= λ paths. ok (foldl join_link none paths)

  unfoldable pub extra_meta : {E D : Type 0} → List (SystemUseEntry D) → Result E (ExtraMeta D)
  unfolding alt_name_of symlink_target_of attributes_of extensions_of fold_timestamps relocated_of
  extra_meta susp = do
    target ← symlink_target_of susp
    ok (record {
      alt_name = alt_name_of susp;
      attributes = attributes_of susp;
      symlink_target = target;
      extensions = extensions_of susp;
      timestamps = fold_timestamps susp;
      relocated = relocated_of susp;
    })
