-- ===== src/Iso.antt =====
-- cdfs/src/lib.rs: opening an image, its root directories and its volume's properties. T is the
-- state of the reader, which the `ISO9660` and its entries share.
pub mod Opening
pub mod Descriptors
use iso9660_rs.Prelude.{
  ℕ, zero, suc, ◌+◌, Bool, true, false, not, Option, none, some, List, [], ◌∷◌, ◌==◌, if◌then◌else◌,
  replicate,
}
use iso9660_rs.Outcome.{
  Result, ok, err, panic, out_of_fuel, IoError, IsoError, io, read_size, invalid_fs,
}
use iso9660_rs.Outcome
use iso9660_rs.State.{M, ◌>>=◌, pure}
use iso9660_rs.Crates.{Crates, Bytes, Str}
use iso9660_rs.FileRef.{Iso9660Reader, block_size}
use iso9660_rs.Text.{chars}
use iso9660_rs.Parse.DirectoryEntry.{DirectoryEntryHeader}
use iso9660_rs.Parse.VolumeDescriptor.{
  VolumeDescriptor, VolumeDescriptorTable, primary, supplementary, boot_record,
  volume_descriptor_set_terminator, parse,
}
use iso9660_rs.Entry.Find.{contents, next, is_rock_ridge, find_recursive}
use iso9660_rs.Entry.Names.{new_directory}
use iso9660_rs.Entry.Types.{IsoDirectory, DirectoryEntry, no_meta}
use mathlib.Core.Option

pub record Iso9660 (D : Type 0) : Type 0 where
  pub root : IsoDirectory D
  pub sup_root : Option (IsoDirectory D)
  pub primary : VolumeDescriptor D

-- What the loop over the descriptors has found so far.
pub record Found (D : Type 0) : Type 0 where
  pub root : Option (DirectoryEntryHeader D × Str)
  pub sup_root : Option (DirectoryEntryHeader D × Str)
  pub primary : Option (VolumeDescriptor D)

-- After one descriptor: the loop goes on, or has met the terminator.
pub data Scan (D : Type 0) : Type 0 where
  more : Found D → Scan D
  done : Found D → Scan D

bad_block_size : {A : Type 0} → Result IsoError A
bad_block_size = err (invalid_fs (chars "Block size not 2048"))

module _ {D : Type 0} where
  abbrev pub root_of : VolumeDescriptorTable D → DirectoryEntryHeader D × Str
  root_of table = (table.root_directory_entry, table.root_directory_entry_identifier)

  unfoldable pub scan : Found D → Option (VolumeDescriptor D) → Result IsoError (Scan D)
  unfolding bad_block_size
  scan found (some (primary table)) =
      if not (table.logical_block_size == block_size)
      then bad_block_size
      else ok (more (record found { root = some (root_of table); primary = some (primary table) }))
  scan found (some (supplementary table)) =
      if not (table.logical_block_size == block_size)
      then bad_block_size
      else ok (more (record found { sup_root = some (root_of table) }))
  scan found (some volume_descriptor_set_terminator) = ok (done found)
  scan found (some (boot_record a b p)) = ok (more found)
  scan found none = ok (more found)

  root_directory : DirectoryEntryHeader D × Str → IsoDirectory D
  root_directory (header, identifier) = new_directory header no_meta identifier

  unfoldable pub finish_new : Found D → Result IsoError (Iso9660 D)
  unfolding root_directory
  finish_new found = elim found.root [
    | none ↦ err (invalid_fs (chars "No primary volume descriptor"))
    | some root ↦ elim found.primary [
      | none ↦ err (invalid_fs (chars "No primary volume descriptor"))
      | some p ↦ ok (record {
        root = root_directory root;
        sup_root = Option.map root_directory found.sup_root;
        primary = p;
      })
    ]
  ]

  nothing_found : Found D
  nothing_found = record { root = none; sup_root = none; primary = none }

-- `fuel` bounds the descriptors that are read, and the continuation areas of one record.
module _ (c : Crates) {T : Type 0} (reader : Iso9660Reader T) where
  abbrev D : Type 0
  D = c.time.OffsetDateTime

  -- The descriptor in a block that was read.
  unfoldable pub descriptor_in :
      Result IoError ℕ × Bytes × T → Result IsoError (Option (VolumeDescriptor D))
  descriptor_in (ok count, b, t) =
      if not (count == block_size) then err (read_size count) else parse c b
  descriptor_in (err e, b, t) = err (io e)
  descriptor_in (panic, b, t) = panic
  descriptor_in (out_of_fuel, b, t) = out_of_fuel

  -- `break` at the terminator, and the next round otherwise.
  abbrev pub after_scan :
      (Found D → Result IsoError (Found D) × T)
      → T
      → Result IsoError (Scan D)
      → Result IsoError (Found D) × T
  after_scan again t (ok (more found)) = again found
  after_scan again t (ok (done found)) = (ok found, t)
  after_scan again t (err e) = (err e, t)
  after_scan again t panic = (panic, t)
  after_scan again t out_of_fuel = (out_of_fuel, t)

  -- The loop of `ISO9660::new`. It ends at a terminator or at an error, so on an image without one
  -- when the reader gives no more whole blocks.
  unfoldable pub read_descriptors : ℕ → ℕ → Found D → Bytes → T → Result IsoError (Found D) × T
  unfolding descriptor_in scan
  read_descriptors zero lba found buf t = (out_of_fuel, t)
  read_descriptors (suc fuel) lba found buf t =
      let r = reader.read_at t buf lba in
      after_scan (λ found. read_descriptors fuel (lba + 1) found r.1 r.2) r.2
        (Outcome.◌>>=◌ (descriptor_in r) (scan found))

  -- The descriptors start behind the system area, at block 16.
  unfoldable pub new : ℕ → M T IsoError (Iso9660 D)
  unfolding read_descriptors nothing_found finish_new
  new fuel t =
      (read_descriptors fuel 16 nothing_found (replicate block_size 0) >>= λ found t.
      (finish_new found, t))
        t

  -- Rock Ridge is present when the first entry of the primary root says so.
  rock_ridge_entry : Option (Result IsoError (DirectoryEntry D)) → Result IsoError Bool
  rock_ridge_entry (some (ok (DirectoryEntry.directory dir))) = ok (is_rock_ridge dir)
  rock_ridge_entry (some panic) = panic
  rock_ridge_entry (some out_of_fuel) = out_of_fuel
  rock_ridge_entry _ = ok false

  unfoldable pub is_rr : ℕ → Iso9660 D → M T IsoError Bool
  unfolding rock_ridge_entry
  is_rr fuel iso t =
      let (item, it) = next c reader fuel iso.root (contents c reader fuel t) in
      (rock_ridge_entry item, it.state.reader)

  best_root : Iso9660 D → Bool → IsoDirectory D
  best_root iso true = iso.root
  best_root iso false = elim iso.sup_root [ none ↦ iso.root | some sup_root ↦ sup_root ]

  unfoldable pub root : ℕ → Iso9660 D → M T IsoError (IsoDirectory D)
  unfolding is_rr best_root
  root fuel iso t = (is_rr fuel iso >>= λ rr. pure (best_root iso rr)) t

  -- Any index but 0 and 1 is `unimplemented!()`.
  unfoldable pub root_at : {E : Type 0} → Iso9660 D → ℕ → Result E (Option (IsoDirectory D))
  root_at iso zero = ok (some iso.root)
  root_at iso (suc zero) = ok iso.sup_root
  root_at iso (suc (suc n)) = panic

  unfoldable pub open_path : ℕ → Iso9660 D → Str → M T IsoError (Option (DirectoryEntry D))
  unfolding root
  open_path fuel iso path t = (root fuel iso >>= λ dir. find_recursive c reader fuel dir path) t

  -- The properties of the volume: a descriptor that is not the primary one is `unreachable!()`.
  abbrev primary_prop : {E : Type 0} → (VolumeDescriptorTable D → Str) → Iso9660 D → Result E Str
  primary_prop field iso = elim iso.primary [ primary table ↦ ok (field table) | _ ↦ panic ]

  unfoldable pub volume_set_identifier : {E : Type 0} → Iso9660 D → Result E Str
  volume_set_identifier iso = primary_prop (λ table. table.volume_set_identifier) iso

  unfoldable pub publisher_identifier : {E : Type 0} → Iso9660 D → Result E Str
  publisher_identifier iso = primary_prop (λ table. table.publisher_identifier) iso

  unfoldable pub data_preparer_identifier : {E : Type 0} → Iso9660 D → Result E Str
  data_preparer_identifier iso = primary_prop (λ table. table.data_preparer_identifier) iso

  unfoldable pub application_identifier : {E : Type 0} → Iso9660 D → Result E Str
  application_identifier iso = primary_prop (λ table. table.application_identifier) iso

  unfoldable pub copyright_file_identifier : {E : Type 0} → Iso9660 D → Result E Str
  copyright_file_identifier iso = primary_prop (λ table. table.copyright_file_identifier) iso

  unfoldable pub abstract_file_identifier : {E : Type 0} → Iso9660 D → Result E Str
  abstract_file_identifier iso = primary_prop (λ table. table.abstract_file_identifier) iso

  unfoldable pub bibliographic_file_identifier : {E : Type 0} → Iso9660 D → Result E Str
  bibliographic_file_identifier iso =
      primary_prop (λ table. table.bibliographic_file_identifier) iso
