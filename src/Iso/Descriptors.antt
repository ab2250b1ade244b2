-- ===== src/Iso/Descriptors.antt =====
-- `ISO9660::new` of cdfs/src/lib.rs against the list of an image's volume descriptors.
use iso9660_rs.Prelude.{
  ℕ, zero, suc, ◌+◌, ◌<◌, ◌≡◌, refl, Bool, true, false, ◌&&◌, Bool-cases, inl, inr, Option, none,
  some, List, [], ◌∷◌, ◌==◌, if◌then◌else◌, arith, length, replicate,
}
use iso9660_rs.Outcome.{Result, ok, err, panic, out_of_fuel, IsoError, IoError, invalid_fs}
use iso9660_rs.Outcome
use iso9660_rs.State.{continue}
use iso9660_rs.Crates.{Crates, Bytes}
use iso9660_rs.FileRef.{Iso9660Reader, block_size}
use iso9660_rs.Text.{chars}
use iso9660_rs.Parse.VolumeDescriptor.{
  VolumeDescriptor, VolumeDescriptorTable, primary, supplementary, boot_record,
  volume_descriptor_set_terminator,
}
use iso9660_rs.Iso.{
  Iso9660, Found, scan, finish_new, read_descriptors, new, root_of, root_directory, nothing_found,
  descriptor_in,
}
use mathlib.Core.Option

-- A block of another kind than a descriptor is read as none.
abbrev pub Descriptor : Type 0 → Type 0
Descriptor D = Option (VolumeDescriptor D)

module _ {D : Type 0} where
  abbrev pub is_last : Descriptor D → Bool
  is_last (some volume_descriptor_set_terminator) = true
  is_last _ = false

  -- Blocks of 2048 bytes, where the descriptor has a size of blocks.
  abbrev pub is_sized : Descriptor D → Bool
  is_sized (some (primary table)) = table.logical_block_size == block_size
  is_sized (some (supplementary table)) = table.logical_block_size == block_size
  is_sized _ = true

  abbrev pub all_sized : List (Descriptor D) → Bool
  all_sized [] = true
  all_sized (d ∷ ds) = is_sized d && all_sized ds

  -- The last primary descriptor of a list, or `p`.
  abbrev pub last_primary :
      Option (VolumeDescriptorTable D) → List (Descriptor D) → Option (VolumeDescriptorTable D)
  last_primary p [] = p
  last_primary p (some (primary table) ∷ ds) = last_primary (some table) ds
  last_primary p (_ ∷ ds) = last_primary p ds

  abbrev pub last_supplementary :
      Option (VolumeDescriptorTable D) → List (Descriptor D) → Option (VolumeDescriptorTable D)
  last_supplementary s [] = s
  last_supplementary s (some (supplementary table) ∷ ds) = last_supplementary (some table) ds
  last_supplementary s (_ ∷ ds) = last_supplementary s ds

  pub opened :
      Option (VolumeDescriptorTable D)
      → Option (VolumeDescriptorTable D)
      → Result IsoError (Iso9660 D)
  opened none s = err (invalid_fs (chars "No primary volume descriptor"))
  opened (some table) s = ok (record {
    root = root_directory (root_of table);
    sup_root = Option.map (λ table. root_directory (root_of table)) s;
    primary = primary table;
  })

  -- How the descriptors end: with a terminator, or with an error.
  abbrev pub ended : Option IsoError → Result IsoError (Descriptor D)
  ended none = ok (some volume_descriptor_set_terminator)
  ended (some e) = err e

  -- What `new` makes of the descriptors before the end.
  abbrev pub expected :
      Option (VolumeDescriptorTable D)
      → Option (VolumeDescriptorTable D)
      → List (Descriptor D)
      → Option IsoError
      → Result IsoError (Iso9660 D)
  expected p s ds ending =
      if all_sized ds
      then Outcome.◌>>◌ (ended ending) (opened (last_primary p ds) (last_supplementary s ds))
      else err (invalid_fs (chars "Block size not 2048"))

  found_with : Option (VolumeDescriptorTable D) → Option (VolumeDescriptorTable D) → Found D
  found_with p s = record {
    root = Option.map root_of p;
    sup_root = Option.map root_of s;
    primary = Option.map primary p;
  }

  finish_new-opened :
      (p s : Option (VolumeDescriptorTable D)) → finish_new (found_with p s) ≡ opened p s
  unfolding finish_new found_with opened
  finish_new-opened none s = refl
  finish_new-opened (some table) none = refl
  finish_new-opened (some table) (some t) = refl

module _ (c : Crates) {T : Type 0} (reader : Iso9660Reader T) where
  abbrev D : Type 0
  D = c.time.OffsetDateTime

  -- From a block on the reader gives these descriptors, and then the end.
  abbrev pub Describes : List (Descriptor D) → Option IsoError → ℕ → Bytes → T → Type 0
  Describes [] ending lba buf t = descriptor_in c reader (reader.read_at t buf lba) ≡ ended ending
  Describes (d ∷ ds) ending lba buf t =
      (descriptor_in c reader (reader.read_at t buf lba) ≡ ok d)
      × (is_last d ≡ false)
      × Describes ds ending (lba + 1) (reader.read_at t buf lba).1 (reader.read_at t buf lba).2

  abbrev result : Result IsoError (Found D) × T → Result IsoError (Iso9660 D)
  result r = (continue (λ found t. (finish_new found, t)) r).0

  loop :
      (fuel lba : ℕ) (p s : Option (VolumeDescriptorTable D)) (buf : Bytes) (t : T)
      (ds : List (Descriptor D)) (ending : Option IsoError)
      → length ds < fuel
      → Describes ds ending lba buf t
      → result (read_descriptors c reader fuel lba (found_with p s) buf t) ≡ expected p s ds ending
  unfolding read_descriptors scan found_with
  loop zero lba p s buf t ds ending h g = absurd (omega arith)
  loop (suc fuel) lba p s buf t [] none h g = rw (g, scan, finish_new-opened p s)
  loop (suc fuel) lba p s buf t [] (some e) h g = rw (g, scan)
  loop (suc fuel) lba p s buf t (none ∷ ds) ending h (e, l, g) =
      rw (e, scan) (loop fuel (lba + 1) p s _ _ ds ending (omega arith) g)
  loop (suc fuel) lba p s buf t (some (boot_record a b x) ∷ ds) ending h (e, l, g) =
      rw (e, scan) (loop fuel (lba + 1) p s _ _ ds ending (omega arith) g)
  loop (suc fuel) lba p s buf t (some volume_descriptor_set_terminator ∷ ds) ending h (e, l, g) =
      absurd (cc l)
  loop (suc fuel) lba p s buf t (some (primary table) ∷ ds) ending h (e, l, g) =
      elim (Bool-cases (table.logical_block_size == block_size)) [
        | inl same ↦
            rw (e, scan, same) (loop fuel (lba + 1) (some table) s _ _ ds ending (omega arith) g)
        | inr other ↦ rw (e, scan, other)
      ]
  loop (suc fuel) lba p s buf t (some (supplementary table) ∷ ds) ending h (e, l, g) =
      elim (Bool-cases (table.logical_block_size == block_size)) [
        | inl same ↦
            rw (e, scan, same) (loop fuel (lba + 1) p (some table) _ _ ds ending (omega arith) g)
        | inr other ↦ rw (e, scan, other)
      ]

  -- Where the blocks from 16 on give certain descriptors and then a terminator or an error, opening
  -- the image gives an error if a primary or supplementary descriptor has another size of blocks
  -- than 2048, else the error at the end, else an error if there is no primary descriptor, and else
  -- the image of the last primary and the last supplementary descriptor.
  pub new-expected :
      (fuel : ℕ) (t : T) (ds : List (Descriptor D)) (ending : Option IsoError)
      → length ds < fuel
      → Describes ds ending 16 (replicate block_size 0) t
      → (new c reader fuel t).0 ≡ expected none none ds ending
  unfolding new nothing_found found_with
  new-expected fuel t ds ending h g =
      loop fuel 16 none none (replicate block_size 0) t ds ending h g
