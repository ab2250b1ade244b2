-- ===== src/Iso/Opening.antt =====
-- `ISO9660::new` of cdfs/src/lib.rs: what an image that opens has.
use iso9660_rs.Prelude.{
  ℕ, zero, suc, ◌+◌, ◌≡◌, refl, ap, inl, inr, Option, none, some, ◌==◌, ==_iff, Bool-cases, subst,
  replicate,
}
use iso9660_rs.Outcome.{Result, ok, err, panic, out_of_fuel, IsoError, IoError}
use iso9660_rs.Outcome
use iso9660_rs.State.{continue}
use iso9660_rs.Crates.{Crates, Bytes}
use iso9660_rs.FileRef.{Iso9660Reader, block_size}
use iso9660_rs.Parse.VolumeDescriptor.{
  VolumeDescriptor, VolumeDescriptorTable, primary, supplementary, boot_record,
  volume_descriptor_set_terminator,
}
use iso9660_rs.Entry.Names.{new_directory}
use iso9660_rs.Entry.Types.{no_meta}
use iso9660_rs.Iso.{
  Iso9660, Found, Scan, more, done, scan, finish_new, read_descriptors, new, root_of,
  root_directory, nothing_found, descriptor_in, after_scan,
}
use mathlib.Core.Option

-- Either no primary descriptor was found yet, or the root is the one of the primary descriptor that
-- was found last, whose blocks have the size that is supported.
data FromPrimary {D : Type 0} (found : Found D) : Type 0 where
  none_yet : found.primary ≡ none → found.root ≡ none → FromPrimary found
  from :
      (table : VolumeDescriptorTable D)
      → found.primary ≡ some (primary table)
      → found.root ≡ some (root_of table)
      → table.logical_block_size ≡ block_size
      → FromPrimary found

abbrev ScanFrom : {D : Type 0} → Result IsoError (Scan D) → Type 0
ScanFrom (ok (more g)) = FromPrimary g
ScanFrom (ok (done g)) = FromPrimary g
ScanFrom _ = Unit {0}

module _ {D : Type 0} where
  scan-FromPrimary :
      (found : Found D) (d : Option (VolumeDescriptor D))
      → FromPrimary found
      → ScanFrom (scan found d)
  unfolding scan
  scan-FromPrimary found (some (primary table)) h =
      elim (Bool-cases (table.logical_block_size == block_size)) [
        | inl same ↦ rw same (from table refl refl ((==_iff _ _).0 same))
        | inr other ↦ rw other tt
      ]
  scan-FromPrimary found (some (supplementary table)) h =
      elim (Bool-cases (table.logical_block_size == block_size)) [
        | inl same ↦ rw same (other_root h)
        | inr other ↦ rw other tt
      ]
    where
      other_root :
          FromPrimary found → FromPrimary (record found { sup_root = some (root_of table) })
      other_root (none_yet p q) = none_yet p q
      other_root (from t p q r) = from t p q r
  scan-FromPrimary found (some volume_descriptor_set_terminator) h = h
  scan-FromPrimary found (some (boot_record a b p)) h = h
  scan-FromPrimary found none h = h

  -- What an image that opens has: a primary descriptor, with blocks of 2048 bytes, and the root
  -- directory that it names.
  pub record Opened (iso : Iso9660 D) (table : VolumeDescriptorTable D) : Type 0 where
    pub has_primary : iso.primary ≡ primary table
    pub block_size_ok : table.logical_block_size ≡ block_size
    pub has_root :
        iso.root
        ≡ new_directory table.root_directory_entry no_meta table.root_directory_entry_identifier

  finish_new-Opened :
      (found : Found D) (iso : Iso9660 D)
      → FromPrimary found
      → finish_new found ≡ ok iso
      → (table : VolumeDescriptorTable D) × Opened iso table
  unfolding finish_new
  finish_new-Opened found iso (none_yet p q) e = absurd (cc (rw q at e))
  finish_new-Opened found iso (from table p q r) e =
      let opened : Iso9660 D = record {
        root = root_directory (root_of table);
        sup_root = Option.map root_directory found.sup_root;
        primary = primary table;
      } in
      let found_it : finish_new found ≡ ok opened = rw (q, p) in
      let same : opened ≡ iso = cc (found_it, e) in
      (
        table,
        subst (λ i. Opened i table) same
            (record { has_primary = refl; block_size_ok = r; has_root = refl }),
      )

module _ (c : Crates) {T : Type 0} (reader : Iso9660Reader T) where
  abbrev D : Type 0
  D = c.time.OffsetDateTime

  abbrev EndsFrom : Result IsoError (Found D) × T → Type 0
  EndsFrom (ok g, t) = FromPrimary g
  EndsFrom _ = Unit {0}

  read_descriptors-FromPrimary :
      (fuel lba : ℕ) (found : Found D) (buf : Bytes) (t : T)
      → FromPrimary found
      → EndsFrom (read_descriptors c reader fuel lba found buf t)
  unfolding read_descriptors
  read_descriptors-FromPrimary zero lba found buf t h = tt
  read_descriptors-FromPrimary (suc fuel) lba found buf t h =
      go
        (λ g hg.
          read_descriptors-FromPrimary fuel (lba + 1) g (reader.read_at t buf lba).1
            (reader.read_at t buf lba).2 hg)
        (Outcome.◌>>=◌ (descriptor_in c reader (reader.read_at t buf lba)) (scan found))
        (bound (descriptor_in c reader (reader.read_at t buf lba)))
    where
      bound :
          (d : Result IsoError (Option (VolumeDescriptor D)))
          → ScanFrom (Outcome.◌>>=◌ d (scan found))
      bound (ok d) = scan-FromPrimary found d h
      bound (err e) = tt
      bound panic = tt
      bound out_of_fuel = tt

      go :
          ((g : Found D)
            → FromPrimary g
            → EndsFrom (
                read_descriptors c reader fuel
                  (lba + 1)
                  g
                  (reader.read_at t buf lba).1
                  (reader.read_at t buf lba).2))
          → (s : Result IsoError (Scan D)) → ScanFrom s
          → EndsFrom (
              after_scan c reader
                (λ g.
                  read_descriptors c reader fuel
                    (lba + 1)
                    g
                    (reader.read_at t buf lba).1
                    (reader.read_at t buf lba).2)
                (reader.read_at t buf lba).2
                s)
      go ih (ok (more g)) hs = ih g hs
      go ih (ok (done g)) hs = hs
      go ih (err e) hs = tt
      go ih panic hs = tt
      go ih out_of_fuel hs = tt

  finished :
      (r : Result IsoError (Found D) × T) (iso : Iso9660 D) (t' : T)
      → EndsFrom r
      → continue (λ found t. (finish_new found, t)) r ≡ (ok iso, t')
      → (table : VolumeDescriptorTable D) × Opened iso table
  finished (ok found, t) iso t' h e = finish_new-Opened found iso h (ap (λ x. x.0) e)
  finished (err x, t) iso t' h e = absurd (cc (ap (λ x. x.0) e))
  finished (panic, t) iso t' h e = absurd (cc (ap (λ x. x.0) e))
  finished (out_of_fuel, t) iso t' h e = absurd (cc (ap (λ x. x.0) e))

  -- An image that opens has a primary descriptor with blocks of 2048 bytes, and its root directory
  -- is the one that this descriptor names.
  pub new-Opened :
      (fuel : ℕ) (t t' : T) (iso : Iso9660 D)
      → new c reader fuel t ≡ (ok iso, t')
      → (table : VolumeDescriptorTable D) × Opened iso table
  unfolding new
  new-Opened fuel t t' iso e =
      finished (read_descriptors c reader fuel 16 nothing_found (replicate block_size 0) t) iso t'
        (read_descriptors-FromPrimary fuel 16 nothing_found (replicate block_size 0) t
          (none_yet refl refl))
        e
