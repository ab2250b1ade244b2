-- ===== src/Examples/PrintFile/Prints.antt =====
-- cdfs/examples/print_file.rs: what the program writes.
use iso9660_rs.Prelude.{
  arith, ℕ, ◌+◌, ◌*◌, ◌/◌, ◌≤◌, ◌<◌, ◌≡◌, [], some, take, drop, length, length-replicate,
}
use iso9660_rs.Outcome.{ok}
use iso9660_rs.Crates.{Crates, Bytes, Str}
use iso9660_rs.FileRef.{Iso9660Reader, block_size}
use iso9660_rs.Entry.Reader.{open_reader}
use iso9660_rs.Entry.Reader.Contents.{Serves, IsCoherent}
use iso9660_rs.Entry.Reader.ToEnd.{read_to_end_lem}
use iso9660_rs.Entry.Types.{IsoFile, DirectoryEntry}
use iso9660_rs.Iso.{Iso9660, new, open_path}
use iso9660_rs.Examples.PrintFile.{main, with_image, print_entry, print_contents}

module _ (c : Crates) {T : Type 0} (reader : Iso9660Reader T) (room : Bytes → ℕ)
    (fuel calls : ℕ) where
  abbrev D : Type 0
  D = c.time.OffsetDateTime

  at_start :
      (img : Bytes) (f : IsoFile D)
      → (f.header.extent_loc + (f.header.extent_length + 2047) / block_size) * block_size
        ≤ length img
      → IsCoherent img (open_reader f)
  unfolding open_reader
  at_start img f inside = record {
    whole = length-replicate {A = ℕ} block_size 0;
    holds = tt;
    inside = inside;
  }

  -- On a reader that serves the image, with more calls of `read` allowed than the file has bytes, the
  -- program ends and has written exactly the bytes of the file that the path names, where the
  -- image opens, the path names a file and the file's blocks lie in the image.
  pub main-writes :
      (img : Bytes)
      → Serves reader img
      → ((text : Bytes) → 0 < room text)
      → (t t₁ t₂ : T) (fs : Iso9660 D) (path : Str) (f : IsoFile D)
      → new c reader fuel t ≡ (ok fs, t₁)
      → open_path c reader fuel fs path t₁ ≡ (ok (some (DirectoryEntry.file f)), t₂)
      → (f.header.extent_loc + (f.header.extent_length + 2047) / block_size) * block_size
        ≤ length img
      → f.header.extent_length < calls
      → main c reader room fuel calls (ok t) (some path)
        ≡ ok (take f.header.extent_length (drop (f.header.extent_loc * block_size) img))
  unfolding main with_image open_reader
  main-writes img serves has_room t t₁ t₂ fs path f opens finds inside enough =
      let (s, e) =
        read_to_end_lem reader room img serves has_room calls [] (open_reader f) t₂
          (at_start img f inside) (omega (arith, enough)) in
      rw (opens, with_image, finds, print_entry, print_contents, e)
