-- ===== src/Examples/PrintFile.antt =====
-- cdfs/examples/print_file.rs: the program that writes a file of an image to its standard output.
-- The opened image, the path of the command line and the space of a vector are given from outside.
pub mod Prints
use iso9660_rs.Prelude.{ℕ, Option, none, some, []}
use iso9660_rs.Outcome.{Result, ok, err, panic, out_of_fuel, IoError, IsoError}
use iso9660_rs.State.{M}
use iso9660_rs.Crates.{Crates, Bytes, Str}
use iso9660_rs.FileRef.{Iso9660Reader}
use iso9660_rs.Entry.Reader.{IsoFileReader, open_reader}
use iso9660_rs.Entry.Reader.ToEnd.{read_to_end}
use iso9660_rs.Entry.Types.{DirectoryEntry, IsoFile}
use iso9660_rs.Iso.{Iso9660, new, open_path}

-- What makes the program fail: an `anyhow::Error` with one of these behind it.
pub data Failure : Type 0 where
  io : IoError → Failure
  iso : IsoError → Failure
  not_utf8 : Failure
  not_a_file : Str → Failure
  not_found : Str → Failure

-- `fuel` bounds the continuation areas of a record, and `calls` the calls of `read`.
module _ (c : Crates) {T : Type 0} (reader : Iso9660Reader T) (room : Bytes → ℕ)
    (fuel calls : ℕ) where
  abbrev D : Type 0
  D = c.time.OffsetDateTime

  written : Result IoError Bytes × (IsoFileReader × T) → Result Failure Bytes × T
  written (ok text, (r, t)) = (ok text, t)
  written (err e, (r, t)) = (err (io e), t)
  written (panic, (r, t)) = (panic, t)
  written (out_of_fuel, (r, t)) = (out_of_fuel, t)

  -- `file.read().read_to_end(&mut text)?`, and the text that is then written.
  unfoldable pub print_contents : IsoFile D → M T Failure Bytes
  unfolding written
  print_contents f t = written (read_to_end reader room calls [] (open_reader f, t))

  -- The result of `open` is unwrapped.
  unfoldable pub print_entry :
      Str → Result IsoError (Option (DirectoryEntry D)) × T → Result Failure Bytes × T
  unfolding print_contents
  print_entry path (ok (some (DirectoryEntry.file f)), t) = print_contents f t
  print_entry path (ok (some (DirectoryEntry.directory dir)), t) = (err (not_a_file path), t)
  print_entry path (ok (some (DirectoryEntry.symlink link)), t) = (err (not_a_file path), t)
  print_entry path (ok none, t) = (err (not_found path), t)
  print_entry path (err e, t) = (panic, t)
  print_entry path (panic, t) = (panic, t)
  print_entry path (out_of_fuel, t) = (out_of_fuel, t)

  with_image : Option Str → Result IsoError (Iso9660 D) × T → Result Failure Bytes
  unfolding print_entry
  with_image (some path) (ok fs, t) = (print_entry path (open_path c reader fuel fs path t)).0
  with_image none (ok fs, t) = err not_utf8
  with_image path (err e, t) = err (iso e)
  with_image path (panic, t) = panic
  with_image path (out_of_fuel, t) = out_of_fuel

  -- `main`, with the result of `File::open` and the path, where it is UTF-8: what goes to the standard
  -- output.
  unfoldable pub main : Result IoError T → Option Str → Result Failure Bytes
  unfolding with_image
  main (ok t) path = with_image path (new c reader fuel t)
  main (err e) path = err (io e)
  main panic path = panic
  main out_of_fuel path = out_of_fuel
