-- ===== src/Entry/Directory.antt =====
-- cdfs/src/directory_entry/isodirectory.rs: reading a directory's records, listing it, and finding
-- an entry in it or below it. T is the state of the shared reader of the image.
pub mod Offsets
pub mod Chains
pub mod Progress
use iso9660_rs.Prelude.{
  ℕ, zero, suc, ◌+◌, ◌-◌, ◌*◌, ◌/◌, ◌%◌, ◌^◌, Bool, true, false, Option, none, some, List, [], ◌∷◌,
  ◌++◌, ltb, leb, ◌==◌, ◌||◌, if◌then◌else◌, drop, get_or, replicate,
}
use iso9660_rs.Outcome.{
  Result, ok, err, panic, out_of_fuel, IoError, IsoError, io, read_size, map_err, NomError,
}
use iso9660_rs.Outcome
use iso9660_rs.State.{M, ◌>>=◌, ◌>>◌, lift, pure}
use iso9660_rs.Crates.{Crates, Bytes}
use iso9660_rs.Machine.{fit, sub_word, slice}
use iso9660_rs.FileRef.{Iso9660Reader, block_size}
use iso9660_rs.Parse.DirectoryEntry.{parse, directory as directory_flag}
use iso9660_rs.Parse.Encoding.{finish}
use iso9660_rs.Parse.Susp.Entries.{system_use_entries}
use iso9660_rs.Parse.Susp.Frame.{check}
use iso9660_rs.Parse.Susp.Types.{ContinuationArea, SystemUseEntry}
use iso9660_rs.Entry.Meta.{split_continuation, take_continuation, child_link_of, extra_meta}
use iso9660_rs.Entry.Names.{new_directory, new_entry, identifier}
use iso9660_rs.Entry.Types.{IsoDirectory, DirectoryEntry}
use mathlib.Core.Option.{get_or as option_or}

-- The caller's block buffer, the number of the block in it, and the reader.
pub record DirState (T : Type 0) : Type 0 where
  pub block : Bytes
  pub block_num : Option ℕ
  pub reader : T

is_block : Option ℕ → ℕ → Bool
is_block none n = false
is_block (some m) n = m == n

is_nil : {A : Type 0} → List A → Bool
is_nil [] = true
is_nil (x ∷ xs) = false

module _ (c : Crates) {T : Type 0} (reader : Iso9660Reader T) where
  abbrev D : Type 0
  D = c.time.OffsetDateTime

  abbrev pub Dir : Type 0 → Type 0
  Dir = M (DirState T) IsoError

  -- ceil(len / block_size), in `u32`.
  unfoldable pub block_count : {E : Type 0} → IsoDirectory D → Result E ℕ
  unfolding fit sub_word
  block_count dir =
      Outcome.◌>>=◌ (fit c (2 ^ 32) (dir.header.extent_length + block_size))
        λ sum. Outcome.◌>>=◌ (sub_word c (2 ^ 32) sum 1) λ len. ok (len / block_size)

  -- After `read_at` into the caller's buffer.
  loaded : ℕ → DirState T → Result IoError ℕ × Bytes × T → Result IsoError (Unit {0}) × DirState T
  loaded n s (ok count, b, t) =
      if count == 2048
      then (ok tt, record { block = b; block_num = some n; reader = t })
      else (err (read_size count), record { block = b; block_num = none; reader = t })
  loaded n s (err e, b, t) = (err (io e), record s { block = b; reader = t })
  loaded n s (panic, b, t) = (panic, record s { block = b; reader = t })
  loaded n s (out_of_fuel, b, t) = (out_of_fuel, record s { block = b; reader = t })

  unfoldable pub load_block : IsoDirectory D → ℕ → Dir (Unit {0})
  unfolding loaded is_block
  load_block dir n s =
      if is_block s.block_num n
      then (ok tt, s)
      else loaded n s (reader.read_at s.reader s.block (dir.header.extent_loc + n))

  -- A continuation area, read into a buffer of its own from the start of its block.
  area_read :
      ContinuationArea
      → DirState T
      → Result IoError ℕ × Bytes × T
      → Result IsoError (List (SystemUseEntry D)) × DirState T
  unfolding check slice
  area_read cont s (ok count, b, t) = (
    Outcome.◌>>=◌ (check c ((count == 2048) || (count == cont.length)))
        (λ _. Outcome.◌>>=◌ (slice b 0 cont.length) (λ area. finish (system_use_entries c area))),
    record s { reader = t },
  )
  area_read cont s (err e, b, t) = (err (io e), record s { reader = t })
  area_read cont s (panic, b, t) = (panic, record s { reader = t })
  area_read cont s (out_of_fuel, b, t) = (out_of_fuel, record s { reader = t })

  unfoldable pub read_area : ContinuationArea → Dir (List (SystemUseEntry D))
  unfolding area_read
  read_area cont s =
      area_read cont s (reader.read_at s.reader (replicate block_size 0) cont.block_location)

  -- The `while let` over the continuation areas. It ends when no entry names one more area, which
  -- an image need not bring about: the fuel bounds the number of areas that are followed.
  unfoldable pub continuations :
      ℕ → List (SystemUseEntry D) × Option ContinuationArea → Dir (List (SystemUseEntry D))
  unfolding take_continuation
  continuations fuel (susp, none) s = (ok susp, s)
  continuations zero (susp, some cont) s = (out_of_fuel, s)
  continuations (suc fuel) (susp, some cont) s =
      (read_area cont >>= λ more. continuations fuel (take_continuation (susp ++ more))) s

  -- Where the next record starts: past the last one of a block, all is zero.
  unfoldable pub next_offset : {E : Type 0} → IsoDirectory D → Bytes → ℕ → ℕ → Result E (Option ℕ)
  next_offset dir block block_num block_pos =
      let at_end = leb (2048 - 33) block_pos || (get_or block block_pos 0 == 0) in
      let block_num = if at_end then block_num + 1 else block_num in
      let block_pos = if at_end then 0 else block_pos in
      Outcome.◌>>=◌ (block_count dir)
        λ blocks. ok (if ltb block_num blocks then some (2048 * block_num + block_pos) else none)

  -- A `CL` record stands for a directory elsewhere; only a file may carry one.
  unfoldable pub relocate : DirectoryEntry D → Option ℕ → Result IsoError (DirectoryEntry D)
  relocate entry none = ok entry
  relocate (DirectoryEntry.file f) (some lba) = ok (
      DirectoryEntry.directory (
        new_directory
          (record (f.header) {
            file_flags = c.bitflags.union f.header.file_flags directory_flag;
            extent_loc = lba;
            extent_length = 2048;
          })
          f.ext f.identifier))
  relocate (DirectoryEntry.directory dir) (some lba) = panic
  relocate (DirectoryEntry.symlink link) (some lba) = panic

  unfoldable pub read_entry_at : ℕ → IsoDirectory D → ℕ → Dir (DirectoryEntry D × Option ℕ)
  unfolding load_block continuations next_offset relocate slice
  read_entry_at fuel dir offset s =
      (do
        let block_num = offset / block_size
        let block_pos = offset % block_size
        load_block dir block_num
        block ← λ s. (ok s.block, s)
        (header, identifier, susp) ←
            lift (parse c dir.header.character_encoding (drop block_pos block))
        susp ← continuations fuel (split_continuation (option_or susp []))
        ext ← lift (extra_meta c susp)
        entry ← lift (new_entry c header ext identifier)
        next ← lift (next_offset dir block block_num (block_pos + header.length))
        entry ← lift (relocate entry (child_link_of susp))
        pure (entry, next))
        s
