-- ===== src/Entry/Find.antt =====
-- cdfs/src/directory_entry/isodirectory.rs: listing a directory (`contents` and its iterator), and
-- finding an entry in it (`find`) or below it (`find_recursive`).
pub mod Paths
pub mod Ends
pub mod Listing
use iso9660_rs.Prelude.{
  ℕ, zero, suc, ◌+◌, ◌*◌, Bool, true, false, Option, none, some, List, [], ◌∷◌, if◌then◌else◌,
  replicate,
}
use iso9660_rs.Outcome.{Result, ok, err, panic, out_of_fuel, IsoError}
use iso9660_rs.State.{M, ◌>>=◌, pure}
use iso9660_rs.Crates.{Crates, Str}
use iso9660_rs.FileRef.{Iso9660Reader, block_size}
use iso9660_rs.Text.{eq_ignore_ascii_case, split}
use iso9660_rs.Parse.DirectoryEntry.{associated_file}
use iso9660_rs.Parse.Susp.Types.{SuspExtension, rock_ridge_1_09, rock_ridge_1_12}
use iso9660_rs.Entry.Attributes.{entry_header}
use iso9660_rs.Entry.Directory.{DirState, read_entry_at}
use iso9660_rs.Entry.Names.{identifier}
use iso9660_rs.Entry.Types.{IsoDirectory, DirectoryEntry}

pub record IsoDirectoryIterator (T : Type 0) : Type 0 where
  pub next_offset : Option ℕ
  pub state : DirState T

is_empty : Str → Bool
is_empty [] = true
is_empty (ch ∷ s) = false

-- `path.split('/').filter(|x| !x.is_empty())`
non_empty : List Str → List Str
unfolding is_empty
non_empty [] = []
non_empty (s ∷ ss) = let rest = non_empty ss in if is_empty s then rest else s ∷ rest

unfoldable pub segments : Str → List Str
unfolding non_empty
segments path = non_empty (split b'/' path)

has_rock_ridge : List SuspExtension → Bool
has_rock_ridge [] = false
has_rock_ridge (rock_ridge_1_09 ∷ xs) = true
has_rock_ridge (rock_ridge_1_12 ∷ xs) = true

unfoldable pub is_rock_ridge : {D : Type 0} → IsoDirectory D → Bool
unfolding has_rock_ridge
is_rock_ridge dir = has_rock_ridge dir.ext.extensions

-- `match ... { Some(entry) => f(entry), None => return Ok(None) }`.
abbrev pub and_then :
    {T A : Type 0} → (A → M T IsoError (Option A)) → Option A → M T IsoError (Option A)
and_then f none = pure none
and_then f (some e) = f e

-- `fuel` bounds the continuation areas that one record may name.
module _ (c : Crates) {T : Type 0} (reader : Iso9660Reader T) (fuel : ℕ) where
  abbrev D : Type 0
  D = c.time.OffsetDateTime

  unfoldable pub contents : T → IsoDirectoryIterator T
  contents t = record {
    next_offset = some 0;
    state = record { block = replicate block_size 0; block_num = none; reader = t };
  }

  -- After an error the iterator stays where it was.
  unfoldable pub advance :
      IsoDirectoryIterator T
      → Result IsoError (DirectoryEntry D × Option ℕ) × DirState T
      → Option (Result IsoError (DirectoryEntry D)) × IsoDirectoryIterator T
  advance it (ok (entry, next), s) = (some (ok entry), record { next_offset = next; state = s })
  advance it (err e, s) = (some (err e), record it { state = s })
  advance it (panic, s) = (some panic, record it { state = s })
  advance it (out_of_fuel, s) = (some out_of_fuel, record it { state = s })

  unfoldable pub next :
      IsoDirectory D
      → IsoDirectoryIterator T
      → Option (Result IsoError (DirectoryEntry D)) × IsoDirectoryIterator T
  unfolding advance
  next dir it = elim it.next_offset [
    | none ↦ (none, it)
    | some offset ↦ advance it (read_entry_at c reader fuel dir offset it.state)
  ]

  pub is_match : DirectoryEntry D → Str → Bool
  is_match entry name =
      if c.bitflags.contains (entry_header entry).file_flags associated_file
      then false
      else eq_ignore_ascii_case (identifier entry) name

  -- The `for` loop of `find`, over at most `rounds` entries.
  unfoldable pub find_loop :
      ℕ
      → IsoDirectory D
      → Str
      → IsoDirectoryIterator T
      → Result IsoError (Option (DirectoryEntry D)) × T
  unfolding next is_match
  find_loop zero dir name it = elim it.next_offset [
    | none ↦ (ok none, it.state.reader)
    | some _ ↦ (out_of_fuel, it.state.reader)
  ]
  find_loop (suc rounds) dir name it =
      let (item, it') = next dir it in
      elim item [
        | none ↦ (ok none, it'.state.reader)
        | some (ok entry) ↦
            let rest = find_loop rounds dir name it' in
            if is_match entry name then (ok (some entry), it'.state.reader) else rest
        | some (err e) ↦ (err e, it'.state.reader)
        | some panic ↦ (panic, it'.state.reader)
        | some out_of_fuel ↦ (out_of_fuel, it'.state.reader)
      ]

  -- The offsets of a directory's records rise and stay below its blocks, so this many rounds reach
  -- the end.
  abbrev pub rounds : IsoDirectory D → ℕ
  rounds dir = dir.header.extent_length + 2 * block_size

  unfoldable pub find : IsoDirectory D → Str → M T IsoError (Option (DirectoryEntry D))
  unfolding contents find_loop
  find dir name t = find_loop (rounds dir) dir name (contents t)

  unfoldable pub find_segments :
      DirectoryEntry D → List Str → M T IsoError (Option (DirectoryEntry D))
  unfolding find
  find_segments entry [] t = (ok (some entry), t)
  find_segments (DirectoryEntry.directory dir) (segment ∷ rest) t =
      (find dir segment >>= and_then (λ entry. find_segments entry rest)) t
  find_segments (DirectoryEntry.file f) (segment ∷ rest) t = (ok none, t)
  find_segments (DirectoryEntry.symlink link) (segment ∷ rest) t = (ok none, t)

  unfoldable pub find_recursive : IsoDirectory D → Str → M T IsoError (Option (DirectoryEntry D))
  unfolding find_segments segments
  find_recursive dir path t = find_segments (DirectoryEntry.directory dir) (segments path) t
