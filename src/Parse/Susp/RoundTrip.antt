-- ===== src/Parse/Susp/RoundTrip.antt =====
-- Rock Ridge entries as a mastering program writes them, and what cdfs/src/parse/susp.rs reads back.
pub mod Frames
pub mod Kinds
pub mod Area
use iso9660_rs.Prelude.{
  ℕ, ◌+◌, ◌^◌, ◌<◌, ◌≡◌, true, false, Option, none, some, [], ◌∷◌, ◌++◌, length, bit_and,
}
use iso9660_rs.Crates.{Crates, Bytes}
use iso9660_rs.Text.Plain.{IsPlain}
use iso9660_rs.Parse.BothEndian.RoundTrip.{le32, be32}
use iso9660_rs.Parse.Susp.RoundTrip.Frames.{frame}
use iso9660_rs.Parse.Susp.Flags.{name_all, mode_all, rock_ridge_all}
use iso9660_rs.Parse.Susp.Types.{
  SystemUseEntry, continuation_area, susp_indicator, alternate_name, posix_attributes, rock_ridge,
  child_link, relocated_directory,
}

module _ (c : Crates) where
  abbrev D : Type 0
  D = c.time.OffsetDateTime

  abbrev pub both : ℕ → Bytes → Bytes
  both n more = le32 n ++ (be32 n ++ more)

  abbrev pub inode_bytes : Option ℕ → Bytes
  inode_bytes none = []
  inode_bytes (some n) = both n []

  -- An entry as RRIP lays it out: its signature, its length, version 1 and its data. The kinds of
  -- entry that keep everything they are read from.
  abbrev pub written : SystemUseEntry D → Bytes
  written (susp_indicator skip) = frame b'S' b'P' (0xbe ∷ 0xef ∷ skip ∷ [])
  written (continuation_area ce) =
      frame b'C' b'E' (both ce.block_location (both ce.offset (both ce.length [])))
  written (alternate_name nm) = frame b'N' b'M' (nm.flags ∷ nm.name)
  written (posix_attributes px) =
      frame b'P' b'X'
        (both px.mode (both px.links (both px.uid (both px.gid (inode_bytes px.inode)))))
  written (rock_ridge flags) = frame b'R' b'R' (flags ∷ [])
  written (child_link lba) = frame b'C' b'L' (both lba [])
  written (relocated_directory b) = frame b'R' b'E' []
  written _ = []

  abbrev pub IsInode : Option ℕ → Type 0
  IsInode none = Unit {0}
  IsInode (some n) = n < 2 ^ 32

  -- What fits: numbers of 32 bits, flags that are known, names of plain text.
  abbrev pub IsWritable : SystemUseEntry D → Type 0
  IsWritable (susp_indicator skip) = Unit {0}
  IsWritable (continuation_area ce) =
      (ce.block_location < 2 ^ 32) × (ce.offset < 2 ^ 32) × (ce.length < 2 ^ 32)
  IsWritable (alternate_name nm) = (bit_and nm.flags name_all ≡ nm.flags) × IsPlain nm.name
  IsWritable (posix_attributes px) =
      (px.mode < 2 ^ 32)
      × (bit_and px.mode mode_all ≡ px.mode)
      × (px.links < 2 ^ 32)
      × (px.uid < 2 ^ 32)
      × (px.gid < 2 ^ 32)
      × IsInode px.inode
  IsWritable (rock_ridge flags) = bit_and flags rock_ridge_all ≡ flags
  IsWritable (child_link lba) = lba < 2 ^ 32
  IsWritable (relocated_directory b) = b ≡ true
  IsWritable _ = false ≡ true
