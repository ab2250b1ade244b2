-- ===== src/Parse/BothEndian.antt =====
-- cdfs/src/parse/both_endian.rs: a number stored twice, in little endian and in big endian.
pub mod RoundTrip
use iso9660_rs.Prelude.{ℕ, if◌then◌else◌}
use iso9660_rs.Outcome.{ok, ◌>>=◌}
use iso9660_rs.Crates.{Crates, Parser}

module _ (c : Crates) where
  -- A mismatch is only logged.
  unfoldable pub both_endian16 : Parser ℕ
  both_endian16 i = do
    (i, little_endian) ← c.nom.le_u16 i
    (i, big_endian) ← c.nom.be_u16 i
    if c.big_endian then ok (i, big_endian) else ok (i, little_endian)

  unfoldable pub both_endian32 : Parser ℕ
  both_endian32 i = do
    (i, little_endian) ← c.nom.le_u32 i
    (i, big_endian) ← c.nom.be_u32 i
    if c.big_endian then ok (i, big_endian) else ok (i, little_endian)
