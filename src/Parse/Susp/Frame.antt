-- ===== src/Parse/Susp/Frame.antt =====
-- cdfs/src/parse/susp.rs, the trait `ParseSusp`: the frame that every entry has, a signature of two
-- bytes, the length of the whole entry, a version, and the entry's own data.
pub mod Lengths
use iso9660_rs.Prelude.{ℕ, Bool, Option, none, some, ◌==◌, ◌&&◌, if◌then◌else◌}
use iso9660_rs.Outcome.{Result, ok, err, error, ◌>>=◌, ◌>>◌, assert}
use iso9660_rs.Crates.{Crates, Bytes, Parser, NomRes}
use iso9660_rs.Machine.{sub_word, usize_mod}
use iso9660_rs.Text.{str_eq}

module _ (c : Crates) where
  -- An `assert!` under the feature `assertions`.
  unfoldable pub check : {E : Type 0} → Bool → Result E (Unit {0})
  check b = if c.assertions then assert b else ok tt

  abbrev pub sig_parser : Option Bytes → Parser Bytes
  sig_parser (some signature) = c.nom.tag signature
  sig_parser none = c.nom.take 2

  -- The length, the version and the data that stand behind a signature.
  unfoldable pub sig_tail : Bytes → Parser (Bytes × ℕ × ℕ × Bytes)
  unfolding sub_word
  sig_tail sig input = do
    (input, length) ← c.nom.le_u8 input
    (input, version) ← c.nom.le_u8 input
    if length == 0 then err error else ok tt
    remainder ← sub_word c usize_mod length 4
    (input, payload) ← c.nom.take remainder input
    ok (input, (sig, length, version, payload))

  unfoldable pub parse_sig : Option Bytes → Parser (Bytes × ℕ × ℕ × Bytes)
  unfolding sig_tail
  parse_sig signature input = sig_parser signature input >>= λ (input, sig). sig_tail sig input

  -- What the entry's own parser leaves of its data is dropped.
  unfoldable pub parse : {A : Type 0} → Option Bytes → (Bytes → Bytes → ℕ → NomRes A) → Parser A
  unfolding parse_sig
  parse signature parse_data input = do
    (input, (sig, _, version, payload)) ← parse_sig signature input
    (_, entry) ← parse_data payload sig version
    ok (input, entry)

  -- `assert_eq!(Self::SIGNATURE.unwrap(), _sig)` and `assert_eq!(version, 1)`.
  unfoldable pub check_sig : {E : Type 0} → Bytes → Bytes → ℕ → Result E (Unit {0})
  unfolding check
  check_sig signature sig version = check (str_eq signature sig && (version == 1))
