-- ===== src/Parse/Encoding.antt =====
-- cdfs/src/parse/mod.rs: the character encodings, and the text of an identifier.
use iso9660_rs.Prelude.{◌-◌, not, [], ◌∷◌, ltb, if◌then◌else◌, length, replicate}
use iso9660_rs.Outcome.{Result, ok, err, panic, out_of_fuel, IsoError, ◌>>=◌, ◌>>◌, assert}
use iso9660_rs.Crates.{Crates, Bytes, Str, Parser, NomRes}
use iso9660_rs.Text.{from_utf8, trim_end}

pub data CharacterEncoding : Type 0 where
  iso9660 : CharacterEncoding
  ucs2_level1 : CharacterEncoding
  ucs2_level2 : CharacterEncoding
  ucs2_level3 : CharacterEncoding

-- A nom error turns into an `ISOError`, and the input that is left is dropped.
abbrev pub finish : {A : Type 0} → NomRes A → Result IsoError A
finish (ok (i, a)) = ok a
finish (err e) = err (IsoError.nom e)
finish panic = panic
finish out_of_fuel = out_of_fuel

module _ (c : Crates) where
  -- nom's `value(v, p)` is `map` with a constant.
  abbrev pub value : {A B : Type 0} → A → Parser B → Parser A
  value v p = c.nom.map p (λ _. v)

  -- `orig_len - bytes.len()` is below 32 unless all 32 bytes were read.
  unfoldable pub character_encoding : Parser CharacterEncoding
  character_encoding bytes = do
    let orig_len = length bytes
    (bytes, encoding) ←
        c.nom.alt
          (value ucs2_level1 (c.nom.tag (0x25 ∷ 0x2f ∷ 0x40 ∷ []))
            ∷ value ucs2_level2 (c.nom.tag (0x25 ∷ 0x2f ∷ 0x43 ∷ []))
            ∷ value ucs2_level3 (c.nom.tag (0x25 ∷ 0x2f ∷ 0x45 ∷ []))
            ∷ value iso9660 (c.nom.tag (replicate 32 0))
            ∷ [])
          bytes
    let len = orig_len - length bytes
    if ltb len 32
        then (c.nom.take (32 - len) bytes >>= λ (bytes, _). ok (bytes, encoding))
        else ok (bytes, encoding)

  unfoldable pub parse : Bytes → Result IsoError CharacterEncoding
  unfolding character_encoding
  parse input = finish (character_encoding input)

  -- UTF-16 with errors panics where the assertions are compiled in.
  unfoldable pub decode_ucs2 : Parser Str
  decode_ucs2 i = do
    (i, input) ← c.nom.rest i
    let (cow, had_errors) = c.utf_16be input
    if c.assertions then assert (not had_errors) else ok tt
    ok (i, trim_end cow)

  unfoldable pub decode_string : CharacterEncoding → Parser Str
  unfolding decode_ucs2
  decode_string iso9660 i = c.nom.map (c.nom.map_res c.nom.rest from_utf8) trim_end i
  decode_string ucs2_level1 i = decode_ucs2 i
  decode_string ucs2_level2 i = decode_ucs2 i
  decode_string ucs2_level3 i = decode_ucs2 i
