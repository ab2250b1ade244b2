-- ===== src/Tests/Parsing.antt =====
-- The parsers and the names at concrete inputs.
use iso9660_rs.Prelude.{ℕ, ◌≡◌, refl, true, none, some, [], ◌∷◌, ◌++◌, arith}
use iso9660_rs.Outcome.{ok}
use iso9660_rs.Crates.{Bytes, Str}
use iso9660_rs.Text.{chars, u16_from_str}
use iso9660_rs.Parse.BothEndian.{both_endian16, both_endian32}
use iso9660_rs.Parse.BothEndian.RoundTrip.{
  le16, be16, le32, be32, both_endian16-read, both_endian32-read,
}
use iso9660_rs.Parse.Susp.Entries.{system_use_entries}
use iso9660_rs.Parse.Susp.Types.{
  SystemUseEntry, AlternateName, posix_attributes, alternate_name, relocated_directory,
}
use iso9660_rs.Parse.Susp.RoundTrip.Area.{written_all, system_use_entries-written}
use iso9660_rs.Text.Plain.{IsPlain}
use iso9660_rs.Parse.Susp.Frame.{parse_sig}
use iso9660_rs.Parse.Susp.Frame.Lengths.{Framed, parse_sig-Framed}
use iso9660_rs.Entry.Meta.{alt_name_of}
use iso9660_rs.Entry.Meta.LongNames.{alt_name_of-parts}
use iso9660_rs.Entry.Names.{versioned}
use iso9660_rs.Entry.Names.Versions.{LosesDot, versioned_lem, with_version}
use iso9660_rs.Tests.Setting.{crates, crates-IsCrates}

both_endian16-read_example :
    both_endian16 crates (le16 2048 ++ (be16 2048 ++ (9 ∷ []))) ≡ ok (9 ∷ [], 2048)
both_endian16-read_example = both_endian16-read crates crates-IsCrates 2048 (9 ∷ []) (omega arith)

both_endian32-read_example :
    both_endian32 crates (le32 70000 ++ (be32 70000 ++ (9 ∷ []))) ≡ ok (9 ∷ [], 70000)
both_endian32-read_example = both_endian32-read crates crates-IsCrates 70000 (9 ∷ []) (omega arith)

-- An entry `RE` with no data, and one more byte.
abbrev re_entry : Bytes
re_entry = b'R' ∷ b'E' ∷ 4 ∷ 1 ∷ 7 ∷ []

re_frame : parse_sig crates none re_entry ≡ ok (7 ∷ [], (b'R' ∷ b'E' ∷ [], 4, 1, []))
unfolding parse_sig
re_frame = refl

parse_sig-Framed_example : Framed none re_entry (7 ∷ []) (b'R' ∷ b'E' ∷ []) [] 4 1
parse_sig-Framed_example =
    parse_sig-Framed crates crates-IsCrates none re_entry (7 ∷ []) (b'R' ∷ b'E' ∷ []) [] 4 1
      (λ s e. absurd (cc e)) (omega arith) re_frame

versioned_lem_example :
    ((shown : Str) × LosesDot (chars "README.") shown
      × (versioned (chars "README." ++ (b';' ∷ chars "12"))
          ≡ with_version shown (u16_from_str (chars "12"))))
    × ((shown : Str) × LosesDot (chars "12") shown × (versioned (chars "12") ≡ ok (shown, 1)))
versioned_lem_example = versioned_lem (chars "README.") (chars "12") (refl, (refl, tt))

-- Attributes with an inode number, a name that goes on, and a mark of relocation.
abbrev px : SystemUseEntry ℕ
px = posix_attributes (record { mode = 0o100644; links = 1; uid = 0; gid = 100; inode = some 7 })

abbrev nm : SystemUseEntry ℕ
nm = alternate_name (record { name = chars "readme"; flags = 1 })

abbrev re : SystemUseEntry ℕ
re = relocated_directory true

plain : IsPlain (chars "readme")
plain = omega arith

system_use_entries-written_example :
    system_use_entries crates (written_all crates (px ∷ nm ∷ re ∷ [])) ≡ ok ([], px ∷ nm ∷ re ∷ [])
system_use_entries-written_example =
    system_use_entries-written crates crates-IsCrates px (nm ∷ re ∷ []) (
      (omega arith, refl, omega arith, omega arith, omega arith, omega arith),
      ((refl, plain), (refl, tt)),
    )

-- `read`, which goes on, and `me`, which does not.
abbrev first_part : AlternateName
first_part = record { name = chars "read"; flags = 1 }

abbrev last_part : AlternateName
last_part = record { name = chars "me"; flags = 0 }

alt_name_of-parts_example :
    alt_name_of crates {D = ℕ} (alternate_name first_part ∷ alternate_name last_part ∷ re ∷ [])
    ≡ some (chars "readme")
alt_name_of-parts_example =
    alt_name_of-parts crates crates-IsCrates (first_part ∷ []) last_part (re ∷ []) (refl, tt) refl
