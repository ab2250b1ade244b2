-- ===== src/Parse/Fuel.antt =====
-- The parsers of cdfs/src/parse take no fuel: what they give for a directory record or a system use
-- area is a value, an error or a panic.
use iso9660_rs.Prelude.{
  ℕ, zero, suc, ◌-◌, ◌≢◌, refl, arith, Option, some, none, [], ◌∷◌, ◌==◌, ◌&&◌, length,
}
use iso9660_rs.Outcome.{Result, ok, err, panic, out_of_fuel, ◌>>=◌, IsoError, NomError}
use iso9660_rs.Crates.{Crates, Bytes, Parser, NomRes}
use iso9660_rs.Crates.Documented.{
  IsCrates, by_documentation, documented, doc_u8, doc_many1, doc_map_parser, doc_length_data,
  doc_take, doc_opt, many_loop,
}
use iso9660_rs.Parse.BothEndian.{both_endian16, both_endian32}
use iso9660_rs.Parse.DateTime.{date_time, date_or_default, time_or_default}
use iso9660_rs.Parse.Susp.Entries.{
  parse_susp_indicator, parse_continuation_area, parse_extensions_reference, susp_extension,
  parse_posix_timestamp, parse_alternate_name, parse_posix_attributes, parse_rock_ridge,
  parse_child_link, parse_relocated_directory, parse_symbolic_link, parse_symbolic_link_record,
  parse_unknown, system_use_entry, system_use_entries,
}
use iso9660_rs.Parse.Susp.Frame.{check, check_sig, parse_sig, sig_tail, parse}
use iso9660_rs.Text.{chars}
use iso9660_rs.Machine.{sub_word, usize_mod}
use iso9660_rs.Parse.Encoding.{
  CharacterEncoding, iso9660, ucs2_level1, ucs2_level2, ucs2_level3, decode_string, finish,
}
use iso9660_rs.Parse.DirectoryEntry.{
  Record, identifier_text, directory_entry, parse as parse_record,
}
use iso9660_rs.Parse.DirectoryEntry.Framing.{identifier_parser, padding}

-- A parser that takes no fuel.
abbrev pub Ends : {A : Type 0} → Parser A → Type 0
Ends p = (i : Bytes) → p i ≢ out_of_fuel

-- So too for the data of an entry.
abbrev pub DataEnds : {A : Type 0} → (Bytes → Bytes → ℕ → NomRes A) → Type 0
DataEnds p = (i sig : Bytes) (version : ℕ) → p i sig version ≢ out_of_fuel

bind-Ends :
    {A B : Type 0} (m : NomRes A) (f : Bytes × A → NomRes B)
    → m ≢ out_of_fuel
    → ((rest : Bytes) (a : A) → f (rest, a) ≢ out_of_fuel)
    → (m >>= f) ≢ out_of_fuel
bind-Ends (ok (rest, a)) f h k e = k rest a e
bind-Ends (err x) f h k e = cc e
bind-Ends panic f h k e = cc e
bind-Ends out_of_fuel f h k e = h refl

step-Ends :
    {A B : Type 0} (m : Result NomError A) (f : A → NomRes B)
    → m ≢ out_of_fuel
    → ((a : A) → f a ≢ out_of_fuel)
    → (m >>= f) ≢ out_of_fuel
step-Ends (ok a) f h k e = k a e
step-Ends (err x) f h k e = cc e
step-Ends panic f h k e = cc e
step-Ends out_of_fuel f h k e = h refl

module _ {A : Type 0} (p : Parser A) (h : Ends p) where
  many_loop-Ends : (n : ℕ) → Ends (many_loop n p)
  unfolding many_loop
  many_loop-Ends zero i e = cc e
  many_loop-Ends (suc n) i e = grind (arith, h, many_loop-Ends n)

  many1-Ends : Ends (doc_many1 p)
  many1-Ends i e = grind (arith, h, many_loop-Ends)

module _ (c : Crates) where
  u8-Ends : Ends doc_u8
  u8-Ends [] e = cc e
  u8-Ends (a ∷ i) e = cc e

  both_endian32-Ends : Ends (both_endian32 (documented c))
  unfolding both_endian32
  both_endian32-Ends i e = ground arith

  both_endian16-Ends : Ends (both_endian16 (documented c))
  unfolding both_endian16
  both_endian16-Ends i e = ground arith

  date_time-Ends : Ends (date_time (documented c))
  unfolding date_time date_or_default time_or_default
  date_time-Ends i e = ground arith

  susp_extension-Ends : Ends (susp_extension (documented c))
  unfolding susp_extension
  susp_extension-Ends i e = ground arith

  record-Ends : Ends (parse_symbolic_link_record (documented c))
  unfolding parse_symbolic_link_record
  record-Ends i e = ground arith

  susp_indicator-Ends : DataEnds (parse_susp_indicator (documented c))
  unfolding parse_susp_indicator check_sig
  susp_indicator-Ends i sig version e = ground arith

  continuation_area-Ends : DataEnds (parse_continuation_area (documented c))
  unfolding parse_continuation_area check_sig check
  continuation_area-Ends i sig version e = grind (arith, both_endian32-Ends)

  extensions_reference-Ends : DataEnds (parse_extensions_reference (documented c))
  unfolding parse_extensions_reference check_sig
  extensions_reference-Ends i sig version e =
      ground (arith, many1-Ends (susp_extension (documented c)) susp_extension-Ends i)

  posix_timestamp-Ends : DataEnds (parse_posix_timestamp (documented c))
  unfolding parse_posix_timestamp check_sig
  posix_timestamp-Ends i sig version e =
      grind (arith, many1-Ends (date_time (documented c)) date_time-Ends)

  alternate_name-Ends : DataEnds (parse_alternate_name (documented c))
  unfolding parse_alternate_name check_sig
  alternate_name-Ends i sig version e = ground arith

  posix_attributes-Ends : DataEnds (parse_posix_attributes (documented c))
  unfolding parse_posix_attributes check_sig check
  posix_attributes-Ends i sig version e = grind (arith, both_endian32-Ends)

  rock_ridge-Ends : DataEnds (parse_rock_ridge (documented c))
  unfolding parse_rock_ridge check_sig check
  rock_ridge-Ends i sig version e = ground arith

  child_link-Ends : DataEnds (parse_child_link (documented c))
  unfolding parse_child_link check_sig
  child_link-Ends i sig version e = grind (arith, both_endian32-Ends)

  relocated_directory-Ends : DataEnds (parse_relocated_directory (documented c))
  unfolding parse_relocated_directory check_sig check
  relocated_directory-Ends i sig version e = ground arith

  symbolic_link-Ends : DataEnds (parse_symbolic_link (documented c))
  unfolding parse_symbolic_link check_sig
  symbolic_link-Ends i sig version e =
      grind (arith, many1-Ends (parse_symbolic_link_record (documented c)) record-Ends)

  unknown-Ends : DataEnds (parse_unknown (documented c))
  unfolding parse_unknown
  unknown-Ends i sig version e = cc e

  sig_tail-Ends : (sig : Bytes) → Ends (sig_tail (documented c) sig)
  unfolding sig_tail
  sig_tail-Ends sig i e = ground arith

  parse-Ends :
      {A : Type 0} (signature : Option Bytes) (p : Bytes → Bytes → ℕ → NomRes A)
      → DataEnds p
      → Ends (parse (documented c) signature p)
  unfolding parse parse_sig
  parse-Ends none p h i e = grind (arith, h, sig_tail-Ends)
  parse-Ends (some s) p h i e = grind (arith, h, sig_tail-Ends)

  entry-Ends : Ends (system_use_entry (documented c))
  unfolding system_use_entry
  entry-Ends i e = ground (
    arith,
    parse-Ends (some (chars "SP")) (parse_susp_indicator (documented c)) susp_indicator-Ends i,
    parse-Ends (some (chars "CE")) (parse_continuation_area (documented c)) continuation_area-Ends
        i,
    parse-Ends (some (chars "ER")) (parse_extensions_reference (documented c))
        extensions_reference-Ends i,
    parse-Ends (some (chars "TF")) (parse_posix_timestamp (documented c)) posix_timestamp-Ends i,
    parse-Ends (some (chars "NM")) (parse_alternate_name (documented c)) alternate_name-Ends i,
    parse-Ends (some (chars "PX")) (parse_posix_attributes (documented c)) posix_attributes-Ends i,
    parse-Ends (some (chars "RR")) (parse_rock_ridge (documented c)) rock_ridge-Ends i,
    parse-Ends (some (chars "CL")) (parse_child_link (documented c)) child_link-Ends i,
    parse-Ends (some (chars "RE")) (parse_relocated_directory (documented c))
        relocated_directory-Ends i,
    parse-Ends (some (chars "SL")) (parse_symbolic_link (documented c)) symbolic_link-Ends i,
    parse-Ends none (parse_unknown (documented c)) unknown-Ends i,
  )

  entries-Ends : Ends (system_use_entries (documented c))
  unfolding system_use_entries
  entries-Ends i e = many1-Ends (system_use_entry (documented c)) entry-Ends i e

  decode_string-Ends : (encoding : CharacterEncoding) → Ends (decode_string (documented c) encoding)
  unfolding decode_string
  decode_string-Ends iso9660 i e = ground arith
  decode_string-Ends ucs2_level1 i e = ground arith
  decode_string-Ends ucs2_level2 i e = ground arith
  decode_string-Ends ucs2_level3 i e = ground arith

  identifier-Ends : (encoding : CharacterEncoding) → Ends (identifier_text (documented c) encoding)
  unfolding identifier_text
  identifier-Ends encoding i e = ground (arith, decode_string-Ends encoding i)

  identifier_data-Ends :
      (encoding : CharacterEncoding)
      → Ends (doc_map_parser (doc_length_data doc_u8) (identifier_text (documented c) encoding))
  identifier_data-Ends encoding i e = grind (arith, identifier-Ends)

  susp_data-Ends :
      (n : ℕ) → Ends (doc_map_parser (doc_take n) (doc_opt (system_use_entries (documented c))))
  susp_data-Ends n i e = grind (arith, entries-Ends)

  directory_entry-Ends :
      (encoding : CharacterEncoding) → Ends (directory_entry (documented c) encoding)
  unfolding directory_entry check sub_word
  directory_entry-Ends encoding i = bind-Ends (doc_u8 i) _ (u8-Ends i) λ i₁ len.
      bind-Ends (doc_u8 i₁) _ (u8-Ends i₁) λ i₂ _.
        bind-Ends (both_endian32 (documented c) i₂) _ (both_endian32-Ends i₂) λ i₃ _.
          bind-Ends (both_endian32 (documented c) i₃) _ (both_endian32-Ends i₃) λ i₄ _.
            bind-Ends (date_time (documented c) i₄) _ (date_time-Ends i₄) λ i₅ _.
              bind-Ends (doc_u8 i₅) _ (u8-Ends i₅) λ i₆ _.
                bind-Ends (doc_u8 i₆) _ (u8-Ends i₆) λ i₇ unit.
                  bind-Ends (doc_u8 i₇) _ (u8-Ends i₇) λ i₈ gap.
                    bind-Ends (both_endian16 (documented c) i₈) _ (both_endian16-Ends i₈) λ i₉ _.
                      step-Ends (check (documented c) ((gap == 0) && (unit == 0))) _
                        (λ e. ground arith)
                        λ _.
                          bind-Ends (identifier_parser (documented c) encoding i₉) _
                            (identifier_data-Ends encoding i₉)
                            λ j name.
                              bind-Ends (padding (documented c) i₉ j) _ (λ e. ground arith)
                                λ k pad.
                                  step-Ends
                                    (sub_word (documented c) usize_mod len (length i - length k)) _
                                    (λ e. ground arith)
                                    λ remainder.
                                      bind-Ends
                                        ((documented c).nom.map_parser
                                          ((documented c).nom.take remainder)
                                          ((documented c).nom.opt
                                            (system_use_entries (documented c)))
                                          k)
                                        _ (susp_data-Ends remainder k) λ rest susp e. cc e

finish-Ends : {A : Type 0} (r : NomRes A) → r ≢ out_of_fuel → finish r ≢ out_of_fuel
finish-Ends (ok (i, a)) h e = cc e
finish-Ends (err x) h e = cc e
finish-Ends panic h e = cc e
finish-Ends out_of_fuel h e = h refl

module _ (c : Crates) (d : IsCrates c) where
  pub record_parse-Ends :
      (encoding : CharacterEncoding) (i : Bytes) → parse_record c encoding i ≢ out_of_fuel
  unfolding parse_record
  record_parse-Ends encoding i =
      by_documentation c
        (λ x. ◌≢◌ {A = Result IsoError (Record x)} (parse_record x encoding i) out_of_fuel) d
        (finish-Ends (directory_entry (documented c) encoding i)
          (directory_entry-Ends c encoding i))

  pub area_parse-Ends : (i : Bytes) → finish (system_use_entries c i) ≢ out_of_fuel
  area_parse-Ends i =
      by_documentation c (λ x. finish (system_use_entries x i) ≢ out_of_fuel) d
        (finish-Ends (system_use_entries (documented c) i) (entries-Ends c i))
