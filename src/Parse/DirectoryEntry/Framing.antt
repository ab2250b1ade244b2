-- ===== src/Parse/DirectoryEntry/Framing.antt =====
-- The extent of a directory record, `directory_entry` of cdfs/src/parse/directory_entry.rs.
use iso9660_rs.Prelude.{
  ℕ, ◌+◌, ◌-◌, ◌^◌, ◌%◌, ◌==◌, ◌&&◌, ◌≤◌, ◌<◌, ◌≡◌, [], ◌∷◌, arith, length, if◌then◌else◌,
}
use iso9660_rs.Outcome.{ok, NomError}
use iso9660_rs.Crates.{Crates, Bytes, Str, NomRes, Parser}
use iso9660_rs.Crates.Documented.{IsCrates, by_documentation, documented, doc_u8}
use iso9660_rs.Machine.{sub_word, usize_mod}
use iso9660_rs.Parse.BothEndian.{both_endian16, both_endian32}
use iso9660_rs.Parse.DateTime.{date_time}
use iso9660_rs.Parse.Susp.Entries.{system_use_entries}
use iso9660_rs.Parse.Susp.Frame.{check}
use iso9660_rs.Parse.Encoding.{CharacterEncoding}
use iso9660_rs.Parse.Lengths.{
  Gives, Gives-elim, Gives-bind, Gives-step, u8-reads, both_endian32-reads, both_endian16-reads,
  take-reads, Gives-ok, date_time-reads, identifier-reads,
}
use iso9660_rs.Parse.DirectoryEntry.{Record, directory_entry, identifier_text}

module _ (c : Crates) where
  -- A record takes its length, and is longer than its fixed part.
  abbrev pub Extends : Bytes → Bytes → Record c → Type 0
  Extends i rest r = (33 ≤ r.0.length) × (length rest + r.0.length ≡ length i)

  abbrev pub identifier_parser : CharacterEncoding → Parser Str
  identifier_parser encoding =
      c.nom.map_parser (c.nom.length_data c.nom.le_u8) (identifier_text c encoding)

  -- The byte of padding behind an identifier of even length.
  abbrev pub padding : Bytes → Bytes → NomRes Bytes
  padding before behind =
      if (length before - length behind) % 2 == 0 then ok (behind, []) else c.nom.take 1 behind

module _ (c : Crates) where
  padding-reads :
      (before j k pad : Bytes) → padding (documented c) before j ≡ ok (k, pad) → length k ≤ length j
  padding-reads before [] k pad e = ground arith
  padding-reads before (x ∷ j) k pad e = ground arith

  -- The subtraction did not wrap, since the input is not that long.
  framed :
      (len all left rest remainder : ℕ)
      → all < 2 ^ 63
      → left + 33 ≤ all
      → (remainder ≤ left) × (rest + remainder ≡ left)
      → sub_word (documented c) {E = NomError} usize_mod len (all - left) ≡ ok remainder
      → (33 ≤ len) × (rest + len ≡ all)
  unfolding sub_word
  framed len all left rest remainder small read taken e = ground arith

  whole :
      (encoding : CharacterEncoding) (i : Bytes)
      → length i < 2 ^ 63
      → Gives (Extends c i) (directory_entry (documented c) encoding i)
  unfolding directory_entry
  whole encoding i small = Gives-bind (Extends c i) (doc_u8 i) _ λ i₁ len p₁.
      Gives-bind (Extends c i) (doc_u8 i₁) _ λ i₂ xlen p₂.
        Gives-bind (Extends c i) (both_endian32 (documented c) i₂) _ λ i₃ loc p₃.
          Gives-bind (Extends c i) (both_endian32 (documented c) i₃) _ λ i₄ extent p₄.
            Gives-bind (Extends c i) (date_time (documented c) i₄) _ λ i₅ time p₅.
              Gives-bind (Extends c i) (doc_u8 i₅) _ λ i₆ flags p₆.
                Gives-bind (Extends c i) (doc_u8 i₆) _ λ i₇ unit p₇.
                  Gives-bind (Extends c i) (doc_u8 i₇) _ λ i₈ gap p₈.
                    Gives-bind (Extends c i) (both_endian16 (documented c) i₈) _ λ i₉ number p₉.
                      Gives-step (Extends c i) (check (documented c) ((gap == 0) && (unit == 0))) _
                        λ u q.
                          Gives-bind (Extends c i) (identifier_parser (documented c) encoding i₉) _
                            λ j name p.
                              Gives-bind (Extends c i) (padding (documented c) i₉ j) _ λ k pad r.
                                Gives-step (Extends c i)
                                  (sub_word (documented c) usize_mod len (length i - length k)) _
                                  λ remainder s.
                                    Gives-bind (Extends c i)
                                      ((documented c).nom.map_parser
                                        ((documented c).nom.take remainder)
                                        ((documented c).nom.opt (system_use_entries (documented c)))
                                        k)
                                      _
                                      λ rest susp t. Gives-ok (Extends c i) rest _ (
                                        framed len (length i) (length k) (length rest) remainder
                                          small
                                          (omega (
                                            arith,
                                            u8-reads i i₁ len p₁,
                                            u8-reads i₁ i₂ xlen p₂,
                                            both_endian32-reads c i₂ i₃ loc p₃,
                                            both_endian32-reads c i₃ i₄ extent p₄,
                                            date_time-reads c i₄ i₅ time p₅,
                                            u8-reads i₅ i₆ flags p₆,
                                            u8-reads i₆ i₇ unit p₇,
                                            u8-reads i₇ i₈ gap p₈,
                                            both_endian16-reads c i₈ i₉ number p₉,
                                            identifier-reads c
                                                (identifier_text (documented c) encoding) i₉ j name
                                                p,
                                            padding-reads i₉ j k pad r,
                                          ))
                                          (take-reads _ remainder k rest susp t) s)

  -- A directory record that parses, from an input of less than 2 ^ 63 bytes, is at least 33 bytes
  -- long and takes exactly as many bytes of the input as its length says.
  pub directory_entry-Extends :
      IsCrates c
      → (encoding : CharacterEncoding) (i rest : Bytes) (r : Record c) → length i < 2 ^ 63
      → directory_entry c encoding i ≡ ok (rest, r)
      → Extends c i rest r
  directory_entry-Extends d encoding i rest r small =
      by_documentation c
        (λ x.
          (rest : Bytes) (r : Record x)
          → directory_entry x encoding i ≡ ok (rest, r)
          → Extends x i rest r)
        d
        (λ rest r e.
          Gives-elim (Extends (documented c) i) (directory_entry (documented c) encoding i) rest r
            (whole encoding i small) e)
        rest r
