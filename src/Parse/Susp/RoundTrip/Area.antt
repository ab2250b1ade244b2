-- ===== src/Parse/Susp/RoundTrip/Area.antt =====
-- A whole system use area, read by the loop of cdfs/src/parse/susp.rs.
use iso9660_rs.Prelude.{
  ℕ, ◌<◌, ◌≡◌, refl, true, List, [], ◌∷◌, ◌++◌, length, length-append, arith, zero, suc, ltb,
}
use iso9660_rs.Crates.{Crates, Bytes, Parser}
use iso9660_rs.Crates.Documented.{documented, IsCrates, by_documentation, many_loop, doc_many1}
use iso9660_rs.Outcome.{ok, err, error}
use iso9660_rs.Parse.Susp.Frame.{parse, parse_sig}
use iso9660_rs.Parse.Susp.Entries.{system_use_entry, system_use_entries}
use iso9660_rs.Parse.Susp.Types.{
  SystemUseEntry, continuation_area, extensions_reference, susp_indicator, alternate_name,
  posix_attributes, posix_timestamp, rock_ridge, symbolic_link, child_link, relocated_directory,
  unknown,
}
use iso9660_rs.Parse.Susp.RoundTrip.{written, IsWritable}
use iso9660_rs.Parse.Susp.RoundTrip.Kinds.{one}

module _ {A : Type 0} (p : Parser A) where
  many_loop-stop : (f : ℕ) (i : Bytes) → p i ≡ err error → many_loop (suc f) p i ≡ ok (i, [])
  unfolding many_loop
  many_loop-stop f i h = rw (h, many_loop) refl

  many_loop-step :
      (f : ℕ) (i rest end : Bytes) (a : A) (as' : List A)
      → p i ≡ ok (rest, a)
      → ltb (length rest) (length i) ≡ true
      → many_loop f p rest ≡ ok (end, as')
      → many_loop (suc f) p i ≡ ok (end, a ∷ as')
  unfolding many_loop
  many_loop-step f i rest end a as' h less more = ground (arith, h, less, more)

  doc_many1-step :
      (i rest end : Bytes) (a : A) (as' : List A)
      → p i ≡ ok (rest, a)
      → many_loop (suc (length rest)) p rest ≡ ok (end, as')
      → doc_many1 p i ≡ ok (end, a ∷ as')
  doc_many1-step i rest end a as' h more = rw (h, more) refl

module _ (c : Crates) where
  abbrev pub written_all : List (SystemUseEntry c.time.OffsetDateTime) → Bytes
  written_all [] = []
  written_all (e ∷ es) = written c e ++ written_all es

  abbrev pub AreWritable : List (SystemUseEntry c.time.OffsetDateTime) → Type 0
  AreWritable [] = Unit {0}
  AreWritable (e ∷ es) = IsWritable c e × AreWritable es

  written-length :
      (e : SystemUseEntry c.time.OffsetDateTime) → IsWritable c e → 0 < length (written c e)
  written-length (susp_indicator skip) h = omega arith
  written-length (continuation_area ce) h = omega arith
  written-length (alternate_name nm) h = omega arith
  written-length (posix_attributes px) h = omega arith
  written-length (rock_ridge flags) h = omega arith
  written-length (child_link lba) h = omega arith
  written-length (relocated_directory b) h = omega arith
  written-length (extensions_reference er) h = absurd (cc h)
  written-length (posix_timestamp t) h = absurd (cc h)
  written-length (symbolic_link l) h = absurd (cc h)
  written-length (unknown u) h = absurd (cc h)

  at_end : system_use_entry (documented c) [] ≡ err error
  unfolding system_use_entry parse parse_sig
  at_end = refl

  all :
      (f : ℕ) (es : List (SystemUseEntry c.time.OffsetDateTime))
      → AreWritable es
      → length (written_all es) < f
      → many_loop f (system_use_entry (documented c)) (written_all es) ≡ ok ([], es)
  all zero es h lt = absurd (omega arith)
  all (suc f) [] h lt = many_loop-stop (system_use_entry (documented c)) f [] at_end
  all (suc f) (e ∷ es) h lt =
      let less : ltb (length (written_all es)) (length (written c e ++ written_all es)) ≡ true =
        ground (arith, written-length e h.0, length-append (written c e) (written_all es)) in
      many_loop-step (system_use_entry (documented c)) f (written c e ++ written_all es)
        (written_all es) [] e es (one c (written_all es) e h.0) less
        (all f es h.1
          (omega (arith, written-length e h.0, length-append (written c e) (written_all es))))

-- A system use area of indicators, continuation areas, names, attributes, Rock Ridge flags, child
-- links and relocation marks, one after the other and at least one, is read back entry for entry
-- with nothing left, where numbers have 32 bits, flags are known, and names are plain text.
pub system_use_entries-written :
    (c : Crates)
    → IsCrates c
    → (e : SystemUseEntry c.time.OffsetDateTime) (es : List (SystemUseEntry c.time.OffsetDateTime))
    → AreWritable c (e ∷ es)
    → system_use_entries c (written_all c (e ∷ es)) ≡ ok ([], e ∷ es)
unfolding system_use_entries
system_use_entries-written c d e es h =
    by_documentation c
      (λ x.
        (e : SystemUseEntry x.time.OffsetDateTime)
        (es : List (SystemUseEntry x.time.OffsetDateTime))
        → AreWritable x (e ∷ es)
        → system_use_entries x (written_all x (e ∷ es)) ≡ ok ([], e ∷ es))
      d
      (λ e es h.
        doc_many1-step (system_use_entry (documented c)) (written c e ++ written_all c es)
          (written_all c es) [] e es (one c (written_all c es) e h.0)
          (all c (suc (length (written_all c es))) es h.1 (omega arith)))
      e es h
