-- ===== src/Entry/Meta/LongNames.antt =====
-- A name that goes on over several `NM` entries, as `read_entry_at` of
-- cdfs/src/directory_entry/isodirectory.rs puts it together.
use iso9660_rs.Prelude.{
  ◌≡◌, refl, ap, ◌∙◌, true, false, none, some, List, [], ◌∷◌, ◌++◌, append_assoc,
}
use iso9660_rs.Crates.{Crates, Str}
use iso9660_rs.Crates.Documented.{IsCrates, by_documentation, documented, doc_take_while_inclusive}
use iso9660_rs.Parse.Susp.Flags.{name_continue}
use iso9660_rs.Parse.Susp.Types.{AlternateName, SystemUseEntry, alternate_name}
use iso9660_rs.Entry.Meta.{alt_name_of, as_name, append_name}
use mathlib.Core.List.{filter_map, foldl}

module _ (c : Crates) where
  -- Every part but the last says that the name goes on.
  abbrev pub GoesOn : List AlternateName → Type 0
  GoesOn [] = Unit {0}
  GoesOn (part ∷ parts) = (c.bitflags.contains part.flags name_continue ≡ true) × GoesOn parts

abbrev pub entries_of :
    {D : Type 0} → List AlternateName → List (SystemUseEntry D) → List (SystemUseEntry D)
entries_of [] more = more
entries_of (part ∷ parts) more = alternate_name part ∷ entries_of parts more

abbrev pub text_of : List AlternateName → AlternateName → Str
text_of [] last = last.name
text_of (part ∷ parts) last = part.name ++ text_of parts last

module _ (c : Crates) {D : Type 0} (last : AlternateName) (more : List (SystemUseEntry D))
    (ends : c.bitflags.contains last.flags name_continue ≡ false) where
  fold :
      (parts : List AlternateName) (acc : Str)
      → GoesOn c parts
      → foldl append_name (some acc) (
          doc_take_while_inclusive
            (λ (name : AlternateName). c.bitflags.contains name.flags name_continue)
            (filter_map as_name (entries_of parts (alternate_name last ∷ more))))
        ≡ some (acc ++ text_of parts last)
  unfolding append_name as_name filter_map
  fold [] acc h = rw ends refl
  fold (part ∷ parts) acc h = rw h.0 (
      fold parts (acc ++ part.name) h.1 ∙ ap some (append_assoc acc part.name (text_of parts last)))

  first :
      (parts : List AlternateName)
      → GoesOn c parts
      → foldl append_name none (
          doc_take_while_inclusive
            (λ (name : AlternateName). c.bitflags.contains name.flags name_continue)
            (filter_map as_name (entries_of parts (alternate_name last ∷ more))))
        ≡ some (text_of parts last)
  unfolding append_name as_name filter_map
  first [] h = rw ends refl
  first (part ∷ parts) h = rw h.0 (fold parts part.name h.1)

-- A name whose parts say that it goes on, all but the last, is the text of its parts one after the
-- other, whatever entries follow.
pub alt_name_of-parts :
    (c : Crates)
    → IsCrates c
    → {D : Type 0} (parts : List AlternateName) (last : AlternateName)
      (more : List (SystemUseEntry D))
    → GoesOn c parts
    → c.bitflags.contains last.flags name_continue ≡ false
    → alt_name_of c (entries_of parts (alternate_name last ∷ more)) ≡ some (text_of parts last)
unfolding alt_name_of
alt_name_of-parts c d parts last more =
    by_documentation c
      (λ c.
        GoesOn c parts
        → c.bitflags.contains last.flags name_continue ≡ false
        → alt_name_of c (entries_of parts (alternate_name last ∷ more)) ≡ some (text_of parts last))
      d (λ h ends. first (documented c) last more ends parts h)
