-- ===== src/Text/Plain.antt =====
-- Plain text: ASCII without the zero byte, which is its own encoding.
use iso9660_rs.Prelude.{
  ◌<◌, ◌≡◌, refl, sym, ap, subst, ◌∙◌, true, false, some, [], ◌∷◌, ◌++◌, ◌==◌, ltb, arith,
}
use iso9660_rs.Crates.{Str}
use iso9660_rs.Text.{
  from_utf8, utf8_from, utf8_step, lead_byte, push, start, trim_matches, trim_start_by, trim_end_by,
}
use mathlib.Core.Option
use mathlib.Core.List.{reverse, reverse-cons, reverse-reverse}

abbrev pub IsPlain : Str → Type 0
IsPlain [] = Unit {0}
IsPlain (ch ∷ s) = (0 < ch) × (ch < 128) × IsPlain s

utf8_from-plain : (s : Str) → IsPlain s → utf8_from start s ≡ some s
unfolding utf8_from utf8_step lead_byte push Option.bind
utf8_from-plain [] h = refl
utf8_from-plain (ch ∷ s) h =
    let ascii : ltb ch 0x80 ≡ true = ground arith in rw (ascii, utf8_from-plain s h.2) refl

pub from_utf8-plain : (s : Str) → IsPlain s → from_utf8 s ≡ some s
unfolding from_utf8
from_utf8-plain s h = utf8_from-plain s h

trim_start_by-plain : (s : Str) → IsPlain s → trim_start_by (λ ch. ch == 0) s ≡ s
unfolding trim_start_by
trim_start_by-plain [] h = refl
trim_start_by-plain (ch ∷ s) h = let not_zero : (ch == 0) ≡ false = ground arith in rw not_zero refl

IsPlain-append : (s t : Str) → IsPlain s → IsPlain t → IsPlain (s ++ t)
IsPlain-append [] t h k = k
IsPlain-append (ch ∷ s) t h k = (h.0, h.1, IsPlain-append s t h.2 k)

IsPlain-reverse : (s : Str) → IsPlain s → IsPlain (reverse s)
IsPlain-reverse [] h = tt
IsPlain-reverse (ch ∷ s) h =
    subst IsPlain (sym (reverse-cons ch s))
      (IsPlain-append (reverse s) (ch ∷ []) (IsPlain-reverse s h.2) (h.0, h.1, tt))

trim_end_by-plain : (s : Str) → IsPlain s → trim_end_by (λ ch. ch == 0) s ≡ s
unfolding trim_end_by
trim_end_by-plain s h =
    ap reverse (trim_start_by-plain (reverse s) (IsPlain-reverse s h)) ∙ reverse-reverse s

pub trim_matches-plain : (s : Str) → IsPlain s → trim_matches 0 s ≡ s
unfolding trim_matches
trim_matches-plain s h = rw (trim_start_by-plain s h) (trim_end_by-plain s h)
