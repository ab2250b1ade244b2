-- ===== src/Text.antt =====
-- What the program uses of Rust's standard library on text: `str::from_utf8` and `as_bytes`, the
-- trims, `rfind`, `split`, `eq_ignore_ascii_case`, and the parsers of decimal numbers.
pub mod Plain
use iso9660_rs.Prelude.{
  ℕ, zero, suc, ◌+◌, ◌-◌, ◌*◌, ◌/◌, ◌%◌, Bool, true, false, ◌&&◌, ◌||◌, Option, none, some, List,
  [], ◌∷◌, ◌++◌, ltb, leb, ◌==◌, if◌then◌else◌, ℤ, pos, negsuc,
}
use iso9660_rs.Crates.{Bytes, Str}
use mathlib.Core.Option
use Prim.Native.Char.{code}
use Prim.Native.String.{String}
use mathlib.Core.List.{reverse}

-- A text literal.
abbrev pub chars : String → Str
chars String.[] = []
chars (String.◌∷◌ ch s) = code ch ∷ chars s

-- Between two characters, or with n + 1 bytes of one to come, the next of them in lo..hi.
pub data Utf8State : Type 0 where
  start : Utf8State
  more : ℕ → ℕ → ℕ → ℕ → Utf8State

lead_byte : ℕ → Option (Utf8State × Option ℕ)
lead_byte b =
    if ltb b 0x80
    then some (start, some b)
    else if ltb b 0xc2
    then none
    else if ltb b 0xe0
    then some (more 0 0x80 0xbf (b - 0xc0), none)
    else if b == 0xe0
    then some (more 1 0xa0 0xbf 0, none)
    else if b == 0xed
    then some (more 1 0x80 0x9f 0xd, none)
    else if ltb b 0xf0
    then some (more 1 0x80 0xbf (b - 0xe0), none)
    else if b == 0xf0
    then some (more 2 0x90 0xbf 0, none)
    else if ltb b 0xf4
    then some (more 2 0x80 0xbf (b - 0xf0), none)
    else if b == 0xf4
    then some (more 2 0x80 0x8f 4, none)
    else none

later_byte : ℕ → ℕ → Utf8State × Option ℕ
later_byte zero v = (start, some v)
later_byte (suc n) v = (more n 0x80 0xbf v, none)

utf8_step : Utf8State → ℕ → Option (Utf8State × Option ℕ)
unfolding lead_byte later_byte
utf8_step start b = lead_byte b
utf8_step (more n lo hi v) b =
    if leb lo b && leb b hi then some (later_byte n (v * 64 + (b - 0x80))) else none

push : Option ℕ → Str → Str
push none s = s
push (some ch) s = ch ∷ s

unfoldable pub utf8_from : Utf8State → Bytes → Option Str
unfolding utf8_step push
utf8_from start [] = some []
utf8_from (more n lo hi v) [] = none
utf8_from s (b ∷ i) =
    Option.bind (utf8_step s b) λ (s', out). Option.map (push out) (utf8_from s' i)

-- `str::from_utf8`.
unfoldable pub from_utf8 : Bytes → Option Str
unfolding utf8_from
from_utf8 i = utf8_from start i

to_utf8_char : ℕ → Bytes
to_utf8_char ch =
    if ltb ch 0x80
    then ch ∷ []
    else if ltb ch 0x800
    then (0xc0 + ch / 64) ∷ (0x80 + ch % 64) ∷ []
    else if ltb ch 0x10000
    then (0xe0 + ch / 4096) ∷ (0x80 + ch / 64 % 64) ∷ (0x80 + ch % 64) ∷ []
    else (0xf0 + ch / 262144)
      ∷ (0x80 + ch / 4096 % 64)
      ∷ (0x80 + ch / 64 % 64)
      ∷ (0x80 + ch % 64)
      ∷ []

-- `str::as_bytes`.
unfoldable pub as_bytes : Str → Bytes
unfolding to_utf8_char
as_bytes [] = []
as_bytes (ch ∷ s) = to_utf8_char ch ++ as_bytes s

-- Unicode's White_Space.
is_whitespace : ℕ → Bool
is_whitespace ch =
    (leb 9 ch && leb ch 13)
    || (ch == 32)
    || (ch == 0x85)
    || (ch == 0xa0)
    || (ch == 0x1680)
    || (leb 0x2000 ch && leb ch 0x200a)
    || (ch == 0x2028)
    || (ch == 0x2029)
    || (ch == 0x202f)
    || (ch == 0x205f)
    || (ch == 0x3000)

unfoldable pub trim_start_by : (ℕ → Bool) → Str → Str
trim_start_by p [] = []
trim_start_by p (ch ∷ s) = if p ch then trim_start_by p s else ch ∷ s

unfoldable pub trim_end_by : (ℕ → Bool) → Str → Str
unfolding trim_start_by
trim_end_by p s = reverse (trim_start_by p (reverse s))

unfoldable pub trim_end : Str → Str
unfolding trim_end_by is_whitespace
trim_end s = trim_end_by is_whitespace s

-- `trim_matches` with a character.
unfoldable pub trim_matches : ℕ → Str → Str
unfolding trim_end_by
trim_matches x s = trim_end_by (λ ch. ch == x) (trim_start_by (λ ch. ch == x) s)

-- Equality of texts, `==` on `str`.
unfoldable pub str_eq : Str → Str → Bool
str_eq [] [] = true
str_eq (a ∷ s) (b ∷ t) = (a == b) && str_eq s t
str_eq _ _ = false

to_ascii_lowercase : ℕ → ℕ
to_ascii_lowercase ch = if leb 65 ch && leb ch 90 then ch + 32 else ch

unfoldable pub eq_ignore_ascii_case : Str → Str → Bool
unfolding to_ascii_lowercase
eq_ignore_ascii_case [] [] = true
eq_ignore_ascii_case (a ∷ s) (b ∷ t) =
    (to_ascii_lowercase a == to_ascii_lowercase b) && eq_ignore_ascii_case s t
eq_ignore_ascii_case _ _ = false

-- `rfind` with a character, and the two parts that the slices on its result give: what stands
-- before the last `x`, and what stands behind it.
abbrev extend : ℕ → ℕ → Str → Option (Str × Str) → Option (Str × Str)
extend x ch s (some (before, behind)) = some (ch ∷ before, behind)
extend x ch s none = if ch == x then some ([], s) else none

unfoldable pub rsplit_at : ℕ → Str → Option (Str × Str)
rsplit_at x [] = none
rsplit_at x (ch ∷ s) = extend x ch s (rsplit_at x s)

-- `ends_with` with a character, and `pop`.
unfoldable pub ends_with : ℕ → Str → Bool
ends_with x [] = false
ends_with x (ch ∷ []) = ch == x
ends_with x (ch ∷ d ∷ s) = ends_with x (d ∷ s)

unfoldable pub pop : Str → Str
pop [] = []
pop (ch ∷ []) = []
pop (ch ∷ d ∷ s) = ch ∷ pop (d ∷ s)

abbrev cons_first : ℕ → List Str → List Str
cons_first ch [] = (ch ∷ []) ∷ []
cons_first ch (p ∷ ps) = (ch ∷ p) ∷ ps

-- `split` by a character: one part more than there are separators.
unfoldable pub split : ℕ → Str → List Str
split x [] = [] ∷ []
split x (ch ∷ s) = let rest = split x s in if ch == x then [] ∷ rest else cons_first ch rest

unfoldable pub digits : ℕ → Str → Option ℕ
digits acc [] = some acc
digits acc (ch ∷ s) =
    let more = digits (acc * 10 + (ch - 48)) s in if leb 48 ch && leb ch 57 then more else none

-- At least one digit.
unfoldable pub decimal : Str → Option ℕ
unfolding digits
decimal [] = none
decimal (ch ∷ s) = digits 0 (ch ∷ s)

-- `u16::from_str`: an optional `+`, digits, and no overflow.
unfoldable pub u16_from_str : Str → Option ℕ
unfolding decimal
u16_from_str [] = none
u16_from_str (ch ∷ s) =
    Option.bind (if ch == 43 then decimal s else decimal (ch ∷ s))
      λ n. if ltb n 65536 then some n else none

abbrev to_negative : ℕ → Option ℤ
to_negative zero = some (pos 0)
to_negative (suc n) = if ltb n 0x8000_0000 then some (negsuc n) else none

-- `str::parse::<i32>`: an optional sign, digits, and no overflow.
unfoldable pub i32_from_str : Str → Option ℤ
unfolding decimal
i32_from_str [] = none
i32_from_str (ch ∷ s) =
    if ch == 45
    then Option.bind (decimal s) to_negative
    else Option.bind (if ch == 43 then decimal s else decimal (ch ∷ s))
        λ n. if ltb n 0x8000_0000 then some (pos n) else none
