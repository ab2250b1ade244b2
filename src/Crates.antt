-- ===== src/Crates.antt =====
-- What cdfs takes from other packages, as parameters: the parser combinators of `nom`, the flag
-- sets of `bitflags`, an adaptor of `itertools`, `encoding_rs`, `time`, and the switches of a
-- build. `Documented` holds the behaviour that nom, bitflags and itertools document, as hypotheses
-- about these parameters.
pub mod Documented
use iso9660_rs.Prelude.{ℕ, Bool, Option, List, ℤ}
use iso9660_rs.Outcome.{Result, NomError}

abbrev pub Bytes : Type 0
Bytes = List ℕ

-- A Rust `String` or `&str`, as the list of its characters (Unicode scalar values).
abbrev pub Str : Type 0
Str = List ℕ

-- `NomRes` of cdfs/src/error.rs: the input that is left, and a value.
abbrev pub NomRes : Type 0 → Type 0
NomRes A = Result NomError (Bytes × A)

abbrev pub Parser : Type 0 → Type 0
Parser A = Bytes → NomRes A

-- nom 7, the `complete` parsers. `map_res`'s function returns a `Result` whose error is dropped.
pub record Nom : Type 1 where
  pub take : ℕ → Parser Bytes
  pub tag : Bytes → Parser Bytes
  pub rest : Parser Bytes
  pub le_u8 : Parser ℕ
  pub le_u16 : Parser ℕ
  pub be_u16 : Parser ℕ
  pub le_u32 : Parser ℕ
  pub be_u32 : Parser ℕ
  pub map : {A B : Type 0} → Parser A → (A → B) → Parser B
  pub map_res : {A B : Type 0} → Parser A → (A → Option B) → Parser B
  pub map_parser : {A : Type 0} → Parser Bytes → Parser A → Parser A
  pub opt : {A : Type 0} → Parser A → Parser (Option A)
  pub alt : {A : Type 0} → List (Parser A) → Parser A
  pub many1 : {A : Type 0} → Parser A → Parser (List A)
  pub count : {A : Type 0} → Parser A → ℕ → Parser (List A)
  pub length_data : Parser ℕ → Parser Bytes

-- A flag set is the number of its bits. `from_bits_truncate all bits` drops what is not in `all`.
pub record Bitflags : Type 0 where
  pub from_bits_truncate : ℕ → ℕ → ℕ
  pub contains : ℕ → ℕ → Bool
  pub union : ℕ → ℕ → ℕ
  pub intersection : ℕ → ℕ → ℕ

-- The crate `time`. The constructors of a date, a time of day and an offset may refuse. The last
-- function is its `From<OffsetDateTime>` for the `SystemTime` of the standard library.
pub record TimeCrate : Type 1 where
  pub Month : Type 0
  pub Date : Type 0
  pub Time : Type 0
  pub UtcOffset : Type 0
  pub OffsetDateTime : Type 0
  pub SystemTime : Type 0
  pub january : Month
  pub utc : UtcOffset
  pub month_try_from : ℕ → Option Month
  pub from_calendar_date : ℤ → Month → ℕ → Option Date
  pub from_hms : ℕ → ℕ → ℕ → Option Time
  pub from_hms_milli : ℕ → ℕ → ℕ → ℕ → Option Time
  pub from_whole_seconds : ℤ → Option UtcOffset
  pub assume_offset : Date → Time → UtcOffset → OffsetDateTime
  pub into_system_time : OffsetDateTime → SystemTime

-- `Itertools::take_while_inclusive`: up to the first element that the test rejects, and that one.
pub record Itertools : Type 1 where
  pub take_while_inclusive : {A : Type 0} → (A → Bool) → List A → List A

-- Everything that a build of cdfs depends on. `utf_16be` gives the text and whether there were
-- errors. `assertions` and `big_endian` are features; `overflow_checks` is on in debug builds.
pub record Crates : Type 1 where
  pub nom : Nom
  pub bitflags : Bitflags
  pub itertools : Itertools
  pub utf_16be : Bytes → Str × Bool
  pub time : TimeCrate
  pub assertions : Bool
  pub big_endian : Bool
  pub overflow_checks : Bool
