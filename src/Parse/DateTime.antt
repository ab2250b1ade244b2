-- ===== src/Parse/DateTime.antt =====
-- cdfs/src/parse/date_time.rs: the recording date in 7 bytes, and the 17 byte date in digits.
use iso9660_rs.Prelude.{ℕ, ◌+◌, ◌*◌, Option, none, some, [], ◌∷◌, ℤ, pos, ◌+ℤ◌}
use iso9660_rs.Outcome.{Result, ok, ◌>>=◌, unwrap}
use iso9660_rs.Crates.{Crates, Parser}
use iso9660_rs.Machine.{fit, wrap}
use iso9660_rs.Text.{from_utf8, i32_from_str}
use iso9660_rs.Parse.Encoding.{value}
use mathlib.Core.Option.{get_or}

module _ (c : Crates) where
  -- `Date::from_calendar_date(0, January, 1).unwrap()` and `Time::from_hms(0, 0, 0).unwrap()`.
  unfoldable pub date_or_default : {E : Type 0} → Option c.time.Date → Result E c.time.Date
  date_or_default (some d) = ok d
  date_or_default none = unwrap (c.time.from_calendar_date (pos 0) c.time.january 1)

  unfoldable pub time_or_default : {E : Type 0} → Option c.time.Time → Result E c.time.Time
  time_or_default (some t) = ok t
  time_or_default none = unwrap (c.time.from_hms 0 0 0)

  -- `gmt_offset` counts quarters of an hour, as an unsigned byte.
  unfoldable pub offset_of : ℕ → c.time.UtcOffset
  offset_of gmt_offset = get_or (c.time.from_whole_seconds (pos (gmt_offset * 15 * 60))) c.time.utc

  unfoldable pub date_time : Parser c.time.OffsetDateTime
  date_time i = do
    (i, year) ← c.nom.le_u8 i
    (i, month) ← c.nom.le_u8 i
    (i, day) ← c.nom.le_u8 i
    (i, hour) ← c.nom.le_u8 i
    (i, minute) ← c.nom.le_u8 i
    (i, second) ← c.nom.le_u8 i
    (i, gmt_offset) ← c.nom.le_u8 i
    date ← date_or_default (
        c.time.from_calendar_date (pos (1900 + year))
          (get_or (c.time.month_try_from month) c.time.january) day)
    time ← time_or_default (c.time.from_hms hour minute second)
    ok (i, c.time.assume_offset date time (offset_of gmt_offset))

  unfoldable pub ascii_i32 : ℕ → Parser ℤ
  ascii_i32 n = c.nom.alt (
      c.nom.map_res (c.nom.map_res (c.nom.take n) from_utf8) i32_from_str
      ∷ value c (pos 0) (c.nom.count (c.nom.tag (0 ∷ [])) n)
      ∷ [])

  -- `1900 + tm_year` stays far inside `i32`, as the field has at most four characters.
  unfoldable pub date_time_ascii : Parser c.time.OffsetDateTime
  date_time_ascii i = do
    (i, tm_year) ← ascii_i32 4 i
    (i, tm_mon) ← ascii_i32 2 i
    (i, tm_mday) ← ascii_i32 2 i
    (i, tm_hour) ← ascii_i32 2 i
    (i, tm_min) ← ascii_i32 2 i
    (i, tm_sec) ← ascii_i32 2 i
    (i, centisecond) ← ascii_i32 2 i
    (i, gmt_offset) ← c.nom.le_u8 i
    date ← date_or_default (
        c.time.from_calendar_date (pos 1900 +ℤ tm_year)
          (get_or (c.time.month_try_from (wrap 256 tm_mon)) c.time.january) (wrap 256 tm_mday))
    hundredths ← fit c 65536 (wrap 65536 centisecond * 10)
    time ←
        time_or_default
          (c.time.from_hms_milli (wrap 256 tm_hour) (wrap 256 tm_min) (wrap 256 tm_sec) hundredths)
    ok (i, c.time.assume_offset date time (offset_of gmt_offset))
