-- ===== src/Tests/Clock.antt =====
-- Two instants of one day, and a calendar that counts in mixed radix.
use waitprims.Prelude.{
  ℕ, ◌+◌, ◌-◌, ◌*◌, ◌≡◌, ◌≢◌, none, refl, true, some, all, arith, ◌==◌, string_eq, if◌then◌else◌,
}
use Prim.Native.Nat.{compare}
use waitprims.Core.Error.{ok}
use waitprims.Core.Print.{Parts, format_utc}
use waitprims.Core.Time.{
  ℤ, saturating_add, duration_until, as_secs, subsec_nanos, saturating_add-duration_until,
}
use waitprims.Core.Rfc3339.{Chrono, parse_instant, compare_texts}
use waitprims.Core.Rfc3339.RoundTrip.{
  InRange, Names, is_graphic, parse_instant-format_utc, compare_texts-format_utc,
}
use waitprims.Tests.Data.{at_time, calendar}

abbrev noon : Parts
noon = record {
  year = 2026;
  month = 8;
  day = 15;
  hour = 12;
  minute = 0;
  second = 5;
  nanosecond = 123_456_789;
}

abbrev later : Parts
later = record noon { second = 6; nanosecond = 0 }

abbrev day_count : ℕ → ℕ → ℕ → ℕ
day_count y m d = (y * 13 + m) * 32 + d

abbrev time_count : ℕ → ℕ → ℕ → ℕ → ℕ
time_count h m s ns = ((h * 60 + m) * 60 + s) * 1_000_000_000 + ns

abbrev pub chrono : Chrono
chrono = record {
  Date = ℕ;
  Time = ℕ;
  Offset = ℕ;
  as_bytes = λ text. if text == "noon" then format_utc noon else format_utc later;
  is_trimmed = all is_graphic;
  from_calendar_date = λ y m d. some (day_count y m d);
  from_hms_nano = λ h m s ns. some (time_count h m s ns);
  from_hms = λ sign h m. some 0;
  utc = 0;
  instant_of = λ date time offset. date * 86_400_000_000_000 + time;
}

in_range : InRange noon
in_range = omega arith

later_ranged : InRange later
later_ranged = omega arith

trimmed :
    (chrono.is_trimmed (format_utc noon) ≡ true) × (chrono.is_trimmed (format_utc later) ≡ true)
unfolding format_utc
trimmed = (refl, refl)

abbrev noon_instant : ℕ
noon_instant = day_count 2026 8 15 * 86_400_000_000_000 + time_count 12 0 5 123_456_000

abbrev later_instant : ℕ
later_instant = day_count 2026 8 15 * 86_400_000_000_000 + time_count 12 0 6 0

named : Names chrono noon noon_instant
named = record {
  date = day_count 2026 8 15;
  time = time_count 12 0 5 123_456_000;
  date_named = refl;
  time_named = refl;
  instant_named = refl;
}

later_named : Names chrono later later_instant
later_named = record {
  date = day_count 2026 8 15;
  time = time_count 12 0 6 0;
  date_named = refl;
  time_named = refl;
  instant_named = refl;
}

parse_instant-format_utc_example : parse_instant chrono (format_utc noon) ≡ some noon_instant
parse_instant-format_utc_example =
    parse_instant-format_utc chrono noon noon_instant in_range trimmed.0 named

compare_texts-format_utc_example :
    compare_texts chrono "noon" "later" ≡ ok (compare noon_instant later_instant)
compare_texts-format_utc_example =
    compare_texts-format_utc chrono noon later "noon" "later" noon_instant later_instant
      (in_range, later_ranged) (refl, refl) trimmed (named, later_named)

fits :
    calendar.checked_add 5
      (ℤ.pos (as_secs (3_000_000_009 - 5)))
      (ℤ.pos (subsec_nanos (3_000_000_009 - 5)))
    ≢ none
fits h = cc

saturating_add-duration_until_example :
    (saturating_add calendar
      (at_time 5)
      (duration_until calendar (at_time 5) (at_time 3_000_000_009))).instant
    ≡ 3_000_000_009
saturating_add-duration_until_example =
    saturating_add-duration_until calendar (at_time 5) (at_time 3_000_000_009) (omega arith) fits
