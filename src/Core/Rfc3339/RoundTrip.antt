-- ===== src/Core/Rfc3339/RoundTrip.antt =====
-- crates/waitprims-core/src/rfc3339.rs: what the parser makes of what the printer writes.
use Prim.Native.Nat.{◌/◌, compare}
use native.Mathlib.Omega.{arith}
use waitprims.Prelude.{
  ℕ, String, ◌*◌, ◌<◌, ◌≡◌, refl, ap, ◌∙◌, Bool, true, false, ◌&&◌, ◌||◌, some, List, [], ◌∷◌, ◌++◌,
  length, ltb, ◌==◌, ℕ_eq, if◌then◌else◌, Bool-cases, inl, inr,
}
use waitprims.Core.Error.{ok}
use waitprims.Core.Print.{Parts, digit, two, four, six, format_utc}
use waitprims.Core.Rfc3339.{
  compare_texts, parse, read_as, Chrono, is_digit, digits_from, parse_n_digits, span_digits, padded,
  parse_fraction, parse_offset, parse_instant,
}

is_digit-digit : (n : ℕ) → is_digit (digit n) ≡ true
is_digit-digit n = ground arith

parse-two : (n : ℕ) → n < 100 → parse_n_digits (two n) 2 ≡ some n
unfolding parse_n_digits
parse-two n h = rw (is_digit-digit (n / 10), is_digit-digit n) (ap some (omega (arith, h)))

parse-four : (n : ℕ) → n < 10_000 → parse_n_digits (four n) 4 ≡ some n
unfolding parse_n_digits
parse-four n h =
    rw
      (
        is_digit-digit (n / 1000),
        is_digit-digit (n / 100),
        is_digit-digit (n / 10),
        is_digit-digit n,
      )
      (ap some (omega (arith, h)))

span-six : (n : ℕ) → span_digits (six n ++ 90 ∷ []) ≡ (six n, 90 ∷ [])
unfolding span_digits
span-six n =
    rw
      (
        is_digit-digit (n / 100_000),
        is_digit-digit (n / 10_000),
        is_digit-digit (n / 1000),
        is_digit-digit (n / 100),
        is_digit-digit (n / 10),
        is_digit-digit n,
      )
      refl

digits-six : (n : ℕ) → n < 1_000_000 → digits_from 0 (padded (six n)) ≡ n
digits-six n h = omega (arith, h)

parse-six :
    (n : ℕ) → n < 1_000_000 → parse_fraction (46 ∷ six n ++ 90 ∷ []) ≡ some (n * 1000, 90 ∷ [])
unfolding parse_fraction
parse-six n h = rw (span-six n) (rw (digits-six n h) refl)

-- The fraction and the `Z` of a printed text.
abbrev tail_of : ℕ → List ℕ
tail_of ns = if ns == 0 then 90 ∷ [] else 46 ∷ six (ns / 1000) ++ 90 ∷ []

parse-tail :
    (ns : ℕ) → ns < 1_000_000_000 → parse_fraction (tail_of ns) ≡ some (ns / 1000 * 1000, 90 ∷ [])
unfolding parse_fraction
parse-tail ns h = elim (Bool-cases (ns == 0)) [
  | inl z ↦ rw (z, (ℕ_eq.decides ns 0).0 z) refl
  | inr z ↦ rw z (parse-six (ns / 1000) (omega (arith, h)))
]

-- The parts of a date and a time, in their ranges.
pub record InRange (p : Parts) : Type 0 where
  pub year_below : p.year < 10_000
  pub month_below : p.month < 13
  pub day_below : p.day < 32
  pub hour_below : p.hour < 24
  pub minute_below : p.minute < 60
  pub second_below : p.second < 60
  pub nanosecond_below : p.nanosecond < 1_000_000_000

-- A text without whitespace and control characters is its own `trim`.
abbrev pub is_graphic : ℕ → Bool
is_graphic b = ltb 32 b && ltb b 127

long_enough : (p : Parts) → ltb (length (format_utc p)) 20 ≡ false
unfolding format_utc
long_enough p = elim (Bool-cases (p.nanosecond == 0)) [ inl z ↦ rw z refl | inr z ↦ rw z refl ]

in_day : (h m : ℕ) → h < 24 → m < 60 → (ltb 23 h || ltb 59 m) ≡ false
in_day h m a b = ground arith

no_leap : (s : ℕ) → s < 60 → ((s == 60) ≡ false) × (ltb 60 s ≡ false)
no_leap s h = ground arith

module _ (chrono : Chrono) where
  -- The date and the time are those that the parts name, the fraction cut to microseconds.
  pub record Names (p : Parts) (instant : ℕ) : Type 0 where
    pub date : chrono.Date
    pub time : chrono.Time
    pub date_named : chrono.from_calendar_date p.year p.month p.day ≡ some date
    pub time_named :
        chrono.from_hms_nano p.hour p.minute p.second (p.nanosecond / 1000 * 1000) ≡ some time
    pub instant_named : chrono.instant_of date time chrono.utc ≡ instant

  -- A printed instant is read back as the instant that its parts name, whose fraction is cut to
  -- microseconds, where the parts are in their ranges and the text is its own `trim`.
  pub parse_instant-format_utc :
      (p : Parts) (instant : ℕ)
      → InRange p
      → chrono.is_trimmed (format_utc p) ≡ true
      → Names p instant
      → parse_instant chrono (format_utc p) ≡ some instant
  unfolding parse_instant format_utc parse_offset
  parse_instant-format_utc p instant r t n =
      rw (t, long_enough p)
        (rw (parse-four p.year r.year_below, parse-two p.month (omega (arith, r.month_below)))
          (rw
            (
              parse-two p.day (omega (arith, r.day_below)),
              parse-two p.hour (omega (arith, r.hour_below)),
              parse-two p.minute (omega (arith, r.minute_below)),
              parse-two p.second (omega (arith, r.second_below)),
            )
            (rw
              (
                in_day p.hour p.minute r.hour_below r.minute_below,
                (no_leap p.second r.second_below).0,
                (no_leap p.second r.second_below).1,
                parse-tail p.nanosecond r.nanosecond_below,
                n.date_named,
                n.time_named,
                n.instant_named,
              )
              refl)))

  parse-format_utc :
      (p : Parts) (a : String) (i : ℕ)
      → InRange p
      → chrono.as_bytes a ≡ format_utc p
      → chrono.is_trimmed (format_utc p) ≡ true
      → Names p i
      → parse chrono a ≡ ok (record { raw = a; instant = i })
  unfolding parse
  parse-format_utc p a i r e t n =
      ap (read_as a) (ap (parse_instant chrono) e ∙ parse_instant-format_utc p i r t n)

  -- The order of two printed texts, whatever strings have those bytes, is that of the instants that
  -- their parts name, where the parts of both are in their ranges and both texts are their own
  -- `trim`.
  pub compare_texts-format_utc :
      (p q : Parts) (a b : String) (i j : ℕ)
      → InRange p × InRange q
      → (chrono.as_bytes a ≡ format_utc p) × (chrono.as_bytes b ≡ format_utc q)
      → (chrono.is_trimmed (format_utc p) ≡ true) × (chrono.is_trimmed (format_utc q) ≡ true)
      → Names p i × Names q j
      → compare_texts chrono a b ≡ ok (compare i j)
  unfolding compare_texts
  compare_texts-format_utc p q a b i j r e t n =
      rw (parse-format_utc p a i r.0 e.0 t.0 n.0, parse-format_utc q b j r.1 e.1 t.1 n.1) refl
