-- ===== src/Core/Rfc3339.antt =====
-- crates/waitprims-core/src/rfc3339.rs: the RFC 3339 profile, over the bytes of a text. The dates,
-- times and offsets of the `time` crate and `str::trim` are parameters.
pub mod RoundTrip
use Prim.Native.Nat.{◌/◌, compare, Ordering}
use waitprims.Prelude.{
  ℕ, String, zero, suc, ◌+◌, ◌-◌, ◌*◌, ◌%◌, ◌≤◌, ◌<◌, ◌≡◌, Bool, true, false, not, ◌&&◌, ◌||◌,
  Option, none, some, List, [], ◌∷◌, ◌++◌, length, get_elem?, all, ltb, leb, ◌==◌, ℕ_eq,
  if◌then◌else◌,
}
use waitprims.Core.Error.{Result, ok, err, validation, normative, unparseable_timestamp}
use waitprims.Core.Error
use waitprims.Core.Time.{Timestamp}

-- What the parser and the printer use of the `time` crate and of std.
pub record Chrono : Type 1 where
  pub Date : Type 0
  pub Time : Type 0
  pub Offset : Type 0
  -- str::as_bytes, and whether a text is its own `trim`.
  pub as_bytes : String → List ℕ
  pub is_trimmed : List ℕ → Bool
  -- Month::try_from and Date::from_calendar_date; Time::from_hms_nano; UtcOffset::from_hms of a sign,
  -- hours and minutes; UtcOffset::UTC.
  pub from_calendar_date : ℕ → ℕ → ℕ → Option Date
  pub from_hms_nano : ℕ → ℕ → ℕ → ℕ → Option Time
  pub from_hms : Bool → ℕ → ℕ → Option Offset
  pub utc : Offset
  -- PrimitiveDateTime::new, assume_offset and to_offset, as the instant in nanoseconds.
  pub instant_of : Date → Time → Offset → ℕ

infixl 5 ◌>>=◌ ◌>>◌
abbrev pub ◌>>=◌ : {A B : Type 0} → Option A → (A → Option B) → Option B
none >>= f = none
some a >>= f = f a

abbrev pub ◌>>◌ : {A B : Type 0} → Option A → Option B → Option B
m >> k = m >>= λ _. k

abbrev pub check : Bool → Option (Unit {0})
check true = some tt
check false = none

abbrev pub drop : ℕ → List ℕ → List ℕ
drop zero bs = bs
drop (suc n) [] = []
drop (suc n) (b ∷ bs) = drop n bs

abbrev pub take : ℕ → List ℕ → List ℕ
take zero bs = []
take (suc n) [] = []
take (suc n) (b ∷ bs) = b ∷ take n bs

abbrev pub is_digit : ℕ → Bool
is_digit b = leb 48 b && leb b 57

abbrev pub digits_from : ℕ → List ℕ → ℕ
digits_from value [] = value
digits_from value (b ∷ bs) = digits_from (value * 10 + (b - 48)) bs

unfoldable pub parse_n_digits : List ℕ → ℕ → Option ℕ
parse_n_digits slice n =
    if not (length slice == n) || not (all is_digit slice) then none else some (digits_from 0 slice)

abbrev pub is_byte : Option ℕ → ℕ → Bool
is_byte none want = false
is_byte (some b) want = b == want

-- expect
abbrev pub expect : List ℕ → ℕ → ℕ → Option (Unit {0})
expect bytes idx want = check (is_byte (get_elem? bytes idx) want)

abbrev pub is_either : Option ℕ → ℕ → ℕ → Bool
is_either o a b = is_byte o a || is_byte o b

-- The digits at the start, and the rest.
abbrev push_digit : ℕ → List ℕ × List ℕ → List ℕ × List ℕ
push_digit b (ds, rest) = (b ∷ ds, rest)

unfoldable pub span_digits : List ℕ → List ℕ × List ℕ
span_digits [] = ([], [])
span_digits (b ∷ bs) =
    let more = span_digits bs in if is_digit b then push_digit b more else ([], b ∷ bs)

abbrev pub zeros : List ℕ
zeros = 48 ∷ 48 ∷ 48 ∷ 48 ∷ 48 ∷ 48 ∷ []

-- Padded and truncated to six digits.
abbrev pub padded : List ℕ → List ℕ
padded ds = take 6 (ds ++ zeros)

-- The fraction, in nanoseconds, and the rest.
abbrev fraction_of : List ℕ × List ℕ → Option (ℕ × List ℕ)
fraction_of ([], rest) = none
fraction_of (d ∷ ds, rest) = some (digits_from 0 (padded (d ∷ ds)) * 1000, rest)

unfoldable pub parse_fraction : List ℕ → Option (ℕ × List ℕ)
parse_fraction [] = some (0, [])
parse_fraction (b ∷ bs) = if b == 46 then fraction_of (span_digits bs) else some (0, b ∷ bs)

abbrev pub read_as : String → Option ℕ → Result Timestamp
read_as text none =
    err (validation (normative "/timestamp" "rfc3339_profile" unparseable_timestamp))
read_as text (some instant) = ok (record { raw = text; instant = instant })

module _ (chrono : Chrono) where
  parse_numeric : Bool → List ℕ → Option chrono.Offset
  parse_numeric sign bytes = do
    check (length bytes == 5)
    off_h ← parse_n_digits (take 2 bytes) 2
    expect bytes 2 58
    off_m ← parse_n_digits (take 2 (drop 3 bytes)) 2
    check (not (ltb 23 off_h || ltb 59 off_m))
    chrono.from_hms sign off_h off_m

  abbrev is_end : List ℕ → Option chrono.Offset
  is_end [] = some chrono.utc
  is_end (b ∷ bs) = none

  -- `Z`, or a colon-separated offset; a text without either has no end.
  unfoldable pub parse_offset : List ℕ → Option chrono.Offset
  unfolding parse_numeric
  parse_offset [] = none
  parse_offset (b ∷ bs) =
      if b == 90 || b == 122
      then is_end bs
      else if b == 43 || b == 45
      then parse_numeric (b == 43) bs
      else none

  unfoldable pub parse_instant : List ℕ → Option ℕ
  unfolding parse_offset
  parse_instant bytes = do
    check (chrono.is_trimmed bytes && not (ltb (length bytes) 20))
    year ← parse_n_digits (take 4 bytes) 4
    expect bytes 4 45
    month ← parse_n_digits (take 2 (drop 5 bytes)) 2
    expect bytes 7 45
    day ← parse_n_digits (take 2 (drop 8 bytes)) 2
    check (is_either (get_elem? bytes 10) 84 116)
    hour ← parse_n_digits (take 2 (drop 11 bytes)) 2
    expect bytes 13 58
    minute ← parse_n_digits (take 2 (drop 14 bytes)) 2
    expect bytes 16 58
    second ← parse_n_digits (take 2 (drop 17 bytes)) 2
    check (not (ltb 23 hour || ltb 59 minute))
    check (not (second == 60))
    check (not (ltb 60 second))
    fraction ← parse_fraction (drop 19 bytes)
    offset ← parse_offset fraction.1
    date ← chrono.from_calendar_date year month day
    time ← chrono.from_hms_nano hour minute second fraction.0
    some (chrono.instant_of date time offset)

  -- Timestamp::parse
  unfoldable pub parse : String → Result Timestamp
  parse text = read_as text (parse_instant (chrono.as_bytes text))

  -- compare, of two texts: the order of their instants, or the first error.
  unfoldable pub compare_texts : String → String → Result Ordering
  compare_texts left right =
      Error.◌>>=◌ (parse left) λ l. Error.◌>>=◌ (parse right) λ r. ok (compare l.instant r.instant)
