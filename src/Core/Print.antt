-- ===== src/Core/Print.antt =====
-- format_utc of crates/waitprims-core/src/rfc3339.rs, over the parts of an instant in UTC.
use Prim.Native.Nat.{◌/◌}
use waitprims.Prelude.{ℕ, ◌+◌, ◌%◌, List, [], ◌∷◌, ◌++◌, ◌==◌, ℕ_eq, if◌then◌else◌}

-- The parts of an instant in UTC, the year from 0 on.
pub record Parts : Type 0 where
  pub year : ℕ
  pub month : ℕ
  pub day : ℕ
  pub hour : ℕ
  pub minute : ℕ
  pub second : ℕ
  pub nanosecond : ℕ

-- The digits of `{:02}`, of `{:04}` and of `{:06}`.
abbrev pub digit : ℕ → ℕ
digit n = 48 + n % 10

abbrev pub two : ℕ → List ℕ
two n = digit (n / 10) ∷ digit n ∷ []

abbrev pub four : ℕ → List ℕ
four n = digit (n / 1000) ∷ digit (n / 100) ∷ digit (n / 10) ∷ digit n ∷ []

abbrev pub six : ℕ → List ℕ
six n =
    digit (n / 100_000)
    ∷ digit (n / 10_000)
    ∷ digit (n / 1000)
    ∷ digit (n / 100)
    ∷ digit (n / 10)
    ∷ digit n
    ∷ []

-- format_utc, of the parts of an instant; the years of the `time` crate have four digits.
unfoldable pub format_utc : Parts → List ℕ
format_utc p =
    four p.year
    ++ 45 ∷ two p.month
    ++ 45 ∷ two p.day
    ++ 84 ∷ two p.hour
    ++ 58 ∷ two p.minute
    ++ 58 ∷ two p.second
    ++ (if p.nanosecond == 0 then 90 ∷ [] else 46 ∷ six (p.nanosecond / 1000) ++ 90 ∷ [])
