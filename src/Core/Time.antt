-- ===== src/Core/Time.antt =====
-- `Timestamp` of crates/waitprims-core/src/rfc3339.rs: equality and order go by the instant, and
-- the wire spelling is kept beside it. An instant is counted in nanoseconds from the earliest one
-- that the `time` crate represents. What that crate does for a sum is a parameter.
use Prim.Native.Nat.{◌/◌, max}
use waitprims.Prelude.{
  ℕ, ◌+◌, ◌-◌, ◌*◌, ◌%◌, ◌≤◌, ◌<◌, ◌≡◌, ◌⊎◌, inl, inr, refl, Bool, String, Option, none, some, List,
  arith, ltb, leb, if◌then◌else◌, if_both, ◌≢◌,
}
use waitprims.Core.Print.{Parts, format_utc}

pub record Timestamp : Type 0 where
  pub raw : String
  pub instant : ℕ

infix 50 ◌≥ᵗ◌ ◌>ᵗ◌ ◌<ᵗ◌
-- PartialOrd for Timestamp
abbrev pub ◌≥ᵗ◌ : Timestamp → Timestamp → Bool
a ≥ᵗ b = leb b.instant a.instant

abbrev pub ◌>ᵗ◌ : Timestamp → Timestamp → Bool
a >ᵗ b = ltb b.instant a.instant

abbrev pub ◌<ᵗ◌ : Timestamp → Timestamp → Bool
a <ᵗ b = ltb a.instant b.instant

-- The signed numbers of the `time` crate.
pub data ℤ : Type 0 where
  pos negsuc : ℕ → ℤ

abbrev nanos_per_sec : ℕ
nanos_per_sec = 1_000_000_000

-- The casts of a u64 to an i64 and of a u32 to an i32, which wrap.
unfoldable pub as_i64 : ℕ → ℤ
as_i64 n =
    if ltb n 9_223_372_036_854_775_808 then pos n else negsuc (18_446_744_073_709_551_615 - n)

unfoldable pub as_i32 : ℕ → ℤ
as_i32 n = if ltb n 2_147_483_648 then pos n else negsuc (4_294_967_295 - n)

-- The cast back of a number that was clamped at 0.
abbrev clamped : ℤ → ℕ
clamped (pos n) = n
clamped (negsuc n) = 0

-- A std Duration is its count of nanoseconds: `Duration::new`, `as_secs`, `subsec_nanos`.
abbrev pub duration : ℕ → ℕ → ℕ
duration secs nanos = secs * nanos_per_sec + nanos

abbrev pub as_secs : ℕ → ℕ
as_secs d = d / nanos_per_sec

abbrev pub subsec_nanos : ℕ → ℕ
subsec_nanos d = d % nanos_per_sec

-- What a sum and a text in UTC use of the `time` crate and of std.
pub record Calendar : Type 0 where
  -- OffsetDateTime::checked_add of a signed Duration::new: the sum, where it can be represented.
  pub checked_add : ℕ → ℤ → ℤ → Option ℕ
  pub checked_add_exact :
      (t s n u : ℕ) → checked_add t (pos s) (pos n) ≡ some u → u ≡ t + duration s n
  -- The difference from a first instant to a second, and its parts: exact if it is not negative.
  pub whole_seconds : ℕ → ℕ → ℤ
  pub subsec_nanoseconds : ℕ → ℕ → ℤ
  pub difference_exact :
      (t u : ℕ)
      → t ≤ u
      → (whole_seconds t u ≡ pos (as_secs (u - t)))
        × (subsec_nanoseconds t u ≡ pos (subsec_nanos (u - t)))
  -- to_offset(UTC) with date() and time(); and a text of its bytes.
  pub to_utc : ℕ → Parts
  pub text : List ℕ → String

as_i64-pos : (n : ℕ) → n < 9_223_372_036_854_775_808 → as_i64 n ≡ pos n
unfolding as_i64
as_i64-pos n h = ground (arith, h)

as_i32-pos : (n : ℕ) → n < 2_147_483_648 → as_i32 n ≡ pos n
unfolding as_i32
as_i32-pos n h = ground (arith, h)

-- A duration that the casts keep.
abbrev pub IsShort : ℕ → Type 0
IsShort d = as_secs d < 9_223_372_036_854_775_808

duration-split : (d : ℕ) → duration (as_secs d) (subsec_nanos d) ≡ d
duration-split d = omega arith

module _ (calendar : Calendar) where
  -- Timestamp::duration_until
  unfoldable pub duration_until : Timestamp → Timestamp → ℕ
  duration_until t later =
      if leb later.instant t.instant
      then 0
      else duration (clamped (calendar.whole_seconds t.instant later.instant))
          (clamped (calendar.subsec_nanoseconds t.instant later.instant))

  abbrev moved : Timestamp → Option ℕ → Timestamp
  moved t (some u) = record { raw = calendar.text (format_utc (calendar.to_utc u)); instant = u }
  moved t none = t

  -- Timestamp::saturating_add
  unfoldable pub saturating_add : Timestamp → ℕ → Timestamp
  saturating_add t d =
      moved t (calendar.checked_add t.instant (as_i64 (as_secs d)) (as_i32 (subsec_nanos d)))

  -- The sum is the exact one, or it cannot be represented and the instant stays.
  pub saturating_add-cases :
      (t : Timestamp) (d : ℕ)
      → IsShort d
      → ((saturating_add t d).instant ≡ t.instant + d)
        ⊎ (((saturating_add t d).instant ≡ t.instant)
            × (calendar.checked_add t.instant (pos (as_secs d)) (pos (subsec_nanos d)) ≡ none))
  unfolding saturating_add
  saturating_add-cases t d h =
      rw (as_i64-pos (as_secs d) h, as_i32-pos (subsec_nanos d) (omega arith))
        (go (calendar.checked_add t.instant (pos (as_secs d)) (pos (subsec_nanos d))) refl)
    where
      go :
          (o : Option ℕ)
          → calendar.checked_add t.instant (pos (as_secs d)) (pos (subsec_nanos d)) ≡ o
          → ((moved t o).instant ≡ t.instant + d) ⊎ (((moved t o).instant ≡ t.instant) × (o ≡ none))
      go none e = inr (refl, refl)
      go (some u) e = inl (
          omega (
            arith,
            calendar.checked_add_exact t.instant (as_secs d) (subsec_nanos d) u e,
            duration-split d,
          ))

  pub saturating_add_bounds :
      (t : Timestamp) (d : ℕ)
      → IsShort d
      → (t.instant ≤ (saturating_add t d).instant) × ((saturating_add t d).instant ≤ t.instant + d)
  saturating_add_bounds t d h = elim (saturating_add-cases t d h) [
    | inl e ↦ omega (arith, e)
    | inr e ↦ omega (arith, e.0)
  ]

  duration_until-exact : (t later : Timestamp) → duration_until t later ≡ later.instant - t.instant
  unfolding duration_until
  duration_until-exact t later =
      if_both (λ d. d ≡ later.instant - t.instant) (leb later.instant t.instant)
        (λ h. ground (arith, h))
        (λ h.
          let (s, n) = calendar.difference_exact t.instant later.instant (ground (arith, h)) in
          rw (s, n) (duration-split (later.instant - t.instant)))

  -- The duration until another instant, where the casts keep it and the sum can be represented, leads
  -- to the later of the two.
  pub saturating_add-duration_until :
      (t later : Timestamp)
      → IsShort (later.instant - t.instant)
      → calendar.checked_add t.instant
          (pos (as_secs (later.instant - t.instant)))
          (pos (subsec_nanos (later.instant - t.instant)))
        ≢ none
      → (saturating_add t (duration_until t later)).instant ≡ max t.instant later.instant
  saturating_add-duration_until t later short fits =
      rw (duration_until-exact t later)
        (elim (saturating_add-cases t (later.instant - t.instant) short) [
          | inl e ↦ omega (arith, e)
          | inr e ↦ absurd (fits e.1)
        ])
