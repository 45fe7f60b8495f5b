-- ===== src/Tests/Outcomes.antt =====
-- Two outcomes in JSON, whose values are numbered: the Booleans, an unchanged outcome, a deadman one,
-- their arm, their arms, and their texts.
use Prim.Native.Nat.{Ordering}
use waitprims.Prelude.{
  ℕ, String, ◌≡◌, ◌≢◌, refl, true, false, Option, none, some, [], ◌∷◌, ◌==◌, string_eq, ℕ_eq,
  if◌then◌else◌,
}
use waitprims.Core.Error.{ok}
use waitprims.Core.Rfc3339.{
  compare_texts, parse_instant, parse, parse_n_digits, parse_fraction, span_digits,
}
use waitprims.Core.Print.{format_utc}
use waitprims.Validate.{Json, outcome_normative}
use waitprims.Validate.Clean.{
  Accepted, QuietArm, CoveredArm, outcome_normative-no_change, outcome_normative-logical_deadman,
}
use waitprims.Tests.Clock.{chrono}

abbrev outcome_member : ℕ → ℕ → ℕ → String → Option ℕ
outcome_member kind completed logical name =
    if name == "outcome_kind"
    then some kind
    else if name == "completed_at"
    then some completed
    else if name == "logical_deadline"
    then some logical
    else if name == "coverage_complete"
    then some 1
    else if name == "arms"
    then some 4
    else none

abbrev arm_member : String → Option ℕ
arm_member name =
    if name == "required"
    then some 1
    else if name == "degraded"
    then some 0
    else if name == "status"
    then some 6
    else none

abbrev member : ℕ → String → Option ℕ
member v name =
    if v == 2
    then outcome_member 6 7 8 name
    else if v == 9
    then outcome_member 10 8 7 name
    else if v == 3
    then arm_member name
    else none

abbrev text : ℕ → Option String
text v =
    if v == 6
    then some "no_change"
    else if v == 7
    then some "noon"
    else if v == 8
    then some "later"
    else if v == 10
    then some "logical_deadman"
    else none

abbrev json : Json
json = record {
  Value = ℕ;
  get = member;
  as_str = text;
  as_array = λ v. if v == 4 then some (3 ∷ []) else none;
  as_bool = λ v. if v == 1 then some true else if v == 0 then some false else none;
  bool = λ b. if b then 1 else 0;
  value_eq = ℕ_eq;
}

accepts : (outcome_normative json chrono 2 ≡ ok tt) × (outcome_normative json chrono 9 ≡ ok tt)
unfolding outcome_normative compare_texts parse_instant parse format_utc parse_n_digits
    parse_fraction span_digits
accepts = (refl, refl)

outcome_normative-no_change_example :
    Accepted json chrono (QuietArm json) (λ rel. rel ≡ Ordering.lt) 2
outcome_normative-no_change_example = outcome_normative-no_change json chrono 2 refl (accepts.0)

outcome_normative-logical_deadman_example :
    Accepted json chrono (CoveredArm json) (λ rel. rel ≢ Ordering.lt) 9
outcome_normative-logical_deadman_example =
    outcome_normative-logical_deadman json chrono 9 refl (accepts.1)
