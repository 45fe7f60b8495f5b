-- ===== src/Tests/Covered.antt =====
-- A poll request and its outcome in JSON, whose values are numbered: 0 and 1 the Booleans, 2 the
-- request, 3 the outcome, 4 the one id, 5 the ids, 6 the arm, 7 the arms, 8 and 9 the types.
use waitprims.Prelude.{
  ℕ, String, ◌≡◌, refl, inl, inr, true, false, Option, none, some, [], ◌∷◌, ◌==◌, string_eq, ℕ_eq,
  if◌then◌else◌,
}
use waitprims.Core.Error.{ok}
use waitprims.Validate.{Json}
use waitprims.Validate.Coverage.{HasArm, coverage_cardinality, coverage_cardinality-HasArm}

abbrev outcome_member : String → Option ℕ
outcome_member name =
    if name == "message_type"
    then some 9
    else if name == "coverage_complete"
    then some 1
    else if name == "arms"
    then some 7
    else none

abbrev request_member : String → Option ℕ
request_member name =
    if name == "message_type" then some 8 else if name == "required_arms" then some 5 else none

abbrev member : ℕ → String → Option ℕ
member v name =
    if v == 2
    then request_member name
    else if v == 3
    then outcome_member name
    else if v == 6
    then if name == "arm_id" then some 4 else none
    else none

abbrev text : ℕ → Option String
text v =
    if v == 4
    then some "inbox"
    else if v == 8
    then some "poll_cycle_request"
    else if v == 9
    then some "poll_cycle_outcome"
    else none

abbrev json : Json
json = record {
  Value = ℕ;
  get = member;
  as_str = text;
  as_array = λ v. if v == 5 then some (4 ∷ []) else if v == 7 then some (6 ∷ []) else none;
  as_bool = λ v. if v == 1 then some true else if v == 0 then some false else none;
  bool = λ b. if b then 1 else 0;
  value_eq = ℕ_eq;
}

accepts : coverage_cardinality json (2 ∷ 3 ∷ []) ≡ ok tt
unfolding coverage_cardinality
accepts = refl

coverage_cardinality-HasArm_example : HasArm json 3 "inbox"
coverage_cardinality-HasArm_example =
    coverage_cardinality-HasArm json (2 ∷ 3 ∷ []) 3 2 4 (4 ∷ []) "inbox" accepts (inr (inl refl))
      refl refl (inl refl) refl refl (inl refl) refl
