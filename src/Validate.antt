-- ===== src/Validate.antt =====
-- crates/waitprims-core/src/validate.rs: the rules on an outcome. The JSON values of serde_json are
-- a parameter.
mod Guards
pub mod Clean
pub mod Coverage
use Prim.Native.Nat.{Ordering}
use waitprims.Prelude.{
  ℕ, String, ◌+◌, ltb, nat_eq, Bool, true, false, not, ◌&&◌, ◌||◌, Option, none, some, List, length,
  keep, Eq, ◌==◌, string_eq, if◌then◌else◌,
}
use waitprims.Core.Error.{
  Result, ok, err, validation, invalid, normative, NormativeReason, no_change_invariants,
  deadman_invariants, outage_not_clean,
}
use waitprims.Core.Error
use waitprims.Core.Rfc3339.{Chrono, compare_texts}
use waitprims.Core.Rfc3339

-- What the rules use of serde_json's Value.
pub record Json : Type 1 where
  pub Value : Type 0
  -- Value::get of a name, as_str, as_array and as_bool.
  pub get : Value → String → Option Value
  pub as_str : Value → Option String
  pub as_array : Value → Option (List Value)
  pub as_bool : Value → Option Bool
  -- Value::Bool, and the equality of values.
  pub bool : Bool → Value
  pub value_eq : Eq Value

abbrev pub unwrap_or : {A : Type 0} → A → Option A → A
unwrap_or d none = d
unwrap_or d (some a) = a

abbrev pub ok_or : {A : Type 0} → Error.Error → Option A → Result A
ok_or e none = err e
ok_or e (some a) = ok a

abbrev pub is_lt : Ordering → Bool
is_lt rel = elim rel [ Ordering.lt ↦ true | _ ↦ false ]

abbrev pub is_true : Option Bool → Bool
is_true none = false
is_true (some b) = b

-- What the required arms of an outcome show.
pub record Shown : Type 0 where
  pub dirty : ℕ
  pub req_no_change : Bool
  pub req_complete : Bool

module _ (json : Json) where
  abbrev pub field_is : json.Value → String → Bool → Bool
  field_is v name b = elim (json.get v name) [
    | none ↦ false
    | some x ↦ json.value_eq.test x (json.bool b)
  ]

  abbrev pub string_at : json.Value → String → Option String
  string_at v name = Rfc3339.◌>>=◌ (json.get v name) json.as_str

  abbrev pub string_field : json.Value → String → String → Result String
  string_field document path name =
      ok_or (validation (invalid path "required")) (string_at document name)

  -- `arm.get("status").and_then(Value::as_str).unwrap_or("")`
  abbrev pub status : json.Value → String
  status arm = unwrap_or "" (string_at arm "status")

  abbrev pub is_required : json.Value → Bool
  is_required arm = field_is arm "required" true

  abbrev pub is_dirty : json.Value → Bool
  is_dirty arm =
      status arm == "outage" || status arm == "cursor_uncertain" || field_is arm "degraded" true

  -- `== Some("no_change")` of the status, which the empty default does not meet.
  abbrev pub is_no_change : json.Value → Bool
  is_no_change arm = status arm == "no_change" && field_is arm "degraded" false

  abbrev pub is_complete : json.Value → Bool
  is_complete arm =
      field_is arm "degraded" false
      && not (status arm == "outage")
      && not (status arm == "cursor_uncertain")

  abbrev pub every : (json.Value → Bool) → List json.Value → Bool
  every p required =
      not (nat_eq (length required) 0) && nat_eq (length required) (length (keep p required))

  abbrev pub show : Option (List json.Value) → Shown
  show none = record { dirty = 0; req_no_change = false; req_complete = false }
  show (some arms) =
      let required = keep is_required arms in
      record {
        dirty = length (keep is_dirty required);
        req_no_change = every is_no_change required;
        req_complete = every is_complete required;
      }

  abbrev pub array_at : json.Value → String → Option (List json.Value)
  array_at v name = Rfc3339.◌>>=◌ (json.get v name) json.as_array

  abbrev pub shown : json.Value → Shown
  shown document = show (array_at document "arms")

  abbrev pub outcome_kind : json.Value → String
  outcome_kind document = unwrap_or "" (string_at document "outcome_kind")

  abbrev pub events_n : json.Value → ℕ
  events_n document =
      unwrap_or 0 (elim (array_at document "events") [ none ↦ none | some es ↦ some (length es) ])

  abbrev pub complete : json.Value → Option Bool
  complete document = Rfc3339.◌>>=◌ (json.get document "coverage_complete") json.as_bool

  module _ (chrono : Chrono) where
    -- The two blocks on a clean kind, which differ in the reason and in what they ask of the arms and
    -- of the order of the instants.
    abbrev pub clean_rule :
        String
        → NormativeReason
        → Bool
        → (Ordering → Bool)
        → json.Value
        → String
        → Result (Unit {0})
    clean_rule constraint reason arms_clean in_time document completed =
        Error.◌>>=◌
          (ok_or (validation (normative "/logical_deadline" "required" reason))
            (string_at document "logical_deadline"))
          λ logical. Error.◌>>=◌ (compare_texts chrono completed logical) λ rel.
            if not (nat_eq (events_n document) 0)
              || not (is_true (complete document))
              || not arms_clean
              || not (in_time rel)
            then err (validation (normative "/outcome_kind" constraint reason))
            else ok tt

    -- A required arm is not clean, and the kind says that all are.
    abbrev pub is_unclean : json.Value → Bool
    is_unclean document =
        let kind = outcome_kind document in
        ltb 0 (shown document).dirty && (kind == "no_change" || kind == "logical_deadman")

    abbrev pub no_change_rule : json.Value → String → Result (Unit {0})
    no_change_rule document completed =
        if outcome_kind document == "no_change"
        then clean_rule "no_change_invariants" no_change_invariants (shown document).req_no_change
            is_lt document completed
        else ok tt

    abbrev pub deadman_rule : json.Value → String → Result (Unit {0})
    deadman_rule document completed =
        if outcome_kind document == "logical_deadman"
        then clean_rule "deadman_invariants" deadman_invariants (shown document).req_complete
            (λ rel. not (is_lt rel)) document completed
        else ok tt

    unfoldable pub outcome_normative : json.Value → Result (Unit {0})
    outcome_normative document =
        Error.◌>>=◌ (string_field document "/completed_at" "completed_at") λ completed.
          if is_unclean document
          then err
              (validation (normative "/outcome_kind" "required_arm_not_clean" outage_not_clean))
          else Error.◌>>=◌ (no_change_rule document completed) λ _. deadman_rule document completed
