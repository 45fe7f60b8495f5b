-- ===== src/Core/Error.antt =====
-- crates/waitprims-core/src/error.rs, and the `?` operator on its `Result`. The JCS error is
-- carried as its name.
use waitprims.Prelude.{String, Option, none, some}

pub data NormativeReason : Type 0 where
  deadline_ordering registration_digest_mismatch no_change_invariants : NormativeReason
  deadman_invariants outage_not_clean coverage_cardinality cross_arm_commit : NormativeReason
  ack_past_unretained fairness_starvation silent_cursor_advance revision_cross : NormativeReason
  authn_required lease_reauth registration_bound aggregate_bound : NormativeReason
  unparseable_timestamp : NormativeReason

pub record ValidationError : Type 0 where
  pub path : String
  pub constraint : String
  pub reason : Option NormativeReason

-- ValidationError::new
abbrev pub invalid : String → String → ValidationError
invalid path constraint = record { path = path; constraint = constraint; reason = none }

-- ValidationError::normative
abbrev pub normative : String → String → NormativeReason → ValidationError
normative path constraint reason = record {
  path = path;
  constraint = constraint;
  reason = some reason;
}

pub data Error : Type 0 where
  contract : String → String → Error
  validation : ValidationError → Error
  jcs : String → Error
  malformed_json : Error

pub data Result {ℓ} (T : Type ℓ) : Type ℓ where
  err : Error → Result T
  ok : T → Result T

infixl 5 ◌>>=◌
abbrev pub ◌>>=◌ {ℓ κ} : {T : Type ℓ} {U : Type κ} → Result T → (T → Result U) → Result U
err problem >>= next = err problem
ok value >>= next = next value
