-- ===== src/Core/Types.antt =====
-- crates/waitprims-core/src/types.rs: the parts of messages and the frozen enumerations.
use waitprims.Prelude.{ℕ, Bool, true, false, String, Option, string_eq}
use waitprims.Core.Refs.{OpaqueRef, PredicateRef, IdToken}
use waitprims.Core.Time.{Timestamp}

pub data AnchorKind : Type 0 where
  provider_opaque : AnchorKind

pub record Anchor : Type 0 where
  pub kind : AnchorKind
  pub value : IdToken

pub data DigestAlgorithm : Type 0 where
  sha256 : DigestAlgorithm

pub data Canonicalization : Type 0 where
  rfc8785 : Canonicalization

pub record ContentDigest : Type 0 where
  pub algorithm : DigestAlgorithm
  pub value : String

pub record JcsDigest : Type 0 where
  pub canonicalization : Canonicalization
  pub algorithm : DigestAlgorithm
  pub value : String

pub record PayloadRef : Type 0 where
  pub payload_ref : OpaqueRef
  pub content_digest : ContentDigest
  pub media_type : Option String

pub record WaitBound : Type 0 where
  pub max_events : ℕ
  pub max_bytes : ℕ

pub record PollBound : Type 0 where
  pub max_events : Option ℕ
  pub max_payload_refs : Option ℕ
  pub max_bytes : Option ℕ

pub data ReplayStatus : Type 0 where
  fresh replay : ReplayStatus

pub record WaitEvent : Type 0 where
  pub event_id : IdToken
  pub registration_id : IdToken
  pub source_instance_ref : OpaqueRef
  pub method_id : IdToken
  pub subject_kind : IdToken
  pub subject_id : IdToken
  pub occurred_at : Timestamp
  pub observed_at : Timestamp
  pub start_anchor : Anchor
  pub proposed_next_anchor : Anchor
  pub replay_status : ReplayStatus
  pub correlation_id : IdToken
  pub causation_id : Option IdToken
  pub payload : PayloadRef
  pub delivery_ref : Option OpaqueRef
  pub activation_ref : Option OpaqueRef

pub data OutcomeKind : Type 0 where
  events no_change logical_deadman partial cancelled coverage_degraded : OutcomeKind
  refused reauthentication_required failed : OutcomeKind

pub data ArmStatus : Type 0 where
  no_change events observed outage cursor_uncertain deferred : ArmStatus

pub record CoverageArm : Type 0 where
  pub arm_id : IdToken
  pub registration_id : IdToken
  pub required : Bool
  pub status : ArmStatus
  pub degraded : Bool
  pub start_anchor : Anchor
  pub proposed_next_anchor : Anchor
  pub event_count : ℕ
  pub byte_count : ℕ
  pub reason_code : Option IdToken

pub data AuthnMode : Type 0 where
  required optional disabled : AuthnMode

pub data BaselinePolicy : Type 0 where
  latest earliest provider_defined : BaselinePolicy

pub record Registration : Type 0 where
  pub registration_id : IdToken
  pub method_id : IdToken
  pub subject_kind : IdToken
  pub subject_id : IdToken
  pub required : Bool
  pub source_instance_ref : OpaqueRef
  pub predicate_ref : PredicateRef
  pub capability_ref : OpaqueRef
  pub lease_expires_at : Timestamp
  pub bounds : WaitBound
  pub start_anchor : Option Anchor
  pub baseline_policy : Option BaselinePolicy
  pub priority : Option ℕ

-- PartialEq for Anchor: the kind has one value.
abbrev pub anchor_eq : Anchor → Anchor → Bool
anchor_eq a b = string_eq.test a.value b.value

-- Kinds that carry no events: `matches!(kind, Cancelled | Failed | Refused | Reauth…)`.
abbrev pub is_reject : OutcomeKind → Bool
is_reject OutcomeKind.cancelled = true
is_reject OutcomeKind.failed = true
is_reject OutcomeKind.refused = true
is_reject OutcomeKind.reauthentication_required = true
is_reject _ = false

abbrev pub is_required : AuthnMode → Bool
is_required AuthnMode.required = true
is_required _ = false
