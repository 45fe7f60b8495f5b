-- ===== src/Core/Messages.antt =====
-- crates/waitprims-core/src/types.rs: the bodies of the six message kinds.
use waitprims.Prelude.{Bool, String, Option, List, Map, string_eq}
use waitprims.Core.Refs.{ActorRef, CapabilityToken, IdToken, OpaqueRef}
use waitprims.Core.Time.{Timestamp}
use waitprims.Core.Types.{
  Anchor, AuthnMode, CoverageArm, JcsDigest, OutcomeKind, PollBound, Registration, WaitBound,
  WaitEvent,
}

pub record RegistrationSet : Type 0 where
  pub capabilities : List CapabilityToken
  pub message_id : IdToken
  pub correlation_id : IdToken
  pub created_at : Timestamp
  pub actor_ref : ActorRef
  pub causation_id : Option IdToken
  pub grant_ref : Option OpaqueRef
  pub verification_receipt_ref : Option OpaqueRef
  pub policy_decision_ref : Option OpaqueRef
  pub principal_ref : ActorRef
  pub waiter_id : IdToken
  pub seat_ref : OpaqueRef
  pub registration_revision : IdToken
  pub logical_deadline : Timestamp
  pub authn_mode : AuthnMode
  pub aggregate_limits : WaitBound
  pub registration_digest : JcsDigest
  pub registrations : List Registration

pub record LiveWaitRequest : Type 0 where
  pub capabilities : List CapabilityToken
  pub message_id : IdToken
  pub correlation_id : IdToken
  pub created_at : Timestamp
  pub actor_ref : ActorRef
  pub causation_id : Option IdToken
  pub grant_ref : Option OpaqueRef
  pub verification_receipt_ref : Option OpaqueRef
  pub policy_decision_ref : Option OpaqueRef
  pub waiter_id : IdToken
  pub registration_set_ref : IdToken
  pub registration_revision : IdToken
  pub logical_deadline : Timestamp
  pub run_deadline : Timestamp

pub record LiveWaitOutcome : Type 0 where
  pub capabilities : List CapabilityToken
  pub message_id : IdToken
  pub correlation_id : IdToken
  pub created_at : Timestamp
  pub actor_ref : ActorRef
  pub causation_id : Option IdToken
  pub grant_ref : Option OpaqueRef
  pub verification_receipt_ref : Option OpaqueRef
  pub policy_decision_ref : Option OpaqueRef
  pub waiter_id : IdToken
  pub request_ref : IdToken
  pub completed_at : Timestamp
  pub outcome_kind : OutcomeKind
  pub logical_deadline : Option Timestamp
  pub events : Option (List WaitEvent)
  pub proposed_next_anchor : Option Anchor
  pub coverage_complete : Option Bool
  pub arms : Option (List CoverageArm)
  pub reason_code : Option IdToken

pub record PollCycleRequest : Type 0 where
  pub capabilities : List CapabilityToken
  pub message_id : IdToken
  pub correlation_id : IdToken
  pub created_at : Timestamp
  pub actor_ref : ActorRef
  pub causation_id : Option IdToken
  pub grant_ref : Option OpaqueRef
  pub verification_receipt_ref : Option OpaqueRef
  pub policy_decision_ref : Option OpaqueRef
  pub waiter_id : IdToken
  pub registration_set_ref : IdToken
  pub registration_revision : IdToken
  pub logical_deadline : Timestamp
  pub run_deadline : Timestamp
  pub required_arms : List IdToken
  pub fairness_cursor : IdToken
  pub acknowledged_anchors : Map String Anchor
  pub activation_ref : OpaqueRef
  pub cycle_id : IdToken
  pub bound : Option PollBound

pub record PollCycleOutcome : Type 0 where
  pub capabilities : List CapabilityToken
  pub message_id : IdToken
  pub correlation_id : IdToken
  pub created_at : Timestamp
  pub actor_ref : ActorRef
  pub causation_id : Option IdToken
  pub grant_ref : Option OpaqueRef
  pub verification_receipt_ref : Option OpaqueRef
  pub policy_decision_ref : Option OpaqueRef
  pub waiter_id : IdToken
  pub request_ref : IdToken
  pub completed_at : Timestamp
  pub logical_deadline : Timestamp
  pub outcome_kind : OutcomeKind
  pub events : List WaitEvent
  pub coverage_complete : Bool
  pub arms : List CoverageArm
  pub retained_through : Map String Anchor
  pub retained_events : Map String (List IdToken)
  pub proposed_next_anchors : Map String Anchor
  pub fairness_cursor : IdToken
  pub next_fairness_cursor : IdToken
  pub acknowledged_anchors : Option (Map String Anchor)
  pub bound : Option PollBound
  pub reason_code : Option IdToken

pub record PollCycleAck : Type 0 where
  pub capabilities : List CapabilityToken
  pub message_id : IdToken
  pub correlation_id : IdToken
  pub created_at : Timestamp
  pub actor_ref : ActorRef
  pub causation_id : Option IdToken
  pub grant_ref : Option OpaqueRef
  pub verification_receipt_ref : Option OpaqueRef
  pub policy_decision_ref : Option OpaqueRef
  pub waiter_id : IdToken
  pub outcome_ref : IdToken
  pub committed_anchors : Map String Anchor
  pub retained_events : Map String (List IdToken)

pub data MessageType : Type 0 where
  registration_set live_wait_request live_wait_outcome poll_cycle_request : MessageType
  poll_cycle_outcome poll_cycle_ack : MessageType

pub data AgentWaitMessage : Type 0 where
  registration_set : RegistrationSet → AgentWaitMessage
  live_wait_request : LiveWaitRequest → AgentWaitMessage
  live_wait_outcome : LiveWaitOutcome → AgentWaitMessage
  poll_cycle_request : PollCycleRequest → AgentWaitMessage
  poll_cycle_outcome : PollCycleOutcome → AgentWaitMessage
  poll_cycle_ack : PollCycleAck → AgentWaitMessage

-- AgentWaitMessage::message_type
unfoldable pub message_type : AgentWaitMessage → MessageType
message_type (AgentWaitMessage.registration_set _) = MessageType.registration_set
message_type (AgentWaitMessage.live_wait_request _) = MessageType.live_wait_request
message_type (AgentWaitMessage.live_wait_outcome _) = MessageType.live_wait_outcome
message_type (AgentWaitMessage.poll_cycle_request _) = MessageType.poll_cycle_request
message_type (AgentWaitMessage.poll_cycle_outcome _) = MessageType.poll_cycle_outcome
message_type (AgentWaitMessage.poll_cycle_ack _) = MessageType.poll_cycle_ack
