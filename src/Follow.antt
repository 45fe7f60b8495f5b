-- ===== src/Follow.antt =====
-- crates/waitprims-async/src/follow.rs: what ends a held session, and the checks of its request.
pub mod Slots
pub mod Runner
pub mod Wake
use waitprims.Prelude.{
  ℕ, Bool, true, false, not, ◌&&◌, ◌||◌, Option, none, some, List, [], ◌∷◌, any, map, ◌==◌,
  string_eq, if◌then◌else◌,
}
use waitprims.Core.Refs.{IdToken}
use waitprims.Core.Error.{
  Error, Result, ok, err, validation, invalid, normative, deadline_ordering, lease_reauth,
  authn_required,
}
use waitprims.Core.Time.{Timestamp, ◌≥ᵗ◌, ◌>ᵗ◌, ◌<ᵗ◌, Calendar, saturating_add}
use waitprims.Core.Types.{Registration, is_required}
use waitprims.Core.Messages.{RegistrationSet, LiveWaitRequest}
use waitprims.Live.Decide.{backoff_delay, is_missing}

pub data TerminalArmKind : Type 0 where
  overflow failed outage cursor_uncertain degraded : TerminalArmKind

pub data FollowEnd : Type 0 where
  cancel deadline : FollowEnd
  -- The registration, the kind of its terminal, and the reason code.
  terminal_arm : IdToken → TerminalArmKind → IdToken → FollowEnd

unfoldable pub resolve : RegistrationSet → LiveWaitRequest → Result (Unit {0})
resolve set request =
    if not (request.registration_set_ref == set.message_id)
    then err (validation (invalid "/registration_set_ref" "mismatch"))
    else if not (request.registration_revision == set.registration_revision)
    then err (validation (invalid "/registration_revision" "revision_mismatch"))
    else if not (request.waiter_id == set.waiter_id)
    then err (validation (invalid "/waiter_id" "mismatch"))
    else ok tt

-- The order of the two deadlines, which the session checks after `resolve`.
unfoldable pub deadline_order : LiveWaitRequest → Result (Unit {0})
deadline_order request =
    if request.run_deadline >ᵗ request.logical_deadline
    then err (
        validation
          (normative "/run_deadline" "must_be_at_or_before_logical_deadline" deadline_ordering))
    else ok tt

abbrev pub lease_over : Timestamp → Registration → Bool
lease_over now reg = now ≥ᵗ reg.lease_expires_at

unfoldable pub posture_err : RegistrationSet → LiveWaitRequest → Timestamp → Option Error
posture_err set request now =
    if any (lease_over now) set.registrations
    then some
        (validation (normative "/registrations/lease_expires_at" "lease_expired" lease_reauth))
    else if is_required set.authn_mode && is_missing request.verification_receipt_ref
    then some (validation (normative "/verification_receipt_ref" "required" authn_required))
    else none

unfoldable pub earliest_deadline : LiveWaitRequest → Timestamp
earliest_deadline request =
    if request.run_deadline <ᵗ request.logical_deadline
    then request.run_deadline
    else request.logical_deadline

abbrev pub sooner : Timestamp → Option Timestamp → Timestamp
sooner t none = t
sooner t (some u) = if u <ᵗ t then u else t

abbrev pub lease_of : Registration → Timestamp
lease_of reg = reg.lease_expires_at

-- Iterator::min: the first of the least.
unfoldable pub earliest : List Timestamp → Option Timestamp
earliest [] = none
earliest (t ∷ ts) = some (sooner t (earliest ts))

unfoldable pub earliest_lease : RegistrationSet → Option Timestamp
earliest_lease set = earliest (map lease_of set.registrations)

unfoldable pub earliest_wake : RegistrationSet → LiveWaitRequest → Timestamp
earliest_wake set request = sooner (earliest_deadline request) (earliest_lease set)

abbrev pub at_deadline : LiveWaitRequest → Timestamp → Bool
at_deadline request now = now ≥ᵗ request.logical_deadline || now ≥ᵗ request.run_deadline

unfoldable pub backoff_deadline :
    Calendar → Timestamp → RegistrationSet → LiveWaitRequest → ℕ → Timestamp
backoff_deadline calendar now set request step =
    let wake = saturating_add calendar now (backoff_delay step) in
    let cap = earliest_wake set request in if wake <ᵗ cap then wake else cap
