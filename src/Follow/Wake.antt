-- ===== src/Follow/Wake.antt =====
-- crates/waitprims-async/src/follow.rs: when the wake of a session is due.
use native.Mathlib.Omega.{arith}
use waitprims.Prelude.{
  ◌≡◌, refl, ap, ◌∙◌, Bool, false, ◌||◌, Option, none, some, List, [], ◌∷◌, map, any,
}
use waitprims.Core.Time.{Timestamp, ◌≥ᵗ◌}
use waitprims.Core.Types.{Registration}
use waitprims.Core.Messages.{RegistrationSet, LiveWaitRequest}
use waitprims.Follow.{
  sooner, earliest, lease_of, lease_over, earliest_deadline, earliest_lease, earliest_wake,
  at_deadline,
}

abbrev is_over : Timestamp → Option Timestamp → Bool
is_over now none = false
is_over now (some t) = now ≥ᵗ t

over-sooner :
    (now t : Timestamp) (o : Option Timestamp) → (now ≥ᵗ sooner t o) ≡ (now ≥ᵗ t || is_over now o)
over-sooner now t none = ground arith
over-sooner now t (some u) = ground arith

over-earliest :
    (now : Timestamp) (regs : List Registration)
    → is_over now (earliest (map lease_of regs)) ≡ any (lease_over now) regs
unfolding earliest
over-earliest now [] = refl
over-earliest now (reg ∷ regs) =
    over-sooner now reg.lease_expires_at (earliest (map lease_of regs))
    ∙ ap (λ b. now ≥ᵗ reg.lease_expires_at || b) (over-earliest now regs)

over-deadline :
    (now : Timestamp) (request : LiveWaitRequest)
    → (now ≥ᵗ earliest_deadline request) ≡ at_deadline request now
unfolding earliest_deadline
over-deadline now request = ground arith

-- The wake of a session is due exactly when a deadline of the request is reached or the lease of a
-- registration is over: it sleeps through neither, and wakes for nothing else.
pub earliest_wake_lem :
    (set : RegistrationSet) (request : LiveWaitRequest) (now : Timestamp)
    → (now ≥ᵗ earliest_wake set request)
      ≡ (at_deadline request now || any (lease_over now) set.registrations)
unfolding earliest_wake earliest_lease
earliest_wake_lem set request now =
    over-sooner now (earliest_deadline request) (earliest (map lease_of set.registrations))
    ∙ ap (λ b. b || is_over now (earliest (map lease_of set.registrations)))
        (over-deadline now request)
    ∙ ap (λ b. at_deadline request now || b) (over-earliest now set.registrations)
