-- ===== src/Live/Decide.antt =====
-- crates/waitprims-async/src/first_match.rs: the decisions, which touch nothing outside.
pub mod Backoff
use waitprims.Prelude.{
  ℕ, ◌-◌, ◌*◌, min, Bool, true, false, not, ◌&&◌, String, Option, none, some, List, [], ◌∷◌, ltb,
  ◌==◌, string_eq, if◌then◌else◌, any, all, keep, get_elem?, ◌^◌, ◌+◌,
}
use waitprims.Core.Error.{Result, ok, err, validation, invalid}
use waitprims.Core.Time.{Timestamp, ◌≥ᵗ◌, ◌>ᵗ◌, ◌<ᵗ◌, Calendar, saturating_add}
use waitprims.Core.Types.{Registration, WaitEvent, is_required, is_reject}
use waitprims.Core.Messages.{RegistrationSet, LiveWaitRequest, LiveWaitOutcome}
use waitprims.Observer.{Observation}
use waitprims.Live.Outcome.{
  ResolvedStart, events, failed, partial, logical_deadman, no_change, refused,
  reauthentication_required,
}

unfoldable pub resolve : RegistrationSet → LiveWaitRequest → Result (Unit {0})
resolve set request =
    if not (request.registration_set_ref == set.message_id)
    then err (validation (invalid "/registration_set_ref" "mismatch"))
    else if not (request.registration_revision == set.registration_revision)
    then err (validation (invalid "/registration_revision" "revision_mismatch"))
    else if not (request.waiter_id == set.waiter_id)
    then err (validation (invalid "/waiter_id" "mismatch"))
    else ok tt

abbrev pub starts_at : Registration → ResolvedStart → Bool
starts_at registration start = start.registration_id == registration.registration_id

abbrev pub is_bound : List ResolvedStart → Registration → Bool
is_bound resolved registration = any (starts_at registration) resolved

abbrev pub required_of : List Registration → List Registration
required_of = keep (λ registration. registration.required)

unfoldable pub required_binding_complete : RegistrationSet → List ResolvedStart → Bool
required_binding_complete set resolved = all (is_bound resolved) (required_of set.registrations)

-- What `decide` gathers from the ready arms: the last failure reason stays.
pub record Tally : Type 0 where
  pub events : List (ℕ × WaitEvent)
  pub overflow : Bool
  pub failed : Option String

abbrev failing : String → Tally → Tally
failing reason rest = record rest {
  failed = elim rest.failed [ none ↦ some reason | some r ↦ some r ];
}

abbrev tally_one : ℕ → Observation → Tally → Tally
tally_one idx (Observation.event event) rest = record rest { events = (idx, event) ∷ rest.events }
tally_one idx Observation.overflow rest = record rest { overflow = true }
tally_one idx (Observation.failed reason) rest = failing reason rest
tally_one idx (Observation.outage reason) rest = failing reason rest
tally_one idx (Observation.cursor_uncertain reason) rest = failing reason rest
tally_one idx (Observation.degraded reason) rest = failing reason rest
tally_one idx Observation.idle rest = rest

unfoldable pub tally : List (ℕ × Observation) → Tally
tally [] = record { events = []; overflow = false; failed = none }
tally ((idx, obs) ∷ ready) = tally_one idx obs (tally ready)

abbrev pub lower : {A : Type 0} → ℕ × A → Option (ℕ × A) → ℕ × A
lower (i, a) none = (i, a)
lower (i, a) (some (j, b)) = if ltb j i then (j, b) else (i, a)

-- Iterator::min_by_key on the index: the first of the least.
unfoldable pub min_by_idx : {A : Type 0} → List (ℕ × A) → Option (ℕ × A)
min_by_idx [] = none
min_by_idx (item ∷ rest) = some (lower item (min_by_idx rest))

abbrev pub the_event : Option (ℕ × WaitEvent) → Option WaitEvent
the_event none = none
the_event (some (idx, event)) = some event

module _ (set : RegistrationSet) (request : LiveWaitRequest) (now : Timestamp) where
  unfoldable pub overflow_outcome : Option WaitEvent → List ResolvedStart → LiveWaitOutcome
  overflow_outcome none resolved = failed request now "buffer_overflow"
  overflow_outcome (some winner) resolved = partial set request now (some winner) resolved

  unfoldable pub plain_outcome : Option String → Option WaitEvent → Option LiveWaitOutcome
  plain_outcome reason (some winner) = some (events request now winner)
  plain_outcome (some reason) none = some (failed request now reason)
  plain_outcome none none = none

  unfoldable pub decide : List (ℕ × Observation) → List ResolvedStart → Option LiveWaitOutcome
  unfolding overflow_outcome plain_outcome
  decide ready resolved =
      let t = tally ready in
      let winner = the_event (min_by_idx t.events) in
      if t.overflow then some (overflow_outcome winner resolved) else plain_outcome t.failed winner

  unfoldable pub terminal_deadline : List ResolvedStart → Option LiveWaitOutcome
  terminal_deadline resolved =
      let at_logical = now ≥ᵗ request.logical_deadline in
      let at_run = now ≥ᵗ request.run_deadline in
      if not at_logical && not at_run
      then none
      else if not (required_binding_complete set resolved)
      then some (failed request now "required_bind_pending")
      else if at_logical
      then some (logical_deadman set request now resolved)
      else some (no_change set request now resolved)

abbrev pub is_expired : Timestamp → Registration → Bool
is_expired now reg = now >ᵗ reg.lease_expires_at

abbrev pub is_missing : Option String → Bool
is_missing none = true
is_missing (some r) = false

unfoldable pub posture_reject :
    RegistrationSet → LiveWaitRequest → Timestamp → Option LiveWaitOutcome
posture_reject set request now =
    if any (is_expired now) set.registrations
    then some (reauthentication_required request now "lease_expired")
    else if is_required set.authn_mode && is_missing request.verification_receipt_ref
    then some (refused request now "authn_required")
    else none

abbrev pub or_outcome : Option LiveWaitOutcome → LiveWaitOutcome → LiveWaitOutcome
or_outcome none outcome = outcome
or_outcome (some rejected) outcome = rejected

unfoldable pub finish :
    RegistrationSet → LiveWaitRequest → Timestamp → LiveWaitOutcome → LiveWaitOutcome
finish set request now outcome =
    if is_reject outcome.outcome_kind
    then outcome
    else or_outcome (posture_reject set request now) outcome

unfoldable pub earliest_deadline : LiveWaitRequest → Timestamp
earliest_deadline request =
    if request.run_deadline <ᵗ request.logical_deadline
    then request.run_deadline
    else request.logical_deadline

abbrev pub backoff_ms : List ℕ
backoff_ms = 50 ∷ 100 ∷ 200 ∷ 400 ∷ 800 ∷ 1000 ∷ []

abbrev pub or_zero : Option ℕ → ℕ
or_zero none = 0
or_zero (some n) = n

-- The delay of one step, in nanoseconds; the index never leaves the table.
unfoldable pub backoff_delay : ℕ → ℕ
backoff_delay step = or_zero (get_elem? backoff_ms (min (step - 1) 5)) * 1_000_000

unfoldable pub backoff_deadline : Calendar → Timestamp → LiveWaitRequest → ℕ → Timestamp
backoff_deadline calendar now request step =
    let wake = saturating_add calendar now (backoff_delay step) in
    let cap = earliest_deadline request in if wake <ᵗ cap then wake else cap

-- usize::saturating_add(1)
abbrev pub next_step : ℕ → ℕ
next_step step = min (step + 1) (2 ^ 64 - 1)
