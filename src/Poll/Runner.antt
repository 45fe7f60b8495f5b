-- ===== src/Poll/Runner.antt =====
-- crates/waitprims-async/src/poll_cycle.rs: the loop. One `tokio::select!` is one call of the
-- runtime, which answers with the arm that completed and with the binds made meanwhile.
pub mod Steps
pub mod Bounds
pub mod Limits
use waitprims.Prelude.{
  ℕ, zero, suc, ◌+◌, Bool, true, false, not, ◌&&◌, ◌||◌, String, Option, none, some, List, [], ◌∷◌,
  ◌++◌, map, any, all, keep, filter_map, length, if◌then◌else◌, get_elem?, set, enumerate, ◌==◌,
  string_eq, ℕ_eq, Map, lookup, collect, values, ℕ_key, string_key,
}
use waitprims.Core.Error.{Error, Result, ok, err, validation, invalid}
use waitprims.Core.Time.{Timestamp}
use waitprims.Core.Types.{Anchor, Registration, anchor_eq}
use waitprims.Core.Messages.{RegistrationSet, PollCycleRequest, PollCycleOutcome}
use waitprims.Observer.{Observation, Observer, Exec, ◌>>=◌, ◌>>◌, pure, raise, call, lift}
use waitprims.Race.{FirstReadyOutput}
use waitprims.Live.Outcome.{ResolvedStart}
use waitprims.Poll.Budget.{CollectBudget}
use waitprims.Poll.Budget
use waitprims.Poll.Fairness.{fairness_order}
use waitprims.Poll.Visit.{
  Visits, bind_at, flatten, is_some, restore_owned_observations, emit, record_ready,
}
use waitprims.Poll.Assemble.{is_empty}
use waitprims.Poll.Kind.{finish, assemble, decide_at_deadline, deadline_reached, earliest_deadline}

pub data Wake (Bind : Type 0) : Type 0 where
  observed : FirstReadyOutput Observation → Wake Bind
  bound : FirstReadyOutput Bind → Wake Bind
  cancelled slept : Wake Bind

pub data FirstWake (Bind : Type 0) : Type 0 where
  bound : FirstReadyOutput Bind → FirstWake Bind
  cancelled slept : FirstWake Bind

-- The registrations to bind, each with the check that `bind_one` makes of its bind.
pub record Binding (Bind : Type 0) : Type 0 where
  pub registration : Registration
  pub check : Bind → Result (Unit {0})

pub record Runtime (W Bind : Type 0) : Type 0 where
  pub observer : Observer W Bind
  pub open observer use *
  -- The race of `next`, the race of `bind_one`, the cancel token and the sleep.
  pub select_cycle : List Bind → List (Binding Bind) → Timestamp → W → (Wake Bind × List Bind) × W
  -- The same before anything is bound.
  pub select_first : List (Binding Bind) → Timestamp → W → (FirstWake Bind × List Bind) × W

pub data Step (S : Type 0) : Type 0 where
  return : PollCycleOutcome → Step S
  again : S → Step S

pub record Cycle (Bind : Type 0) : Type 0 where
  pub bound : List (Option Bind)
  pub any_bound : Bool
  pub resolved : List ResolvedStart
  pub visits : Visits
  pub budget : CollectBudget

abbrev pub knows : List Registration → String × Anchor → Bool
knows registrations (key, anchor) =
    any (λ (registration : Registration). registration.registration_id == key) registrations

unfoldable pub resolve : RegistrationSet → PollCycleRequest → Result (Unit {0})
resolve set request =
    if not (request.registration_set_ref == set.message_id)
    then err (validation (invalid "/registration_set_ref" "mismatch"))
    else if not (request.registration_revision == set.registration_revision)
    then err (validation (invalid "/registration_revision" "revision_mismatch"))
    else if not (request.waiter_id == set.waiter_id)
    then err (validation (invalid "/waiter_id" "mismatch"))
    else if not (all (knows set.registrations) request.acknowledged_anchors)
    then err (validation (invalid "/acknowledged_anchors" "unknown_registration"))
    else ok tt

abbrev with_ack : Option Anchor → Registration → Registration
with_ack none registration = registration
with_ack (some ack) registration = record registration {
  start_anchor = some ack;
  baseline_policy = none;
}

unfoldable pub bind_registration : Registration → PollCycleRequest → Registration
bind_registration registration request =
    with_ack (lookup registration.registration_id request.acknowledged_anchors) registration

abbrev entry_of : ResolvedStart → String × ResolvedStart
entry_of start = (start.registration_id, start)

unfoldable pub merge_starts : List ResolvedStart → List ResolvedStart → List ResolvedStart
merge_starts slots resolved = values (collect [] (map entry_of (resolved ++ slots)))

abbrev remapped : {A : Type 0} → List ℕ → ℕ × A → Option (ℕ × A)
remapped pending (local, value) = elim (get_elem? pending local) [
  | none ↦ none
  | some idx ↦ some (idx, value)
]

unfoldable pub remap_ready : {A : Type 0} → List ℕ → List (ℕ × A) → List (ℕ × A)
remap_ready pending ready = filter_map (remapped pending) ready

abbrev indexed : {A : Type 0} → ℕ → Option A → Option (ℕ × A)
indexed idx none = none
indexed idx (some a) = some (idx, a)

-- pending_refs
unfoldable pub pending_refs : {Bind : Type 0} → List (Option Bind) → List ℕ → List (ℕ × Bind)
pending_refs binds pending = filter_map (λ idx. indexed idx (bind_at binds idx)) pending

-- occupied_refs
unfoldable pub occupied_refs : {Bind : Type 0} → List (Option Bind) → List (ℕ × Bind)
occupied_refs binds = filter_map (λ e. indexed e.0 e.1) (enumerate binds)

unfoldable pub place : {Bind : Type 0} → List (ℕ × Bind) → List (Option Bind) → List (Option Bind)
place [] binds = binds
place ((idx, bind) ∷ ready) binds = place ready (set binds idx (some bind))

abbrev at_idx : {A : Type 0} → ℕ → ℕ × A → Bool
at_idx idx (i, a) = i == idx

abbrev push_ready : ℕ → Option Observation → List (ℕ × Observation) → List (ℕ × Observation)
push_ready idx none ready = ready
push_ready idx (some obs) ready = ready ++ (idx, obs) ∷ []

module _ {W Bind : Type 0} (rt : Runtime W Bind) where
  abbrev start : Bind → ResolvedStart
  start bind = record { registration_id = rt.registration_id bind; start = rt.resolved_start bind }

  -- starts_from_slots
  abbrev pub starts_from_slots : List (Option Bind) → List ResolvedStart
  starts_from_slots binds = map start (filter_map (λ b. b) binds)

  unfoldable pub extend_ready :
      List (ℕ × Bind) → List (ℕ × Observation) → Exec W (List (ℕ × Observation))
  extend_ready [] ready = pure ready
  extend_ready ((idx, bind) ∷ binds) ready =
      if any (at_idx idx) ready
      then extend_ready binds ready
      else do obs ← call (rt.poll_ready bind); extend_ready binds (push_ready idx obs ready)

  -- bind_one's check that an acknowledged cursor is where the bind starts.
  check_start : Option Anchor → Bind → Result (Unit {0})
  check_start none bind = ok tt
  check_start (some expected) bind =
      if not (anchor_eq (rt.resolved_start bind) expected)
      then err (validation (invalid "/acknowledged_anchors" "bind_start_mismatch"))
      else ok tt

  unfoldable pub bind_one : PollCycleRequest → Registration → Binding Bind
  unfolding check_start
  bind_one request registration = record {
    registration = bind_registration registration request;
    check = check_start (lookup registration.registration_id request.acknowledged_anchors);
  }

  module _ (set : RegistrationSet) (request : PollCycleRequest) where
    abbrev order : List ℕ
    order = fairness_order set request

    abbrev bindings : List ℕ → List (Binding Bind)
    bindings idxs =
        map (bind_one request) (filter_map (λ idx. get_elem? set.registrations idx) idxs)

    abbrev is_visited : Cycle Bind → ℕ → Bool
    is_visited st idx = is_some (lookup idx st.visits)

    abbrev pub pending_of : Cycle Bind → List ℕ
    pending_of st = keep (λ idx. is_some (bind_at st.bound idx) && not (is_visited st idx)) order

    abbrev pub unbound_of : Cycle Bind → List ℕ
    unbound_of st =
        keep (λ idx. not (is_some (bind_at st.bound idx)) && not (is_visited st idx)) order

    abbrev pub all_visited : Visits → Bool
    all_visited visits = length visits == length set.registrations

    pub give : Cycle Bind → Result PollCycleOutcome → Exec W (Step (Cycle Bind))
    give st outcome = do out ← emit rt.observer st.bound st.visits outcome; pure (return out)

    -- return emit(…, assemble(…, clock.now(), …))
    pub give_assembled : Cycle Bind → List ResolvedStart → Exec W (Step (Cycle Bind))
    unfolding give
    give_assembled st starts = do
      now ← call rt.now
      give st (assemble set request now starts st.visits)

    -- return emit(…, finish(…, clock.now(), …, Some("consumer_cancelled")))
    pub give_cancelled : Cycle Bind → List ResolvedStart → Exec W (Step (Cycle Bind))
    unfolding give
    give_cancelled st starts = do
      now ← call rt.now
      give st (finish set request now starts st.visits (some "consumer_cancelled"))

    pub record_in : Cycle Bind → List (ℕ × Observation) → Exec W (Cycle Bind)
    record_in st ready = do
      done ← record_ready rt.observer set request st.bound st.budget st.visits ready
      pure (record st { budget = done.0; visits = done.1 })

    abbrev go_on : Cycle Bind → List ResolvedStart → Exec W (Step (Cycle Bind))
    go_on st starts = if all_visited st.visits then give_assembled st starts else pure (again st)

    -- Observations that are due on bound arms are taken in once something was bound.
    pub take_in : Cycle Bind → Exec W (Step (Cycle Bind))
    unfolding record_in give_assembled
    take_in st = do
      ready ← extend_ready (occupied_refs st.bound) []
      st' ← record_in st ready
      go_on st' (starts_from_slots st'.bound)

    pub on_binds : Cycle Bind → List ℕ → FirstReadyOutput Bind → Exec W (Step (Cycle Bind))
    unfolding take_in give
    on_binds st idxs out = elim out.error [
      | some e ↦ give st (err e)
      | none ↦
          let ready = remap_ready idxs out.ready in
          take_in (record st {
            bound = place ready st.bound;
            any_bound = st.any_bound || not (is_empty ready);
          })
    ]

    on_observed :
        Cycle Bind
        → List ResolvedStart
        → List ℕ
        → FirstReadyOutput Observation
        → Exec W (Step (Cycle Bind))
    unfolding record_in give give_assembled
    on_observed st starts pending out = elim out.error [
      | some e ↦ do
        restore_owned_observations rt.observer st.bound (remap_ready pending out.ready)
        give st (err e)
      | none ↦ do
        ready ← extend_ready (pending_refs st.bound pending) (remap_ready pending out.ready)
        st' ← record_in st ready
        go_on st' starts
    ]

    on_wake :
        Cycle Bind → List ResolvedStart → List ℕ → List ℕ → Wake Bind → Exec W (Step (Cycle Bind))
    unfolding on_observed on_binds give_cancelled record_in give
    on_wake st starts pending unbound (Wake.observed out) = on_observed st starts pending out
    on_wake st starts pending unbound (Wake.bound out) = on_binds st unbound out
    on_wake st starts pending unbound Wake.cancelled = give_cancelled st starts
    on_wake st starts pending unbound Wake.slept = do
      now ← call rt.now
      ready ← extend_ready (pending_refs st.bound pending) []
      st' ← record_in st ready
      give st' (decide_at_deadline set request now starts st'.visits)

    on_first : Cycle Bind → FirstWake Bind → Exec W (Step (Cycle Bind))
    unfolding on_binds give_cancelled give
    on_first st (FirstWake.bound out) = on_binds st order out
    on_first st FirstWake.cancelled = give_cancelled st st.resolved
    on_first st FirstWake.slept = do
      now ← call rt.now
      give st (decide_at_deadline set request now st.resolved st.visits)

    abbrev note_binds : Cycle Bind → List Bind → Cycle Bind
    note_binds st binds = record st { resolved = st.resolved ++ map start binds }

    bound_round : Cycle Bind → List ResolvedStart → Exec W (Step (Cycle Bind))
    unfolding on_wake give_assembled
    bound_round st starts =
        let pending = pending_of st in
        let unbound = unbound_of st in
        if is_empty pending && all_visited st.visits
        then give_assembled st starts
        else if is_empty pending && is_empty unbound
        then give_assembled st starts
        else do
          woken ← call (
              rt.select_cycle (map (λ e. e.1) (pending_refs st.bound pending)) (bindings unbound)
                (earliest_deadline set request))
          on_wake (note_binds st woken.1) starts pending unbound woken.0

    first_round : Cycle Bind → Exec W (Step (Cycle Bind))
    unfolding on_first
    first_round st = do
      woken ← call (rt.select_first (bindings order) (earliest_deadline set request))
      on_first (note_binds st woken.1) woken.0

    -- One round of the loop.
    unfoldable pub iteration : Cycle Bind → Exec W (Step (Cycle Bind))
    unfolding give_cancelled give bound_round first_round
    iteration st = do
      stop ← call rt.is_cancelled
      let starts = merge_starts (starts_from_slots st.bound) st.resolved
      if stop then give_cancelled st st.resolved else do
        now ← call rt.now
        if deadline_reached set request now
            then (do at ← call rt.now; give st (decide_at_deadline set request at starts st.visits))
            else if st.any_bound
            then bound_round st starts
            else first_round st

    -- `none` when the fuel runs out.
    run_loop : ℕ → Cycle Bind → Exec W (Option PollCycleOutcome)
    run_loop zero st = pure none
    run_loop (suc fuel) st =
        iteration st
        >>= elim [ return outcome ↦ pure (some outcome) | again st' ↦ run_loop fuel st' ]

    abbrev no_bind : Registration → Option Bind
    no_bind registration = none

    abbrev pub start_state : Cycle Bind
    start_state = record {
      bound = map no_bind set.registrations;
      any_bound = false;
      resolved = [];
      visits = [];
      budget = Budget.new set request;
    }

    unfoldable pub run_poll_cycle : ℕ → Exec W (Option PollCycleOutcome)
    unfolding run_loop
    run_poll_cycle fuel = do lift (resolve set request); run_loop fuel start_state
