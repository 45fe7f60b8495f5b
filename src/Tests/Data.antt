-- ===== src/Tests/Data.antt =====
-- Two registrations, a request on them, and an observer that answers from a list. Its clock moves
-- by one at each reading.
use Prim.Native.Nat.{◌/◌}
use mathlib.Core.Option.{some-injective}
use waitprims.Prelude.{
  ℕ, zero, suc, ◌+◌, ◌*◌, ◌-◌, ◌%◌, refl, ap, sym, true, false, none, some, List, [], ◌∷◌, arith,
  String,
}
use waitprims.Core.Error.{ok}
use waitprims.Core.Time.{Timestamp, Calendar, ℤ}
use waitprims.Core.Types.{
  Anchor, AnchorKind, AuthnMode, Canonicalization, DigestAlgorithm, Registration, ReplayStatus,
  WaitEvent,
}
use waitprims.Core.Messages.{RegistrationSet, LiveWaitRequest, PollCycleRequest}
use waitprims.Observer.{Observation, Observer}
use waitprims.Poll.Runner as Poll
use waitprims.Live.Runner.{Runtime, collected, Loop}
use waitprims.Live.Runner.Custody.Back.{Ledger}
use waitprims.Live.Runner.Timed.{Timed}

abbrev pub at_time : ℕ → Timestamp
at_time n = record { raw = ""; instant = n }

abbrev pub anchor : String → Anchor
anchor value = record { kind = AnchorKind.provider_opaque; value = value }

abbrev pub registration : String → Registration
registration id = record {
  registration_id = id;
  method_id = "method";
  subject_kind = "queue";
  subject_id = id;
  required = true;
  source_instance_ref = "source";
  predicate_ref = "any";
  capability_ref = "read";
  lease_expires_at = at_time 20;
  bounds = record { max_events = 2; max_bytes = 1000 };
  start_anchor = some (anchor "start");
  baseline_policy = none;
  priority = none;
}

abbrev pub set : RegistrationSet
set = record {
  capabilities = [];
  message_id = "set";
  correlation_id = "corr";
  created_at = at_time 0;
  actor_ref = "actor";
  causation_id = none;
  grant_ref = none;
  verification_receipt_ref = none;
  policy_decision_ref = none;
  principal_ref = "actor";
  waiter_id = "waiter";
  seat_ref = "seat";
  registration_revision = "1";
  logical_deadline = at_time 100;
  authn_mode = AuthnMode.required;
  aggregate_limits = record { max_events = 3; max_bytes = 2000 };
  registration_digest = record {
    canonicalization = Canonicalization.rfc8785;
    algorithm = DigestAlgorithm.sha256;
    value = "";
  };
  registrations = registration "reg:a" ∷ registration "reg:b" ∷ [];
}

abbrev pub request : LiveWaitRequest
request = record {
  capabilities = [];
  message_id = "request";
  correlation_id = "corr";
  created_at = at_time 0;
  actor_ref = "actor";
  causation_id = none;
  grant_ref = none;
  verification_receipt_ref = some "receipt";
  policy_decision_ref = none;
  waiter_id = "waiter";
  registration_set_ref = "set";
  registration_revision = "1";
  logical_deadline = at_time 100;
  run_deadline = at_time 90;
}

abbrev pub poll_request : PollCycleRequest
poll_request = record {
  capabilities = [];
  message_id = "request";
  correlation_id = "corr";
  created_at = at_time 0;
  actor_ref = "actor";
  causation_id = none;
  grant_ref = none;
  verification_receipt_ref = some "receipt";
  policy_decision_ref = none;
  waiter_id = "waiter";
  registration_set_ref = "set";
  registration_revision = "1";
  logical_deadline = at_time 100;
  run_deadline = at_time 90;
  required_arms = "arm:a" ∷ "arm:b" ∷ [];
  fairness_cursor = "fair:arm:b";
  acknowledged_anchors = [];
  activation_ref = "activation";
  cycle_id = "cycle";
  bound = none;
}

abbrev event : String → String → WaitEvent
event id registration_id = record {
  event_id = id;
  registration_id = registration_id;
  source_instance_ref = "source";
  method_id = "method";
  subject_kind = "queue";
  subject_id = registration_id;
  occurred_at = at_time 1;
  observed_at = at_time 1;
  start_anchor = anchor "start";
  proposed_next_anchor = anchor id;
  replay_status = ReplayStatus.fresh;
  correlation_id = "corr";
  causation_id = none;
  payload = record {
    payload_ref = "payload";
    content_digest = record { algorithm = DigestAlgorithm.sha256; value = "digest" };
    media_type = none;
  };
  delivery_ref = none;
  activation_ref = none;
}

abbrev pub event_a : WaitEvent
event_a = event "a" "reg:a"

abbrev pub event_b : WaitEvent
event_b = event "b" "reg:b"

-- The time, and what was put back.
pub record World : Type 0 where
  pub time : ℕ
  pub back : List (ℕ × Observation)

abbrev pub world : ℕ → World
world n = record { time = n; back = [] }

abbrev pub both_ready : List (ℕ × Observation)
both_ready = (0, Observation.event event_a) ∷ (1, Observation.event event_b) ∷ []

abbrev name_of : ℕ → String
name_of zero = "reg:a"
name_of (suc i) = "reg:b"

abbrev pub observer : Observer World ℕ
observer = record {
  handle = record { registration_id = name_of; resolved_start = λ i. anchor "start" };
  poll_ready = λ bind w. (none, w);
  restore_ready = λ bind obs w. (ok tt, record w { back = (bind, obs) ∷ w.back });
  now = λ w. (at_time w.time, record w { time = suc w.time });
  is_cancelled = λ w. (false, w);
}

abbrev natural : ℤ → ℕ
natural (ℤ.pos n) = n
natural (ℤ.negsuc n) = 0

abbrev pub calendar : Calendar
calendar = record {
  checked_add = λ t s n. some (t + (natural s * 1_000_000_000 + natural n));
  checked_add_exact = λ t s n u h. sym (some-injective _ _ h);
  whole_seconds = λ t u. ℤ.pos ((u - t) / 1_000_000_000);
  subsec_nanoseconds = λ t u. ℤ.pos ((u - t) % 1_000_000_000);
  difference_exact = λ t u h. (refl, refl);
  to_utc = λ t. record {
    year = 2026;
    month = 1;
    day = 1;
    hour = 0;
    minute = 0;
    second = 0;
    nanosecond = t;
  };
  text = λ bytes. "";
}

-- Both arms bind at once and have an event.
abbrev pub runtime : Runtime World ℕ
runtime = record {
  observer = observer;
  calendar = calendar;
  select_bound = λ binds deadline w. (collected (record { ready = both_ready; error = none }), w);
  select_bind = λ registrations deadline w. (
    (
      collected (record {
        ready = (0, (0, Observation.event event_a)) ∷ (1, (1, Observation.event event_b)) ∷ [];
        error = none;
      }),
      0 ∷ 1 ∷ [],
    ),
    w,
  );
  pause = λ deadline w. (tt, w);
}

abbrev pub timed : Timed runtime
timed = record {
  time = λ w. w.time;
  now_after = λ w. omega arith;
  now_before = λ w. omega arith;
  polls = λ b w. omega arith;
  restores = λ b obs w. omega arith;
  asks = λ w. omega arith;
  pauses = λ t w. omega arith;
  bound_waits = λ bs t w. omega arith;
  bind_waits = λ rs t w. omega arith;
}

abbrev pub ledger : Ledger runtime
ledger = record { held = λ w. w.back; put = λ b obs w w' e. sym (ap (λ r. r.1.back) e) }

abbrev pub fresh_loop : Loop ℕ
fresh_loop = record { backoff_step = 0; bound = none; resolved = [] }

-- Both arms bind at once, and both are observed in the next round.
abbrev pub cycle_runtime : Poll.Runtime World ℕ
cycle_runtime = record {
  observer = observer;
  select_cycle = λ binds unbound deadline w. (
    (
      Poll.Wake.observed (record {
        ready = (0, Observation.event event_b) ∷ (1, Observation.event event_a) ∷ [];
        error = none;
      }),
      [],
    ),
    w,
  );
  select_first = λ bindings deadline w. (
    (Poll.FirstWake.bound (record { ready = (0, 1) ∷ (1, 0) ∷ []; error = none }), 1 ∷ 0 ∷ []),
    w,
  );
}
