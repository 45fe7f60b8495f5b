-- ===== src/Tests/Coalesced.antt =====
-- Coalescing sessions of one arm or two, whose events come from a list.
use waitprims.Prelude.{
  ℕ, ◌≡◌, refl, true, false, Option, none, some, List, [], ◌∷◌, arith, lookup, insert,
}
use waitprims.Core.Error.{ok}
use waitprims.Core.Time.{Timestamp, saturating_add, as_i64, as_i32}
use waitprims.Core.Types.{WaitEvent}
use waitprims.Core.Messages.{RegistrationSet}
use waitprims.Observer.{◌>>=◌}
use waitprims.Poll.Budget.{event_surface_bytes}
use waitprims.Follow.{posture_err, earliest_wake}
use waitprims.Follow
use waitprims.Follow.Slots.{new}
use waitprims.Follow.Slots
use waitprims.Follow.Slots.Custody.{Balanced}
use waitprims.Follow.Runner.{admit, collect, again, select_turn}
use waitprims.Coalesce.{CoalescePolicy, policy_of, empty, push_all, is_urgent, sort_turn, try_push}
use waitprims.Coalesce.Fifo.{Ordered, push_all-Ordered}
use waitprims.Coalesce.Within.{Finite, of}
use waitprims.Coalesce.Within.Turns.{FilledWithin, push_all-Within, empty-Within}
use waitprims.Coalesce.Runner.{
  Alarm, Session, cancelled, apply_turn, run_coalesce, iteration, decide_coalesce, final_flush,
  on_selected,
}
use waitprims.Coalesce.Runner.Order.{Quiet, apply_turn-Fifo}
use waitprims.Coalesce.Runner.Conserved.Rounds.{run_coalesce-Balanced, iteration-Steady}
use waitprims.Coalesce.Runner.Conserved.Whole.{Steady}
use waitprims.Tests.Data.{set, request, event_a, event_b, at_time, registration as arm}
use waitprims.Tests.Session.{Desk, desk, nothing, session, books, lone}

abbrev policy : CoalescePolicy
policy = policy_of 10

abbrev alarms : Timestamp → Option Timestamp → Desk → Option Alarm × Desk
alarms t q w = (some cancelled, w)

finite : Finite lone
finite = record {
  events_finite = omega arith;
  bytes_finite = omega arith;
  events_finite_of = λ rid reg h. ground arith;
  bytes_finite_of = λ rid reg h. ground arith;
}

push_all-Ordered_example :
    Ordered set (event_a ∷ event_b ∷ []) (push_all set (event_a ∷ event_b ∷ []) empty)
push_all-Ordered_example = push_all-Ordered set (event_a ∷ event_b ∷ []) empty

push_all-Within_example : FilledWithin lone finite (push_all lone (event_a ∷ []) empty)
push_all-Within_example =
    push_all-Within lone finite (event_a ∷ []) empty (empty-Within lone finite)

-- The second arm is urgent.
abbrev mixed : RegistrationSet
mixed = record set {
  registrations = arm "reg:a" ∷ record (arm "reg:b") { priority = some 100 } ∷ [];
}

abbrev holding : List WaitEvent → Session Desk ℕ
holding sunk = (
  record {
    pending = record empty { events = event_a ∷ [] };
    next_quiet_emit_at = some (at_time 15);
  },
  (
    record { slots = []; fault = none },
    record (desk [] 9) { account = record nothing { sunk = sunk } },
  ),
)

overtaken :
    apply_turn session mixed policy (at_time 5) (event_b ∷ []) (holding [])
    ≡ (ok none, holding (event_b ∷ []))
unfolding apply_turn ◌>>=◌ is_urgent sort_turn
overtaken = refl

calm : Quiet mixed policy.urgent_at (holding []).0.pending.events
unfolding is_urgent
calm = (refl, tt)

apply_turn-Fifo_example :
    Quiet mixed policy.urgent_at (holding (event_b ∷ [])).0.pending.events
    × (of "reg:a" (event_b ∷ event_a ∷ []) ≡ of "reg:a" (event_a ∷ event_b ∷ []))
apply_turn-Fifo_example =
    apply_turn-Fifo session books mixed policy "reg:a" (at_time 5) (event_b ∷ []) (holding [])
      (holding (event_b ∷ [])) calm overtaken

-- The token says at once that the consumer cancelled: the last turn is taken in and flushed.
abbrev flushed : Desk
flushed = record {
  script = [];
  account = record { given = event_a ∷ []; returned = []; sunk = event_a ∷ []; broken = false };
  patience = 0;
}

coalesced :
    run_coalesce session lone policy request alarms 1 1 (desk (event_a ∷ []) 0)
    ≡ (ok (some Follow.cancel), flushed)
unfolding run_coalesce ◌>>=◌ admit Follow.resolve Follow.deadline_order posture_err iteration
    decide_coalesce final_flush push_all try_push Slots.take_events Slots.events_in
    Slots.first_terminal Slots.poll_available Slots.pass new Slots.harvest_poll_ready
    Slots.deadline_end event_surface_bytes lookup insert
coalesced = refl

run_coalesce-Balanced_example : Balanced (λ e. 1) 0 flushed.account
run_coalesce-Balanced_example =
    run_coalesce-Balanced session books (λ e. 1) lone finite policy request alarms (λ t q w. refl) 1
      1 (desk (event_a ∷ []) 0) flushed Follow.cancel (λ c. refl) coalesced (λ rid h. cc)

abbrev opening : Session Desk ℕ
opening = (
  record { pending = empty; next_quiet_emit_at = none },
  (new lone.registrations, desk (event_a ∷ []) 9),
)

abbrev buffered : Session Desk ℕ
buffered = (
  record {
    pending = record {
      events = event_a ∷ [];
      total_events = 1;
      total_bytes = 13;
      per_events = ("reg:a", 1) ∷ [];
      per_bytes = ("reg:a", 13) ∷ [];
    };
    next_quiet_emit_at = some (at_time 15);
  },
  (
    record {
      slots =
          record {
            registration = arm "reg:a";
            binding = false;
            bind = some 0;
            asking = true;
            harvested = none;
          }
          ∷ [];
      fault = none;
    },
    record {
      script = [];
      account = record { given = event_a ∷ []; returned = []; sunk = []; broken = false };
      patience = 7;
    },
  ),
)

rounded : iteration session lone policy request alarms 1 0 opening ≡ (ok (again 0), buffered)
unfolding ◌>>=◌ select_turn posture_err iteration decide_coalesce on_selected collect apply_turn
    push_all try_push is_urgent Slots.take_events Slots.events_in Slots.first_terminal
    Slots.poll_available Slots.pass new Slots.rearm_idle Slots.has_terminal_obs event_surface_bytes
    lookup insert saturating_add as_i64 as_i32 earliest_wake Follow.earliest Follow.earliest_lease
    Follow.earliest_deadline
rounded = refl

opened : Steady session books (λ e. 1) lone finite opening
unfolding new Slots.events_in
opened = (empty-Within lone finite, (((λ h. cc), tt), λ c. refl))

iteration-Steady_example : Steady session books (λ e. 1) lone finite buffered
iteration-Steady_example =
    iteration-Steady session books (λ e. 1) lone finite policy request alarms (λ t q w. refl) 1 0 0
      opening buffered opened rounded
