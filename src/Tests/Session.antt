-- ===== src/Tests/Session.antt =====
-- Held sessions of two arms, whose events come from a list. The token cancels once it was asked so
-- often.
use waitprims.Prelude.{
  ℕ, ◌-◌, ◌≡◌, ◌≢◌, ◌⊎◌, refl, false, ◌||◌, Option, none, some, List, [], ◌∷◌, ◌==◌, ℕ_eq, arith,
  any,
}
use waitprims.Core.Error.{Result, ok}
use waitprims.Core.Time.{◌≥ᵗ◌}
use waitprims.Core.Types.{WaitEvent}
use waitprims.Observer.{Observation}
use waitprims.Race.{Poll}
use waitprims.Follow
use waitprims.Follow.{earliest_wake, at_deadline, lease_over, posture_err}
use waitprims.Follow.Wake.{earliest_wake_lem}
use waitprims.Follow.Slots.{Runtime, SlotSet, new}
use waitprims.Follow.Slots
use waitprims.Follow.Slots.Custody.{Account, Books, gives, sinks, takes_back, Balanced}
use waitprims.Follow.Slots.Settled.{Quiescent, poll_available-Quiescent}
use waitprims.Observer.{◌>>=◌}
use waitprims.Core.Messages.{RegistrationSet}
use waitprims.Follow.Runner.{
  run_follow, decide_turn, admit, iteration, on_selected, collect, finish_cancel,
}
use waitprims.Follow.Runner.Conserved.Session.{run_follow-Balanced}
use waitprims.Follow.Runner.Gate.{IsOpen, decide_turn-Gate}
use waitprims.Tests.Data.{set, request, event_a, event_b, at_time, calendar, observer, registration}

pub record Desk : Type 0 where
  pub script : List WaitEvent
  pub account : Account
  pub patience : ℕ

abbrev pub nothing : Account
nothing = record { given = []; returned = []; sunk = []; broken = false }

abbrev pub desk : List WaitEvent → ℕ → Desk
desk script patience = record { script = script; account = nothing; patience = patience }

abbrev pub next_of : Desk → Poll (Result Observation) × Desk
next_of w = elim w.script [
  | [] ↦ (Poll.pending, w)
  | e ∷ es ↦ (
    Poll.ready (ok (Observation.event e)),
    record w { script = es; account = gives (some e) w.account },
  )
]

abbrev pub session : Runtime Desk ℕ
session = record {
  observer = record {
    handle = observer.handle;
    poll_ready = λ b w. (none, w);
    restore_ready = λ b obs w.
        (ok tt, record w { account = takes_back (ok tt) (Slots.event_in (some obs)) w.account });
    now = λ w. (at_time 5, w);
    is_cancelled = λ w. (w.patience == 0, record w { patience = w.patience - 1 });
  };
  calendar = calendar;
  poll_bind = λ i w. (Poll.ready (ok i), w);
  poll_next = λ i b w. next_of w;
  on_burst = λ es w. (ok tt, record w { account = sinks (ok tt) es w.account });
  wakes = λ t w. (some Slots.cancelled, w);
  pause = λ t w. (tt, w);
}

pub next_account :
    (w : Desk)
    → (next_of w).1.account ≡ gives (waitprims.Follow.Slots.Custody.got (next_of w).0) w.account
next_account w = ground arith

abbrev pub books : Books session
books = record {
  account = λ w. w.account;
  bind_account = λ i w. refl;
  next_account = λ i b w. next_account w;
  ready_account = λ b w. refl;
  restore_account = λ b obs w. refl;
  burst_account = λ es w. refl;
  now_account = λ w. refl;
  token_account = λ w. refl;
  wakes_account = λ t w. refl;
  pause_account = λ t w. refl;
}

-- One arm.
abbrev pub lone : RegistrationSet
lone = record set { registrations = registration "reg:a" ∷ [] }

-- The event was dequeued in the turn in which the token cancels, so it is put back.
abbrev after_cancel : Desk
after_cancel = record {
  script = [];
  account = record { given = event_a ∷ []; returned = event_a ∷ []; sunk = []; broken = false };
  patience = 0;
}

followed :
    run_follow session lone request 1 1 (desk (event_a ∷ []) 1)
    ≡ (ok (some Follow.cancel), after_cancel)
unfolding run_follow ◌>>=◌ admit Follow.resolve Follow.deadline_order posture_err iteration
    on_selected collect Slots.poll_available Slots.pass new Slots.has_terminal_obs decide_turn
    finish_cancel Slots.drain_replayable Slots.replayable_in Slots.restore_harvested Follow.earliest
    Follow.earliest_deadline Follow.earliest_lease earliest_wake
followed = refl

some_end : ◌≢◌ {A = Result (Option Follow.FollowEnd)} (ok (some Follow.cancel)) (ok none)
some_end h = cc

run_follow-Balanced_example : Balanced (λ e. 1) 0 after_cancel.account
run_follow-Balanced_example =
    run_follow-Balanced session books (λ e. 1) lone request 1 1 (desk (event_a ∷ []) 1) after_cancel
      (ok (some Follow.cancel)) (λ c. refl) followed some_end

poll_available-Quiescent_example :
    Quiescent session
      (new set.registrations, desk (event_a ∷ event_b ∷ []) 1)
      (Slots.poll_available session (new set.registrations) (desk (event_a ∷ event_b ∷ []) 1))
poll_available-Quiescent_example =
    poll_available-Quiescent session (new set.registrations) (desk (event_a ∷ event_b ∷ []) 1)

-- A slot that holds an event, which the turn gives to the sink.
abbrev holding : SlotSet ℕ
holding = record {
  slots =
      record {
        registration = registration "reg:a";
        binding = false;
        bind = some 0;
        asking = false;
        harvested = some (Observation.event event_a);
      }
      ∷ [];
  fault = none;
}

sinks_it :
    (decide_turn session lone request (at_time 5) (holding, desk [] 5)).1.1.account.sunk
    ≡ event_a ∷ []
unfolding decide_turn posture_err ◌>>=◌ Slots.take_events Slots.events_in Slots.first_terminal
    Slots.deadline_end
sinks_it = refl

decide_turn-Gate_example :
    ((decide_turn session lone request (at_time 5) (holding, desk [] 5)).1.1.account.sunk ≡ [])
    ⊎ (IsOpen lone request (at_time 5) × ((holding.fault ≡ none) × (false ≡ false)))
decide_turn-Gate_example =
    decide_turn-Gate session books lone request (at_time 5) (holding, desk [] 5)

earliest_wake_lem_example :
    (at_time 20 ≥ᵗ earliest_wake set request)
    ≡ (at_deadline request (at_time 20) || any (lease_over (at_time 20)) set.registrations)
earliest_wake_lem_example = earliest_wake_lem set request (at_time 20)
