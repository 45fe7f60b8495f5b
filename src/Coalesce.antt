-- ===== src/Coalesce.antt =====
-- crates/waitprims-async/src/coalesce.rs: the pending buffer, and what is urgent. The counters are
-- u64 and their sums stop at the largest value.
pub mod Runner
pub mod Fifo
pub mod Within
use waitprims.Prelude.{
  ℕ, Bool, true, false, not, ◌&&◌, ◌||◌, String, Option, none, some, List, [], ◌∷◌, ◌++◌, Map,
  lookup, insert, string_key, any, find, ltb, leb, ◌==◌, string_eq, if◌then◌else◌,
}
use waitprims.Core.Refs.{IdToken}
use waitprims.Core.Time.{Timestamp, ◌≥ᵗ◌}
use waitprims.Core.Types.{Registration, WaitEvent}
use waitprims.Core.Messages.{RegistrationSet}
use waitprims.Poll.Budget.{event_surface_bytes, saturating_add, get_or}
use waitprims.Follow.{FollowEnd, terminal_arm, TerminalArmKind}

-- PRIORITY_NORMAL and PRIORITY_URGENT of crates/waitprims-core/src/types.rs
abbrev pub priority_normal : ℕ
priority_normal = 50

abbrev pub priority_urgent : ℕ
priority_urgent = 100

-- The interval is in nanoseconds.
pub record CoalescePolicy : Type 0 where
  pub min_emit_interval : ℕ
  pub urgent_at : ℕ

-- CoalescePolicy::new
abbrev pub policy_of : ℕ → CoalescePolicy
policy_of interval = record { min_emit_interval = interval; urgent_at = priority_urgent }

pub record Pending : Type 0 where
  pub events : List WaitEvent
  pub total_events : ℕ
  pub total_bytes : ℕ
  pub per_events : Map String ℕ
  pub per_bytes : Map String ℕ

-- Pending::new, and what `take` leaves.
abbrev pub empty : Pending
empty = record { events = []; total_events = 0; total_bytes = 0; per_events = []; per_bytes = [] }

abbrev pub is_empty : Pending → Bool
is_empty p = elim p.events [ [] ↦ true | e ∷ es ↦ false ]

abbrev pub registration : RegistrationSet → IdToken → Option Registration
registration set id = find (λ (reg : Registration). reg.registration_id == id) set.registrations

abbrev pub effective_priority : Registration → ℕ
effective_priority reg = elim reg.priority [ none ↦ priority_normal | some p ↦ p ]

unfoldable pub is_urgent : RegistrationSet → ℕ → WaitEvent → Bool
is_urgent set urgent_at event = elim (registration set event.registration_id) [
  | none ↦ false
  | some reg ↦ leb urgent_at (effective_priority reg)
]

pub data Pushed : Type 0 where
  pushed : Pending → Pushed
  refused : IdToken → Pushed

abbrev push_within : WaitEvent → Pending → Registration → Pushed
push_within event p reg =
    let rid = event.registration_id in
    let bytes = event_surface_bytes event in
    let per_e = saturating_add (get_or rid p.per_events 0) 1 in
    let per_b = saturating_add (get_or rid p.per_bytes 0) bytes in
    if ltb reg.bounds.max_events per_e || ltb reg.bounds.max_bytes per_b
    then refused rid
    else pushed (record {
      events = p.events ++ event ∷ [];
      total_events = saturating_add p.total_events 1;
      total_bytes = saturating_add p.total_bytes bytes;
      per_events = insert rid per_e p.per_events;
      per_bytes = insert rid per_b p.per_bytes;
    })

abbrev push_registered : WaitEvent → Pending → Option Registration → Pushed
push_registered event p none = refused event.registration_id
push_registered event p (some reg) = push_within event p reg

-- Pending::try_push: the buffer afterwards, or the registration that it refuses.
unfoldable pub try_push : RegistrationSet → WaitEvent → Pending → Pushed
try_push set event p =
    let next_events = saturating_add p.total_events 1 in
    let next_bytes = saturating_add p.total_bytes (event_surface_bytes event) in
    if ltb set.aggregate_limits.max_events next_events
      || ltb set.aggregate_limits.max_bytes next_bytes
    then refused event.registration_id
    else push_registered event p (registration set event.registration_id)

-- A loop that pushes events: all are pushed, or one is refused and what is not sunk is gathered.
pub data Filled (S : Type 0) : Type 0 where
  filled : S → Filled S
  overflowed : List WaitEvent → IdToken → Filled S

abbrev pub chain : {S : Type 0} → Filled S → (S → Filled S) → Filled S
chain (filled s) next = next s
chain (overflowed unsunk rid) next = overflowed unsunk rid

-- One event, with those that are left.
abbrev pub push_one : RegistrationSet → WaitEvent → List WaitEvent → Pending → Filled Pending
push_one set event rest p = elim (try_push set event p) [
  | pushed p' ↦ filled p'
  | refused rid ↦ overflowed (p.events ++ event ∷ rest) rid
]

-- `while let Some(event) = rest.next()` with `try_push`.
unfoldable pub push_all : RegistrationSet → List WaitEvent → Pending → Filled Pending
push_all set [] p = filled p
push_all set (event ∷ rest) p = chain (push_one set event rest p) (λ p'. push_all set rest p')

-- The buffer, the urgent events of the turn, and the time of the next quiet emit.
pub record Sorted : Type 0 where
  pub pending : Pending
  pub urgent : List WaitEvent
  pub next_quiet_emit_at : Option Timestamp

abbrev pub or_at : Option Timestamp → Timestamp → Option Timestamp
or_at none t = some t
or_at (some u) t = some u

-- One event of a turn with urgent events, before the interval is due.
abbrev pub sort_event :
    RegistrationSet → ℕ → Timestamp → WaitEvent → List WaitEvent → Sorted → Filled Sorted
sort_event set urgent_at due event rest s =
    if is_urgent set urgent_at event
    then filled (record s { urgent = s.urgent ++ event ∷ [] })
    else elim (try_push set event s.pending) [
      | pushed p ↦
          filled (record s { pending = p; next_quiet_emit_at = or_at s.next_quiet_emit_at due })
      | refused rid ↦ overflowed (s.pending.events ++ event ∷ s.urgent ++ rest) rid
    ]

-- The loop over such a turn.
unfoldable pub sort_turn : RegistrationSet → ℕ → Timestamp → List WaitEvent → Sorted → Filled Sorted
sort_turn set urgent_at due [] s = filled s
sort_turn set urgent_at due (event ∷ rest) s =
    chain (sort_event set urgent_at due event rest s) (λ s'. sort_turn set urgent_at due rest s')

abbrev pub interval_is_due : Option Timestamp → Timestamp → Bool
interval_is_due none now = false
interval_is_due (some at) now = now ≥ᵗ at

abbrev pub overflow_end : IdToken → FollowEnd
overflow_end rid = terminal_arm rid TerminalArmKind.overflow "buffer_overflow"
