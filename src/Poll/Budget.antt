-- ===== src/Poll/Budget.antt =====
-- crates/waitprims-async/src/poll_cycle.rs: the weight of an event and `CollectBudget`. Counters
-- are u64: `saturating_add` stops at the largest value, and a plain `+=` wraps.
pub mod Gauge
use waitprims.Prelude.{
  ℕ, ◌+◌, ◌-◌, ◌%◌, ◌^◌, min, Bool, true, false, not, ◌&&◌, ◌||◌, String, Option, none, some, List,
  [], ◌∷◌, map, ltb, if◌then◌else◌, Map, lookup, insert, collect, string_key,
}
use Prim.Native.String.{len}
use waitprims.Core.Types.{Registration, WaitEvent, PollBound}
use waitprims.Core.Messages.{RegistrationSet, PollCycleRequest}

abbrev pub u64_max : ℕ
u64_max = 18_446_744_073_709_551_615

abbrev pub saturating_add : ℕ → ℕ → ℕ
saturating_add a b = min (a + b) u64_max

abbrev pub wrapping_add : ℕ → ℕ → ℕ
wrapping_add a b = (a + b) % 18_446_744_073_709_551_616

abbrev pub unwrap_or : Option ℕ → ℕ → ℕ
unwrap_or none d = d
unwrap_or (some n) d = n

abbrev media_len : Option String → ℕ
media_len none = 0
media_len (some media_type) = len media_type

-- Lengths of texts in memory; their sum is far below the limit of a u64.
unfoldable pub event_surface_bytes : WaitEvent → ℕ
event_surface_bytes event =
    len event.payload.payload_ref
    + len event.payload.content_digest.value
    + media_len event.payload.media_type

pub record CollectBudget : Type 0 where
  pub max_events : ℕ
  pub max_payload_refs : ℕ
  pub max_bytes : ℕ
  pub events : ℕ
  pub payload_refs : ℕ
  pub bytes : ℕ
  pub per_reg_events : Map String ℕ
  pub per_reg_bytes : Map String ℕ
  pub reg_max_events : Map String ℕ
  pub reg_max_bytes : Map String ℕ

abbrev pub event_limit : Registration → String × ℕ
event_limit reg = (reg.registration_id, reg.bounds.max_events)

abbrev byte_limit : Registration → String × ℕ
byte_limit reg = (reg.registration_id, reg.bounds.max_bytes)

abbrev pub bound_of : Option PollBound → (PollBound → Option ℕ) → ℕ
bound_of none field = u64_max
bound_of (some bound) field = unwrap_or (field bound) u64_max

unfoldable pub new : RegistrationSet → PollCycleRequest → CollectBudget
new set request = record {
  max_events = min set.aggregate_limits.max_events (bound_of request.bound (λ b. b.max_events));
  max_payload_refs = bound_of request.bound (λ b. b.max_payload_refs);
  max_bytes = min set.aggregate_limits.max_bytes (bound_of request.bound (λ b. b.max_bytes));
  events = 0;
  payload_refs = 0;
  bytes = 0;
  per_reg_events = [];
  per_reg_bytes = [];
  reg_max_events = collect [] (map event_limit set.registrations);
  reg_max_bytes = collect [] (map byte_limit set.registrations);
}

-- get(…).copied().unwrap_or(d)
abbrev pub get_or : String → Map String ℕ → ℕ → ℕ
get_or rid m d = unwrap_or (lookup rid m) d

unfoldable pub room_for_another_event : CollectBudget → Bool
room_for_another_event b =
    ltb b.events b.max_events && ltb b.payload_refs b.max_payload_refs && ltb b.bytes b.max_bytes

unfoldable pub room_for_registration : CollectBudget → String → Bool
unfolding room_for_another_event
room_for_registration b rid =
    if not (room_for_another_event b)
    then false
    else ltb (get_or rid b.per_reg_events 0) (get_or rid b.reg_max_events u64_max)
      && ltb (get_or rid b.per_reg_bytes 0) (get_or rid b.reg_max_bytes u64_max)

unfoldable pub exhausted : CollectBudget → Bool
unfolding room_for_another_event
exhausted b = not (room_for_another_event b)

-- *entry(rid).or_insert(0) += n
abbrev pub bump : String → ℕ → Map String ℕ → Map String ℕ
bump rid n m = insert rid (wrapping_add (get_or rid m 0) n) m

unfoldable pub charge : CollectBudget → WaitEvent → CollectBudget
charge b event = record b {
  events = saturating_add b.events 1;
  payload_refs = saturating_add b.payload_refs 1;
  bytes = saturating_add b.bytes (event_surface_bytes event);
  per_reg_events = bump event.registration_id 1 b.per_reg_events;
  per_reg_bytes = bump event.registration_id (event_surface_bytes event) b.per_reg_bytes;
}

-- try_take: the budget comes back, charged if the event was taken.
unfoldable pub try_take : CollectBudget → WaitEvent → Bool × CollectBudget
unfolding charge room_for_registration
try_take b event =
    let rid = event.registration_id in
    let weight = event_surface_bytes event in
    let reg_bytes = get_or rid b.per_reg_bytes 0 in
    let max_b = get_or rid b.reg_max_bytes u64_max in
    if not (room_for_registration b rid)
    then (false, b)
    else if ltb b.max_bytes (saturating_add b.bytes weight)
    then (false, b)
    else if ltb max_b (saturating_add reg_bytes weight)
    then (false, b)
    else (true, charge b event)
