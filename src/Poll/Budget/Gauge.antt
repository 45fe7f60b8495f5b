-- ===== src/Poll/Budget/Gauge.antt =====
-- crates/waitprims-async/src/poll_cycle.rs: what `CollectBudget` counts, and its limits.
use mathlib.Core.Path.{subst}
use waitprims.Prelude.{
  ℕ, ◌+◌, ◌≤◌, ◌<◌, ◌≡◌, refl, Bool, true, false, not, String, ltb, if◌then◌else◌, arith, ◌⊎◌, inl,
  inr, Map, lookup-insert, string_key, string_eq, ◌==◌,
}
use waitprims.Core.Types.{WaitEvent}
use waitprims.Poll.Budget.{
  CollectBudget, u64_max, get_or, saturating_add, wrapping_add, bump, event_surface_bytes,
  room_for_another_event, room_for_registration, charge, try_take,
}

-- A number that a budget keeps, and what an event that is taken adds to it.
pub record Gauge : Type 1 where
  pub weigh : WaitEvent → ℕ
  pub reads : CollectBudget → ℕ
  pub Limits : CollectBudget → Type 0
  pub limits_keep : (b : CollectBudget) (e : WaitEvent) → Limits b → Limits (try_take b e).1
  pub counts :
      (b : CollectBudget) (e : WaitEvent)
      → Limits b
      → reads (try_take b e).1 ≡ reads b + (if (try_take b e).0 then weigh e else 0)
  pub most : ℕ
  pub bounded : (b : CollectBudget) → Limits b → reads b ≤ most

-- No more events than the cycle may take.
pub record InEvents (most : ℕ) (b : CollectBudget) : Type 0 where
  pub same : b.max_events ≡ most
  pub limit : b.max_events ≤ u64_max
  pub within : b.events ≤ b.max_events

-- No more bytes than the cycle may take; the limit is short of the largest u64, at which the
-- count would stick.
pub record InBytes (most : ℕ) (b : CollectBudget) : Type 0 where
  pub same : b.max_bytes ≡ most
  pub limit : b.max_bytes < u64_max
  pub within : b.bytes ≤ b.max_bytes

-- No more events of one registration than its bounds say.
pub record InRegistration (rid : String) (most : ℕ) (b : CollectBudget) : Type 0 where
  pub same : get_or rid b.reg_max_events u64_max ≡ most
  pub limit : get_or rid b.reg_max_events u64_max ≤ u64_max
  pub within : get_or rid b.per_reg_events 0 ≤ get_or rid b.reg_max_events u64_max

-- What is tested before an event is taken.
pub record Fits (b : CollectBudget) (e : WaitEvent) : Type 0 where
  pub events : b.events < b.max_events
  pub bytes : saturating_add b.bytes (event_surface_bytes e) ≤ b.max_bytes
  pub of_registration :
      get_or e.registration_id b.per_reg_events 0
      < get_or e.registration_id b.reg_max_events u64_max

abbrev Outcome : CollectBudget → WaitEvent → Bool × CollectBudget → Type 0
Outcome b e r = (r ≡ (false, b)) ⊎ ((r ≡ (true, charge b e)) × Fits b e)

pub room_for_registration-lem :
    (b : CollectBudget) (rid : String)
    → room_for_registration b rid ≡ true
    → (b.events < b.max_events)
      × (get_or rid b.per_reg_events 0 < get_or rid b.reg_max_events u64_max)
unfolding room_for_registration room_for_another_event
room_for_registration-lem b rid h = (ground arith, ground arith)

try_take-cases : (b : CollectBudget) (e : WaitEvent) → Outcome b e (try_take b e)
unfolding try_take
try_take-cases b e =
    go (room_for_registration b e.registration_id) refl
      (ltb b.max_bytes (saturating_add b.bytes (event_surface_bytes e))) refl
      (ltb (get_or e.registration_id b.reg_max_bytes u64_max)
        (saturating_add (get_or e.registration_id b.per_reg_bytes 0) (event_surface_bytes e)))
  where
    go :
        (room : Bool)
        → room_for_registration b e.registration_id ≡ room
        → (over : Bool) → ltb b.max_bytes (saturating_add b.bytes (event_surface_bytes e)) ≡ over
        → (over_registration : Bool)
        → Outcome b e (
            if not room
            then (false, b)
            else if over
            then (false, b)
            else if over_registration
            then (false, b)
            else (true, charge b e))
    go false r over o p = inl refl
    go true r true o p = inl refl
    go true r false o true = inl refl
    go true r false o false =
        let room = room_for_registration-lem b e.registration_id r in
        inr (refl, record { events = room.0; bytes = ground arith; of_registration = room.1 })

module _ (weigh : WaitEvent → ℕ) (reads : CollectBudget → ℕ) (Limits : CollectBudget → Type 0)
    (charged : (b : CollectBudget) (e : WaitEvent)
      → Limits b
      → Fits b e
      → Limits (charge b e) × (reads (charge b e) ≡ reads b + weigh e))
    (most : ℕ) (bounded : (b : CollectBudget) → Limits b → reads b ≤ most) where
  unfoldable pub Stays : CollectBudget → WaitEvent → Bool × CollectBudget → Type 0
  Stays b e r = Limits r.1 × (reads r.1 ≡ reads b + (if r.0 then weigh e else 0))

  pub try_take-Stays : (b : CollectBudget) (e : WaitEvent) → Limits b → Stays b e (try_take b e)
  unfolding Stays
  try_take-Stays b e h = elim (try_take-cases b e) [
    | inl refused ↦ rw refused (h, omega arith)
    | inr (taken, fits) ↦ rw taken (charged b e h fits)
  ]

  unfoldable pub gauge : Gauge
  unfolding Stays
  gauge = record {
    weigh = weigh;
    reads = reads;
    Limits = Limits;
    limits_keep = λ b e h. (try_take-Stays b e h).0;
    counts = λ b e h. (try_take-Stays b e h).1;
    most = most;
    bounded = bounded;
  }

pub charge-InEvents :
    (most : ℕ) (b : CollectBudget) (e : WaitEvent)
    → InEvents most b
    → Fits b e
    → InEvents most (charge b e) × ((charge b e).events ≡ b.events + 1)
unfolding charge
charge-InEvents most b e h f = (
  record { same = h.same; limit = h.limit; within = omega (arith, f.events) },
  omega (arith, f.events, h.limit),
)

pub charge-InBytes :
    (most : ℕ) (b : CollectBudget) (e : WaitEvent)
    → InBytes most b
    → Fits b e
    → InBytes most (charge b e) × ((charge b e).bytes ≡ b.bytes + event_surface_bytes e)
unfolding charge
charge-InBytes most b e h f =
    (record { same = h.same; limit = h.limit; within = f.bytes }, omega (arith, f.bytes, h.limit))

abbrev pub of_registration : String → WaitEvent → ℕ
of_registration rid e = if e.registration_id == rid then 1 else 0

get_or-bump :
    (rid other : String) (m : Map String ℕ)
    → get_or other (bump rid 1 m) 0
      ≡ (if rid == other then wrapping_add (get_or rid m 0) 1 else get_or other m 0)
get_or-bump rid other m =
    ground (arith, lookup-insert rid other (wrapping_add (get_or rid m 0) 1) m)

charge-get_or :
    (rid : String) (most : ℕ) (b : CollectBudget) (e : WaitEvent)
    → InRegistration rid most b
    → Fits b e
    → (get_or rid (charge b e).per_reg_events 0
        ≡ get_or rid b.per_reg_events 0 + of_registration rid e)
      × (get_or rid (charge b e).per_reg_events 0 ≤ get_or rid b.reg_max_events u64_max)
unfolding charge
charge-get_or rid most b e h f =
    rw (get_or-bump e.registration_id rid b.per_reg_events)
      (by_name (e.registration_id == rid) refl)
  where
    by_name :
        (same : Bool)
        → (e.registration_id == rid) ≡ same
        → ((if same
              then wrapping_add (get_or e.registration_id b.per_reg_events 0) 1
              else get_or rid b.per_reg_events 0)
            ≡ get_or rid b.per_reg_events 0 + (if same then 1 else 0))
          × ((if same
                then wrapping_add (get_or e.registration_id b.per_reg_events 0) 1
                else get_or rid b.per_reg_events 0)
              ≤ get_or rid b.reg_max_events u64_max)
    by_name true s =
        let fits =
          subst (λ r. get_or r b.per_reg_events 0 < get_or r b.reg_max_events u64_max)
            ((string_eq.decides e.registration_id rid).0 s) f.of_registration in
        rw ((string_eq.decides e.registration_id rid).0 s)
          (omega (arith, fits, h.limit), omega (arith, fits, h.limit))
    by_name false s = (omega arith, h.within)

pub charge-InRegistration :
    (rid : String) (most : ℕ) (b : CollectBudget) (e : WaitEvent)
    → InRegistration rid most b
    → Fits b e
    → InRegistration rid most (charge b e)
      × (get_or rid (charge b e).per_reg_events 0
          ≡ get_or rid b.per_reg_events 0 + of_registration rid e)
charge-InRegistration rid most b e h f =
    let counted = charge-get_or rid most b e h f in
    (unfold charge in record { same = h.same; limit = h.limit; within = counted.1 }, counted.0)

unfoldable pub events_gauge : ℕ → Gauge
unfolding gauge
events_gauge most =
    gauge (λ e. 1) (λ b. b.events) (InEvents most) (charge-InEvents most) most
      (λ b h. omega (arith, h.same, h.within))

unfoldable pub bytes_gauge : ℕ → Gauge
unfolding gauge
bytes_gauge most =
    gauge event_surface_bytes (λ b. b.bytes) (InBytes most) (charge-InBytes most) most
      (λ b h. omega (arith, h.same, h.within))

unfoldable pub registration_gauge : String → ℕ → Gauge
unfolding gauge
registration_gauge rid most =
    gauge (of_registration rid) (λ b. get_or rid b.per_reg_events 0) (InRegistration rid most)
      (charge-InRegistration rid most) most (λ b h. omega (arith, h.same, h.within))
