-- ===== src/Coalesce/Within.antt =====
-- crates/waitprims-async/src/coalesce.rs: the counters of the buffer, and the limits.
pub mod Turns
use mathlib.Core.Path.{subst}
use mathlib.Core.Option.{some-injective}
use native.Mathlib.Omega.{arith}
use waitprims.Prelude.{
  ℕ, ◌+◌, ◌≤◌, ◌<◌, ◌≡◌, refl, sym, ap, ◌∙◌, Bool, true, false, String, Option, none, some, List,
  [], ◌∷◌, ◌++◌, Map, lookup, insert, lookup-insert, string_key, length, length-append, keep,
  keep-append, ltb, ◌==◌, string_eq, if◌then◌else◌, Bool-cases, ◌⊎◌, inl, inr, min, ◌||◌, if_both,
}
use waitprims.Core.Refs.{IdToken}
use waitprims.Core.Time.{Timestamp}
use waitprims.Core.Types.{Registration, WaitEvent}
use waitprims.Core.Messages.{RegistrationSet}
use waitprims.Poll.Budget.{event_surface_bytes, saturating_add, get_or, u64_max, unwrap_or}
use waitprims.Follow.Slots.Custody.{weigh, weigh-append}
use waitprims.Coalesce.{
  Pending, Pushed, pushed, refused, push_within, push_registered, try_push, registration, Filled,
  filled, overflowed, chain, push_one, push_all, Sorted, sort_event, sort_turn, is_urgent, or_at,
  empty,
}

-- The events of one registration, in their order.
abbrev pub of : IdToken → List WaitEvent → List WaitEvent
of rid = keep (λ e. e.registration_id == rid)

-- The counters are exact, and the events are within the limits of the set and of each registration.
pub record Within (set : RegistrationSet) (p : Pending) : Type 0 where
  pub counted : p.total_events ≡ length p.events
  pub summed : p.total_bytes ≡ weigh event_surface_bytes p.events
  pub counted_of : (rid : IdToken) → get_or rid p.per_events 0 ≡ length (of rid p.events)
  pub summed_of :
      (rid : IdToken) → get_or rid p.per_bytes 0 ≡ weigh event_surface_bytes (of rid p.events)
  pub events_fit : length p.events ≤ set.aggregate_limits.max_events
  pub bytes_fit : weigh event_surface_bytes p.events ≤ set.aggregate_limits.max_bytes
  pub events_fit_of :
      (rid : IdToken) (reg : Registration)
      → registration set rid ≡ some reg
      → length (of rid p.events) ≤ reg.bounds.max_events
  pub bytes_fit_of :
      (rid : IdToken) (reg : Registration)
      → registration set rid ≡ some reg
      → weigh event_surface_bytes (of rid p.events) ≤ reg.bounds.max_bytes

-- No limit is the largest u64, where a sum that stops there could hide an event.
pub record Finite (set : RegistrationSet) : Type 0 where
  pub events_finite : set.aggregate_limits.max_events < u64_max
  pub bytes_finite : set.aggregate_limits.max_bytes < u64_max
  pub events_finite_of :
      (rid : IdToken) (reg : Registration)
      → registration set rid ≡ some reg
      → reg.bounds.max_events < u64_max
  pub bytes_finite_of :
      (rid : IdToken) (reg : Registration)
      → registration set rid ≡ some reg
      → reg.bounds.max_bytes < u64_max

-- What a push that is not refused has found.
record Admitted (set : RegistrationSet) (e : WaitEvent) (p p' : Pending) : Type 0 where
  reg : Registration
  registered : registration set e.registration_id ≡ some reg
  total_events : p'.total_events ≡ saturating_add p.total_events 1
  total_bytes : p'.total_bytes ≡ saturating_add p.total_bytes (event_surface_bytes e)
  events : p'.events ≡ p.events ++ e ∷ []
  per_events :
      p'.per_events
      ≡ insert e.registration_id
          (saturating_add (get_or e.registration_id p.per_events 0) 1)
          p.per_events
  per_bytes :
      p'.per_bytes
      ≡ insert e.registration_id
          (saturating_add (get_or e.registration_id p.per_bytes 0) (event_surface_bytes e))
          p.per_bytes
  events_below : p'.total_events ≤ set.aggregate_limits.max_events
  bytes_below : p'.total_bytes ≤ set.aggregate_limits.max_bytes
  events_below_of :
      saturating_add (get_or e.registration_id p.per_events 0) 1 ≤ reg.bounds.max_events
  bytes_below_of :
      saturating_add (get_or e.registration_id p.per_bytes 0) (event_surface_bytes e)
      ≤ reg.bounds.max_bytes

within_both : (a b c d : ℕ) → (ltb a b || ltb c d) ≡ false → (b ≤ a) × (d ≤ c)
within_both a b c d h = ground arith

module _ (set : RegistrationSet) (e : WaitEvent) (p : Pending) where
  abbrev Fits : Pushed → Type 0
  Fits (pushed p') = Admitted set e p p'
  Fits (refused rid) = Unit

  abbrev events_next : ℕ
  events_next = saturating_add p.total_events 1

  abbrev bytes_next : ℕ
  bytes_next = saturating_add p.total_bytes (event_surface_bytes e)

  abbrev per_e : ℕ
  per_e = saturating_add (get_or e.registration_id p.per_events 0) 1

  abbrev per_b : ℕ
  per_b = saturating_add (get_or e.registration_id p.per_bytes 0) (event_surface_bytes e)

  push_registered-Fits :
      (o : Option Registration)
      → registration set e.registration_id ≡ o
      → (events_next ≤ set.aggregate_limits.max_events)
        × (bytes_next ≤ set.aggregate_limits.max_bytes)
      → Fits (push_registered e p o)
  push_registered-Fits none r a = tt
  push_registered-Fits (some reg) r a =
      if_both Fits (ltb reg.bounds.max_events per_e || ltb reg.bounds.max_bytes per_b) (λ h. tt)
        λ h.
          let b = within_both reg.bounds.max_events per_e reg.bounds.max_bytes per_b h in
          record {
            reg = reg;
            registered = r;
            total_events = refl;
            total_bytes = refl;
            events = refl;
            per_events = refl;
            per_bytes = refl;
            events_below = a.0;
            bytes_below = a.1;
            events_below_of = b.0;
            bytes_below_of = b.1;
          }

  try_push-Fits : Fits (try_push set e p)
  unfolding try_push
  try_push-Fits =
      if_both Fits
        (ltb set.aggregate_limits.max_events events_next
          || ltb set.aggregate_limits.max_bytes bytes_next)
        (λ h. tt)
        λ h. push_registered-Fits (registration set e.registration_id) refl (
          within_both set.aggregate_limits.max_events events_next set.aggregate_limits.max_bytes
            bytes_next h)

-- A sum that stays below the largest u64 is the sum.
exact : (a b m : ℕ) → saturating_add a b ≤ m → m < u64_max → saturating_add a b ≡ a + b
exact a b m h k = ground arith

get_or-insert :
    (rid k : String) (v : ℕ) (m : Map String ℕ)
    → get_or rid (insert k v m) 0 ≡ (if k == rid then v else get_or rid m 0)
get_or-insert rid k v m = ap (λ o. unwrap_or o 0) (lookup-insert k rid v m) ∙ go (k == rid)
  where
    go :
        (b : Bool)
        → unwrap_or (if b then some v else lookup rid m) 0 ≡ (if b then v else get_or rid m 0)
    go true = refl
    go false = refl

length-of :
    (rid : IdToken) (es : List WaitEvent) (e : WaitEvent)
    → length (of rid (es ++ e ∷ []))
      ≡ (if e.registration_id == rid then length (of rid es) + 1 else length (of rid es))
length-of rid es e = ground (
  arith,
  keep-append (λ x. x.registration_id == rid) es (e ∷ []),
  length-append (of rid es) (of rid (e ∷ [])),
)

weigh-of :
    (f : WaitEvent → ℕ) (rid : IdToken) (es : List WaitEvent) (e : WaitEvent)
    → weigh f (of rid (es ++ e ∷ []))
      ≡ (if e.registration_id == rid then weigh f (of rid es) + f e else weigh f (of rid es))
weigh-of f rid es e = ground (
  arith,
  keep-append (λ x. x.registration_id == rid) es (e ∷ []),
  weigh-append f (of rid es) (of rid (e ∷ [])),
)

module _ (set : RegistrationSet) (e : WaitEvent) (p p' : Pending) (finite : Finite set)
    (w : Within set p) (a : Admitted set e p p') where
  per_e-exact : per_e set e p ≡ length (of e.registration_id p.events) + 1
  per_e-exact =
      exact (get_or e.registration_id p.per_events 0) 1 a.reg.bounds.max_events a.events_below_of
        (finite.events_finite_of e.registration_id a.reg a.registered)
      ∙ ap (λ n. n + 1) (w.counted_of e.registration_id)

  per_b-exact :
      per_b set e p
      ≡ weigh event_surface_bytes (of e.registration_id p.events) + event_surface_bytes e
  per_b-exact =
      exact (get_or e.registration_id p.per_bytes 0) (event_surface_bytes e) a.reg.bounds.max_bytes
        a.bytes_below_of (finite.bytes_finite_of e.registration_id a.reg a.registered)
      ∙ ap (λ n. n + event_surface_bytes e) (w.summed_of e.registration_id)

  -- A counter that is bumped at the event's registration is exact at each.
  bumped :
      (rid : IdToken) (v : ℕ) (m m' : Map String ℕ) (g : IdToken → ℕ) (n : ℕ)
      → m' ≡ insert e.registration_id v m
      → v ≡ g e.registration_id + n
      → get_or rid m 0 ≡ g rid
      → get_or rid m' 0 ≡ (if e.registration_id == rid then g rid + n else g rid)
  bumped rid v m m' g n i x y = elim (Bool-cases (e.registration_id == rid)) [
    | inl h ↦
        let same = (string_eq.decides e.registration_id rid).0 h in
        rw (i, get_or-insert rid e.registration_id v m, h) (x ∙ ap (λ r. g r + n) same)
    | inr h ↦ rw (i, get_or-insert rid e.registration_id v m, h) y
  ]

  total-exact : p'.total_events ≡ length p.events + 1
  total-exact =
      a.total_events
      ∙ exact p.total_events 1 set.aggregate_limits.max_events
          (subst (λ n. n ≤ set.aggregate_limits.max_events) a.total_events a.events_below)
          finite.events_finite
      ∙ ap (λ n. n + 1) w.counted

  bytes-exact : p'.total_bytes ≡ weigh event_surface_bytes p.events + event_surface_bytes e
  bytes-exact =
      a.total_bytes
      ∙ exact p.total_bytes (event_surface_bytes e) set.aggregate_limits.max_bytes
          (subst (λ n. n ≤ set.aggregate_limits.max_bytes) a.total_bytes a.bytes_below)
          finite.bytes_finite
      ∙ ap (λ n. n + event_surface_bytes e) w.summed

  length-events : length p'.events ≡ length p.events + 1
  length-events = ap length a.events ∙ length-append p.events (e ∷ [])

  weigh-events :
      weigh event_surface_bytes p'.events
      ≡ weigh event_surface_bytes p.events + event_surface_bytes e
  weigh-events = omega (
    arith,
    ap (weigh event_surface_bytes) a.events,
    weigh-append event_surface_bytes p.events (e ∷ []),
  )

  counted_of' : (rid : IdToken) → get_or rid p'.per_events 0 ≡ length (of rid p'.events)
  counted_of' rid =
      bumped rid (per_e set e p) p.per_events p'.per_events (λ r. length (of r p.events)) 1
        a.per_events per_e-exact (w.counted_of rid)
      ∙ sym (ap (λ es. length (of rid es)) a.events ∙ length-of rid p.events e)

  summed_of' :
      (rid : IdToken) → get_or rid p'.per_bytes 0 ≡ weigh event_surface_bytes (of rid p'.events)
  summed_of' rid =
      bumped rid (per_b set e p) p.per_bytes p'.per_bytes
        (λ r. weigh event_surface_bytes (of r p.events)) (event_surface_bytes e) a.per_bytes
        per_b-exact (w.summed_of rid)
      ∙ sym (
          ap (λ es. weigh event_surface_bytes (of rid es)) a.events
          ∙ weigh-of event_surface_bytes rid p.events e)

  -- A limit of a registration holds of its events after the push.
  below_of :
      (rid : IdToken) (reg : Registration) (limit : Registration → ℕ) (n d v : ℕ)
      → registration set rid ≡ some reg
      → v ≤ limit a.reg
      → (e.registration_id ≡ rid → v ≡ n + d)
      → n ≤ limit reg
      → (if e.registration_id == rid then n + d else n) ≤ limit reg
  below_of rid reg limit n d v r b x y = elim (Bool-cases (e.registration_id == rid)) [
    | inl h ↦
        let same = (string_eq.decides e.registration_id rid).0 h in
        let regs = some-injective _ _ (sym a.registered ∙ ap (registration set) same ∙ r) in
        rw h (subst (λ m. m ≤ limit reg) (x same) (subst (λ q. v ≤ limit q) regs b))
    | inr h ↦ rw h y
  ]

  admitted-Within : Within set p'
  admitted-Within = record {
    counted = total-exact ∙ sym length-events;
    summed = bytes-exact ∙ sym weigh-events;
    counted_of = counted_of';
    summed_of = summed_of';
    events_fit = omega (arith, total-exact, length-events, a.events_below);
    bytes_fit = omega (arith, bytes-exact, weigh-events, a.bytes_below);
    events_fit_of = λ rid reg r.
        subst (λ n. n ≤ reg.bounds.max_events)
          (sym (ap (λ es. length (of rid es)) a.events ∙ length-of rid p.events e))
          (below_of rid reg (λ q. q.bounds.max_events) (length (of rid p.events)) 1 (per_e set e p)
            r a.events_below_of (λ s. per_e-exact ∙ ap (λ q. length (of q p.events) + 1) s)
            (w.events_fit_of rid reg r));
    bytes_fit_of = λ rid reg r.
        subst (λ n. n ≤ reg.bounds.max_bytes)
          (sym (
            ap (λ es. weigh event_surface_bytes (of rid es)) a.events
            ∙ weigh-of event_surface_bytes rid p.events e))
          (below_of rid reg (λ q. q.bounds.max_bytes) (weigh event_surface_bytes (of rid p.events))
            (event_surface_bytes e) (per_b set e p) r a.bytes_below_of
            (λ s.
              per_b-exact
              ∙ ap (λ q. weigh event_surface_bytes (of q p.events) + event_surface_bytes e) s)
            (w.bytes_fit_of rid reg r));
  }
