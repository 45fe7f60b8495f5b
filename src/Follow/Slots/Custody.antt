-- ===== src/Follow/Slots/Custody.antt =====
-- crates/waitprims-async/src/follow.rs: what the observer and the sink account for, and what the
-- slots hold. `f` gives each event a weight, so an account balances whatever is counted.
pub mod Polls
pub mod Restores
use waitprims.Prelude.{
  ℕ, ◌+◌, ◌≡◌, refl, ap, Bool, true, false, Option, none, some, List, [], ◌∷◌, ◌++◌, All, map,
  arith, push_some,
}
use waitprims.Core.Error.{Error, Result, ok, err}
use waitprims.Core.Time.{Timestamp}
use waitprims.Core.Types.{Registration, WaitEvent}
use waitprims.Observer.{Observation}
use waitprims.Race.{Poll}
use waitprims.Follow.Slots.{
  Runtime, Slot, SlotSet, is_some, event_in, events_in, rearm, rearm_idle, emptied, without_event,
  take_events, new, fresh,
}

-- The events that were dequeued, put back and sunk so far, and whether a restore or the sink failed.
pub record Account : Type 0 where
  pub given : List WaitEvent
  pub returned : List WaitEvent
  pub sunk : List WaitEvent
  pub broken : Bool

abbrev pub gives : Option WaitEvent → Account → Account
gives none a = a
gives (some e) a = record a { given = e ∷ a.given }

abbrev pub got : Poll (Result Observation) → Option WaitEvent
got (Poll.ready (ok obs)) = event_in (some obs)
got _ = none

abbrev pub takes_back : Result (Unit {0}) → Option WaitEvent → Account → Account
takes_back (err x) e a = record a { broken = true }
takes_back (ok u) none a = a
takes_back (ok u) (some e) a = record a { returned = e ∷ a.returned }

abbrev pub sinks : Result (Unit {0}) → List WaitEvent → Account → Account
sinks (err x) es a = record a { broken = true }
sinks (ok u) es a = record a { sunk = a.sunk ++ es }

-- What each call of the observer, the clock, the token and the sink does to the account.
pub record Books {W Bind : Type 0} (rt : Runtime W Bind) : Type 0 where
  pub account : W → Account
  pub bind_account : (i : ℕ) (w : W) → account (rt.poll_bind i w).1 ≡ account w
  pub next_account :
      (i : ℕ) (b : Bind) (w : W)
      → account (rt.poll_next i b w).1 ≡ gives (got (rt.poll_next i b w).0) (account w)
  pub ready_account :
      (b : Bind) (w : W)
      → account (rt.poll_ready b w).1 ≡ gives (event_in (rt.poll_ready b w).0) (account w)
  pub restore_account :
      (b : Bind) (obs : Observation) (w : W)
      → account (rt.restore_ready b obs w).1
        ≡ takes_back (rt.restore_ready b obs w).0 (event_in (some obs)) (account w)
  pub burst_account :
      (es : List WaitEvent) (w : W)
      → account (rt.on_burst es w).1 ≡ sinks (rt.on_burst es w).0 es (account w)
  pub now_account : (w : W) → account (rt.now w).1 ≡ account w
  pub token_account : (w : W) → account (rt.is_cancelled w).1 ≡ account w
  pub wakes_account : (t : Timestamp) (w : W) → account (rt.wakes t w).1 ≡ account w
  pub pause_account : (t : Timestamp) (w : W) → account (rt.pause t w).1 ≡ account w

-- A slot that holds an observation has its bind.
abbrev pub Bound : {Bind : Type 0} → Slot Bind → Type 0
Bound slot = is_some slot.harvested ≡ true → is_some slot.bind ≡ true

abbrev pub weigh : (WaitEvent → ℕ) → List WaitEvent → ℕ
weigh f [] = 0
weigh f (e ∷ es) = f e + weigh f es

abbrev pub weight : (WaitEvent → ℕ) → Option WaitEvent → ℕ
weight f none = 0
weight f (some e) = f e

-- Unless a restore or the sink failed, what was given was sunk, was put back, or is the rest.
abbrev pub Balanced : (WaitEvent → ℕ) → ℕ → Account → Type 0
Balanced f rest a = a.broken ≡ false → weigh f a.given ≡ weigh f a.sunk + weigh f a.returned + rest

pub weigh-append :
    (f : WaitEvent → ℕ) (xs ys : List WaitEvent) → weigh f (xs ++ ys) ≡ weigh f xs + weigh f ys
weigh-append f [] ys = omega arith
weigh-append f (x ∷ xs) ys = omega (arith, weigh-append f xs ys)

pub gives-Balanced :
    (f : WaitEvent → ℕ) (n : ℕ) (e : Option WaitEvent) (a : Account)
    → Balanced f n a
    → Balanced f (n + weight f e) (gives e a)
gives-Balanced f n none a h = ground arith
gives-Balanced f n (some e) a h = λ b. omega (arith, h b)

pub takes_back-Balanced :
    (f : WaitEvent → ℕ) (n : ℕ) (r : Result (Unit {0})) (e : Option WaitEvent) (a : Account)
    → Balanced f (n + weight f e) a
    → Balanced f n (takes_back r e a)
takes_back-Balanced f n (err x) e a h = λ b. cc
takes_back-Balanced f n (ok u) none a h = ground arith
takes_back-Balanced f n (ok u) (some e) a h = λ b. omega (arith, h b)

pub sinks-Balanced :
    (f : WaitEvent → ℕ) (n : ℕ) (r : Result (Unit {0})) (es : List WaitEvent) (a : Account)
    → Balanced f (n + weigh f es) a
    → Balanced f n (sinks r es a)
sinks-Balanced f n (err x) es a h = λ b. cc
sinks-Balanced f n (ok u) es a h = λ b. omega (arith, h b, weigh-append f a.sunk es)

weight-push_some :
    (f : WaitEvent → ℕ) (o : Option WaitEvent) (es : List WaitEvent)
    → weigh f (push_some o es) ≡ weight f o + weigh f es
weight-push_some f none es = omega arith
weight-push_some f (some e) es = refl

module _ {Bind : Type 0} (f : WaitEvent → ℕ) where
  abbrev pub held : Slot Bind → ℕ
  held slot = weight f (event_in slot.harvested)

  pub weigh-events_in :
      (slot : Slot Bind) (slots : List (Slot Bind))
      → weigh f (events_in (slot ∷ slots)) ≡ held slot + weigh f (events_in slots)
  unfolding events_in
  weigh-events_in slot slots = weight-push_some f (event_in slot.harvested) (events_in slots)

  map-same :
      (g : Slot Bind → Slot Bind) (slots : List (Slot Bind))
      → ((slot : Slot Bind) → held (g slot) ≡ held slot)
      → weigh f (events_in (map g slots)) ≡ weigh f (events_in slots)
  map-same g [] h = refl
  map-same g (slot ∷ slots) h = omega (
    arith,
    weigh-events_in (g slot) (map g slots),
    weigh-events_in slot slots,
    h slot,
    map-same g slots h,
  )

  map-empty :
      (g : Slot Bind → Slot Bind) (slots : List (Slot Bind))
      → ((slot : Slot Bind) → held (g slot) ≡ 0)
      → weigh f (events_in (map g slots)) ≡ 0
  unfolding events_in
  map-empty g [] h = refl
  map-empty g (slot ∷ slots) h =
      omega (arith, weigh-events_in (g slot) (map g slots), h slot, map-empty g slots h)

  held-without_event : (slot : Slot Bind) → held (without_event slot) ≡ 0
  held-without_event slot = ground arith

  held-rearm : (slot : Slot Bind) → held (rearm slot) ≡ held slot
  held-rearm slot = ground arith

  pub weigh-take_events : (s : SlotSet Bind) → weigh f (events_in (take_events s).1.slots) ≡ 0
  unfolding take_events
  weigh-take_events s = map-empty without_event s.slots held-without_event

  pub weigh-emptied : (slots : List (Slot Bind)) → weigh f (events_in (map emptied slots)) ≡ 0
  weigh-emptied slots = map-empty emptied slots (λ slot. refl)

  pub weigh-rearm_idle :
      (s : SlotSet Bind) → weigh f (events_in (rearm_idle s).slots) ≡ weigh f (events_in s.slots)
  unfolding rearm_idle
  weigh-rearm_idle s = map-same rearm s.slots held-rearm

module _ {Bind : Type 0} where
  map-Bound :
      (g : Slot Bind → Slot Bind) (slots : List (Slot Bind))
      → ((slot : Slot Bind) → Bound slot → Bound (g slot))
      → All Bound slots
      → All Bound (map g slots)
  map-Bound g [] h b = tt
  map-Bound g (slot ∷ slots) h b = (h slot b.0, map-Bound g slots h b.1)

  pub emptied-Bound : (slots : List (Slot Bind)) → All Bound slots → All Bound (map emptied slots)
  emptied-Bound slots = map-Bound emptied slots (λ slot b. ground arith)

  pub take_events-Bound : (s : SlotSet Bind) → All Bound s.slots → All Bound (take_events s).1.slots
  unfolding take_events
  take_events-Bound s = map-Bound without_event s.slots (λ slot b. ground arith)

  pub rearm_idle-Bound : (s : SlotSet Bind) → All Bound s.slots → All Bound (rearm_idle s).slots
  unfolding rearm_idle
  rearm_idle-Bound s = map-Bound rearm s.slots (λ slot b. ground arith)

pub weigh-new :
    (Bind : Type 0) (f : WaitEvent → ℕ) (rs : List Registration)
    → weigh f (events_in (map (fresh {Bind = Bind}) rs)) ≡ 0
unfolding events_in
weigh-new Bind f [] = refl
weigh-new Bind f (r ∷ rs) = weigh-new Bind f rs

pub new-Bound : (Bind : Type 0) (rs : List Registration) → All Bound (map (fresh {Bind = Bind}) rs)
new-Bound Bind [] = tt
new-Bound Bind (r ∷ rs) = ((λ h. cc), new-Bound Bind rs)
