-- ===== src/Follow/Slots/Custody/Polls.antt =====
-- crates/waitprims-async/src/follow.rs: what the polls of a slot set leave in the account.
use mathlib.Core.Path.{subst}
use waitprims.Prelude.{
  ℕ, zero, suc, ◌+◌, ◌*◌, ◌≡◌, refl, sym, ap, false, Option, none, some, List, [], ◌∷◌, All, length,
  arith, if_both,
}
use waitprims.Core.Error.{Result, ok, err}
use waitprims.Core.Types.{WaitEvent}
use waitprims.Observer.{Observation}
use waitprims.Race.{Poll}
use waitprims.Follow.Slots.{
  Runtime, Slot, SlotSet, Polled, is_some, event_in, events_in, bound, after_bind, bind_step,
  after_next, next_poll, next_step, poll_slot, pass, passed, poll_rounds, poll_available,
  harvest_ready, harvest_from, harvest_slot, harvest_slots, harvest_poll_ready,
}
use waitprims.Follow.Slots.Custody.{
  Account, gives, got, Books, Bound, weigh, held, Balanced, gives-Balanced, weigh-events_in,
}

-- What the polls keep: each slot that holds something is bound, and the account balances.
abbrev pub Kept : {Bind : Type 0} → (WaitEvent → ℕ) → ℕ → List (Slot Bind) → Account → Type 0
Kept f n slots a = All Bound slots × Balanced f (n + weigh f (events_in slots)) a

abbrev KeptSlot : {Bind : Type 0} → (WaitEvent → ℕ) → ℕ → Slot Bind → Account → Type 0
KeptSlot f n slot a = Bound slot × Balanced f (n + held f slot) a

none_held :
    {Bind : Type 0} (f : WaitEvent → ℕ) (slot : Slot Bind)
    → is_some slot.harvested ≡ false
    → held f slot ≡ 0
none_held f slot h = ground arith

module _ {W Bind : Type 0} (rt : Runtime W Bind) (f : WaitEvent → ℕ) where
  after_next-Kept :
      (n : ℕ) (slot : Slot Bind) (b : Bind) (polled : Poll (Result Observation)) (a : Account)
      → slot.bind ≡ some b
      → is_some slot.harvested ≡ false
      → KeptSlot f n slot a
      → KeptSlot f n (after_next rt slot polled).state (gives (got polled) a)
  unfolding after_next
  after_next-Kept n slot b Poll.pending a e h k = k
  after_next-Kept n slot b (Poll.ready (err x)) a e h k = k
  after_next-Kept n slot b (Poll.ready (ok obs)) a e h k = (
    (λ t. ap is_some e),
    gives-Balanced f n (event_in (some obs)) a (λ c. omega (arith, k.1 c, none_held f slot h)),
  )

  after_bind-Kept :
      (n : ℕ) (slot : Slot Bind) (polled : Poll (Result Bind)) (a : Account)
      → KeptSlot f n slot a
      → KeptSlot f n (after_bind rt slot polled).state a
  unfolding after_bind bound
  after_bind-Kept n slot Poll.pending a k = k
  after_bind-Kept n slot (Poll.ready (err x)) a k = k
  after_bind-Kept n slot (Poll.ready (ok b)) a k = ((λ t. refl), k.1)

  after_bind-harvested :
      (slot : Slot Bind) (polled : Poll (Result Bind))
      → (after_bind rt slot polled).state.harvested ≡ slot.harvested
  unfolding after_bind bound
  after_bind-harvested slot Poll.pending = refl
  after_bind-harvested slot (Poll.ready (err x)) = refl
  after_bind-harvested slot (Poll.ready (ok b)) = refl

module _ {W Bind : Type 0} (rt : Runtime W Bind) (books : Books rt) (f : WaitEvent → ℕ) where
  bind_step-Kept :
      (n i : ℕ) (slot : Slot Bind) (w : W)
      → KeptSlot f n slot (books.account w)
      → let r = bind_step rt i slot w in
        (r.0.state.harvested ≡ slot.harvested) × KeptSlot f n r.0.state (books.account r.1)
  unfolding bind_step
  bind_step-Kept n i slot w k =
      if_both
        (λ (r : Polled (Slot Bind) × W).
          (r.0.state.harvested ≡ slot.harvested) × KeptSlot f n r.0.state (books.account r.1))
        slot.binding
        (λ h. (
          after_bind-harvested rt f slot (rt.poll_bind i w).0,
          subst (KeptSlot f n (after_bind rt slot (rt.poll_bind i w).0).state)
              (sym (books.bind_account i w))
              (after_bind-Kept rt f n slot (rt.poll_bind i w).0 (books.account w) k),
        ))
        (λ h. (refl, k))

  next_poll-Kept :
      (n i : ℕ) (slot : Slot Bind) (o : Option Bind) (w : W)
      → slot.bind ≡ o
      → is_some slot.harvested ≡ false
      → KeptSlot f n slot (books.account w)
      → let r = next_poll rt i slot o w in KeptSlot f n r.0.state (books.account r.1)
  unfolding next_poll
  next_poll-Kept n i slot none w e h k = k
  next_poll-Kept n i slot (some b) w e h k =
      subst (KeptSlot f n (after_next rt slot (rt.poll_next i b w).0).state)
        (sym (books.next_account i b w))
        (after_next-Kept rt f n slot b (rt.poll_next i b w).0 (books.account w) e h k)

  next_step-Kept :
      (n i : ℕ) (slot : Slot Bind) (w : W)
      → is_some slot.harvested ≡ false
      → KeptSlot f n slot (books.account w)
      → let r = next_step rt i slot w in KeptSlot f n r.0.state (books.account r.1)
  unfolding next_step
  next_step-Kept n i slot w h k =
      if_both (λ (r : Polled (Slot Bind) × W). KeptSlot f n r.0.state (books.account r.1))
        slot.asking (λ a. next_poll-Kept n i slot slot.bind w refl h k) (λ a. k)

  poll_slot-Kept :
      (n i : ℕ) (slot : Slot Bind) (w : W)
      → KeptSlot f n slot (books.account w)
      → let r = poll_slot rt i slot w in KeptSlot f n r.0.state (books.account r.1)
  unfolding poll_slot
  poll_slot-Kept n i slot w k =
      if_both (λ (r : Polled (Slot Bind) × W). KeptSlot f n r.0.state (books.account r.1))
        (is_some slot.harvested) (λ h. k)
        (λ h.
          let b = bind_step-Kept n i slot w k in
          next_step-Kept n i (bind_step rt i slot w).0.state (bind_step rt i slot w).1 (rw b.0 h)
            b.1)

  pass-Kept :
      (n i : ℕ) (slots : List (Slot Bind)) (w : W)
      → Kept f n slots (books.account w)
      → let r = pass rt i slots w in Kept f n r.0.state (books.account r.1)
  unfolding pass
  pass-Kept n i [] w k = k
  pass-Kept n i (slot ∷ slots) w k =
      let w' = (poll_slot rt i slot w).1 in
      let slot' = (poll_slot rt i slot w).0.state in
      let slots' = (pass rt (suc i) slots w').0.state in
      let here =
        poll_slot-Kept (n + weigh f (events_in slots)) i slot w
          (k.0.0, λ c. omega (arith, k.1 c, weigh-events_in f slot slots)) in
      let rest =
        pass-Kept (n + held f slot') (suc i) slots w' (k.0.1, λ c. omega (arith, here.1 c)) in
      ((here.0, rest.0), λ c. omega (arith, rest.1 c, weigh-events_in f slot' slots'))

  poll_rounds-Kept :
      (n rounds : ℕ) (s : SlotSet Bind) (w : W)
      → Kept f n s.slots (books.account w)
      → let r = poll_rounds rt rounds s w in Kept f n r.0.slots (books.account r.1)
  unfolding poll_rounds
  poll_rounds-Kept n zero s w k = k
  poll_rounds-Kept n (suc rounds) s w k =
      let (p, w') = pass rt 0 s.slots w in
      let kept = pass-Kept n 0 s.slots w k in
      if_both (λ (r : SlotSet Bind × W). Kept f n r.0.slots (books.account r.1)) p.progressed
        (λ h. poll_rounds-Kept n rounds (passed rt s p) w' kept) (λ h. kept)

  pub poll_available-Kept :
      (n : ℕ) (s : SlotSet Bind) (w : W)
      → Kept f n s.slots (books.account w)
      → let r = poll_available rt s w in Kept f n r.0.slots (books.account r.1)
  unfolding poll_available
  poll_available-Kept n s w = poll_rounds-Kept n (suc (2 * length s.slots)) s w

  harvest_ready-Kept :
      (n : ℕ) (slot : Slot Bind) (b : Bind) (o : Option Observation) (a : Account)
      → slot.bind ≡ some b
      → is_some slot.harvested ≡ false
      → KeptSlot f n slot a
      → KeptSlot f n (harvest_ready slot o) (gives (event_in o) a)
  harvest_ready-Kept n slot b none a e h k = k
  harvest_ready-Kept n slot b (some obs) a e h k = (
    (λ t. ap is_some e),
    gives-Balanced f n (event_in (some obs)) a (λ c. omega (arith, k.1 c, none_held f slot h)),
  )

  harvest_from-Kept :
      (n : ℕ) (slot : Slot Bind) (o : Option Bind) (w : W)
      → slot.bind ≡ o
      → is_some slot.harvested ≡ false
      → KeptSlot f n slot (books.account w)
      → let r = harvest_from rt slot o w in KeptSlot f n r.0 (books.account r.1)
  unfolding harvest_from
  harvest_from-Kept n slot none w e h k = k
  harvest_from-Kept n slot (some b) w e h k =
      subst (KeptSlot f n (harvest_ready slot (rt.poll_ready b w).0))
        (sym (books.ready_account b w))
        (harvest_ready-Kept n slot b (rt.poll_ready b w).0 (books.account w) e h k)

  harvest_slot-Kept :
      (n : ℕ) (slot : Slot Bind) (w : W)
      → KeptSlot f n slot (books.account w)
      → let r = harvest_slot rt slot w in KeptSlot f n r.0 (books.account r.1)
  unfolding harvest_slot
  harvest_slot-Kept n slot w k =
      if_both (λ (r : Slot Bind × W). KeptSlot f n r.0 (books.account r.1)) (is_some slot.harvested)
        (λ h. k) (λ h. harvest_from-Kept n slot slot.bind w refl h k)

  harvest_slots-Kept :
      (n : ℕ) (slots : List (Slot Bind)) (w : W)
      → Kept f n slots (books.account w)
      → let r = harvest_slots rt slots w in Kept f n r.0 (books.account r.1)
  unfolding harvest_slots
  harvest_slots-Kept n [] w k = k
  harvest_slots-Kept n (slot ∷ slots) w k =
      let w' = (harvest_slot rt slot w).1 in
      let slot' = (harvest_slot rt slot w).0 in
      let slots' = (harvest_slots rt slots w').0 in
      let here =
        harvest_slot-Kept (n + weigh f (events_in slots)) slot w
          (k.0.0, λ c. omega (arith, k.1 c, weigh-events_in f slot slots)) in
      let rest =
        harvest_slots-Kept (n + held f slot') slots w' (k.0.1, λ c. omega (arith, here.1 c)) in
      ((here.0, rest.0), λ c. omega (arith, rest.1 c, weigh-events_in f slot' slots'))

  pub harvest_poll_ready-Kept :
      (n : ℕ) (s : SlotSet Bind) (w : W)
      → Kept f n s.slots (books.account w)
      → let r = harvest_poll_ready rt s w in Kept f n r.0.slots (books.account r.1)
  unfolding harvest_poll_ready
  harvest_poll_ready-Kept n s w k = harvest_slots-Kept n s.slots w k
