-- ===== src/Follow/Slots/Settled.antt =====
-- crates/waitprims-async/src/follow.rs: the loop of `poll_available` ends by itself.
use waitprims.Prelude.{
  ℕ, zero, suc, ◌+◌, ◌*◌, ◌≤◌, ◌<◌, ◌≡◌, refl, ap, ◌∙◌, map, Bool, true, false, ◌||◌, Option, none,
  some, List, [], ◌∷◌, length, arith, if_both, if◌then◌else◌,
}
use waitprims.Core.Error.{Result, ok, err}
use waitprims.Observer.{Observation}
use waitprims.Race.{Poll}
use waitprims.Follow.Slots.{
  Runtime, Slot, SlotSet, Polled, is_some, bound, after_bind, bind_step, after_next, next_poll,
  next_step, poll_slot, pass, passed, poll_rounds, poll_available,
}

none_less : (n : ℕ) → n < 0 → ⊥
none_less n h = omega arith

abbrev one_if : Bool → ℕ
one_if true = 1
one_if false = 0

-- How many times a slot can still move on.
abbrev steps_left : {Bind : Type 0} → Slot Bind → ℕ
steps_left slot = if is_some slot.harvested then 0 else one_if slot.binding + 1

abbrev steps : {Bind : Type 0} → List (Slot Bind) → ℕ
steps [] = 0
steps (slot ∷ slots) = steps_left slot + steps slots

module _ {W Bind : Type 0} (rt : Runtime W Bind) where
  after_bind-steps :
      (slot : Slot Bind) (polled : Poll (Result Bind))
      → is_some slot.harvested ≡ false
      → slot.binding ≡ true
      → let p = after_bind rt slot polled in
        (is_some p.state.harvested ≡ false)
        × (one_if p.progressed + steps_left p.state ≤ steps_left slot)
  unfolding after_bind bound
  after_bind-steps slot polled h b = ground arith

  after_next-steps :
      (slot : Slot Bind) (polled : Poll (Result Observation))
      → is_some slot.harvested ≡ false
      → let p = after_next rt slot polled in
        one_if p.progressed + steps_left p.state ≤ steps_left slot
  unfolding after_next
  after_next-steps slot polled h = ground arith

  next_poll-steps :
      (i : ℕ) (slot : Slot Bind) (o : Option Bind) (w : W)
      → is_some slot.harvested ≡ false
      → let p = (next_poll rt i slot o w).0 in
        one_if p.progressed + steps_left p.state ≤ steps_left slot
  unfolding next_poll
  next_poll-steps i slot none w h = omega arith
  next_poll-steps i slot (some b) w h = after_next-steps slot (rt.poll_next i b w).0 h

  next_step-steps :
      (i : ℕ) (slot : Slot Bind) (w : W)
      → is_some slot.harvested ≡ false
      → let p = (next_step rt i slot w).0 in
        one_if p.progressed + steps_left p.state ≤ steps_left slot
  unfolding next_step
  next_step-steps i slot w h =
      if_both
        (λ (r : Polled (Slot Bind) × W).
          one_if r.0.progressed + steps_left r.0.state ≤ steps_left slot)
        slot.asking (λ a. next_poll-steps i slot slot.bind w h) (λ a. omega arith)

  bind_step-steps :
      (i : ℕ) (slot : Slot Bind) (w : W)
      → is_some slot.harvested ≡ false
      → let p = (bind_step rt i slot w).0 in
        (is_some p.state.harvested ≡ false)
        × (one_if p.progressed + steps_left p.state ≤ steps_left slot)
  unfolding bind_step
  bind_step-steps i slot w h =
      if_both
        (λ (r : Polled (Slot Bind) × W).
          (is_some r.0.state.harvested ≡ false)
          × (one_if r.0.progressed + steps_left r.0.state ≤ steps_left slot))
        slot.binding (λ b. after_bind-steps slot (rt.poll_bind i w).0 h b) (λ b. (h, omega arith))

  poll_slot-steps :
      (i : ℕ) (slot : Slot Bind) (w : W)
      → let p = (poll_slot rt i slot w).0 in
        one_if p.progressed + steps_left p.state ≤ steps_left slot
  unfolding poll_slot
  poll_slot-steps i slot w =
      if_both
        (λ (r : Polled (Slot Bind) × W).
          one_if r.0.progressed + steps_left r.0.state ≤ steps_left slot)
        (is_some slot.harvested) (λ h. omega arith)
        (λ h.
          let p = bind_step rt i slot w in
          let b = bind_step-steps i slot w h in
          let q = next_step rt i p.0.state p.1 in
          or_steps p.0.progressed q.0.progressed _ _ _ b.1 (next_step-steps i p.0.state p.1 b.0))
    where
      or_steps :
          (p q : Bool) (a b c : ℕ) → one_if p + b ≤ c → one_if q + a ≤ b → one_if (p || q) + a ≤ c
      or_steps p q a b c h k = ground arith

  or_sum :
      (p q : Bool) (a b c d : ℕ)
      → one_if p + a ≤ c
      → one_if q + b ≤ d
      → one_if (p || q) + (a + b) ≤ c + d
  or_sum p q a b c d h k = ground arith

  pass-steps :
      (i : ℕ) (slots : List (Slot Bind)) (w : W)
      → let p = (pass rt i slots w).0 in one_if p.progressed + steps p.state ≤ steps slots
  unfolding pass
  pass-steps i [] w = omega arith
  pass-steps i (slot ∷ slots) w =
      let p = poll_slot rt i slot w in
      let q = pass rt (suc i) slots p.1 in
      or_sum p.0.progressed q.0.progressed (steps_left p.0.state) (steps q.0.state)
        (steps_left slot) (steps slots) (poll_slot-steps i slot w) (pass-steps (suc i) slots p.1)

  -- What an arm has got: its bind, and what it observed.
  abbrev got : Slot Bind → Option Bind × Option Observation
  got slot = (slot.bind, slot.harvested)

  -- An arm that did not move on got nothing.
  abbrev GotNone : Slot Bind → Polled (Slot Bind) × W → Type 0
  GotNone slot r = r.0.progressed ≡ false → got r.0.state ≡ got slot

  after_bind-GotNone :
      (slot : Slot Bind) (polled : Poll (Result Bind)) (w : W)
      → GotNone slot (after_bind rt slot polled, w)
  unfolding after_bind
  after_bind-GotNone slot Poll.pending w h = refl
  after_bind-GotNone slot (Poll.ready (ok b)) w h = cc
  after_bind-GotNone slot (Poll.ready (err e)) w h = refl

  after_next-GotNone :
      (slot : Slot Bind) (polled : Poll (Result Observation)) (w : W)
      → GotNone slot (after_next rt slot polled, w)
  unfolding after_next
  after_next-GotNone slot Poll.pending w h = refl
  after_next-GotNone slot (Poll.ready (ok obs)) w h = cc
  after_next-GotNone slot (Poll.ready (err e)) w h = refl

  next_poll-GotNone :
      (i : ℕ) (slot : Slot Bind) (o : Option Bind) (w : W) → GotNone slot (next_poll rt i slot o w)
  unfolding next_poll
  next_poll-GotNone i slot none w h = refl
  next_poll-GotNone i slot (some b) w h =
      after_next-GotNone slot (rt.poll_next i b w).0 (rt.poll_next i b w).1 h

  next_step-GotNone : (i : ℕ) (slot : Slot Bind) (w : W) → GotNone slot (next_step rt i slot w)
  unfolding next_step
  next_step-GotNone i slot w =
      if_both (GotNone slot) slot.asking (λ a. next_poll-GotNone i slot slot.bind w) (λ a h. refl)

  bind_step-GotNone : (i : ℕ) (slot : Slot Bind) (w : W) → GotNone slot (bind_step rt i slot w)
  unfolding bind_step
  bind_step-GotNone i slot w =
      if_both (GotNone slot) slot.binding
        (λ a. after_bind-GotNone slot (rt.poll_bind i w).0 (rt.poll_bind i w).1) (λ a h. refl)

  neither : (a b : Bool) → (a || b) ≡ false → (a ≡ false) × (b ≡ false)
  neither true b h = cc
  neither false b h = (refl, h)

  poll_slot-GotNone : (i : ℕ) (slot : Slot Bind) (w : W) → GotNone slot (poll_slot rt i slot w)
  unfolding poll_slot
  poll_slot-GotNone i slot w =
      if_both (GotNone slot) (is_some slot.harvested) (λ a h. refl)
        (λ a h.
          let p = bind_step rt i slot w in
          let (hp, hq) = neither _ _ h in
          next_step-GotNone i p.0.state p.1 hq ∙ bind_step-GotNone i slot w hp)

  pass-GotNone :
      (i : ℕ) (slots : List (Slot Bind)) (w : W)
      → (pass rt i slots w).0.progressed ≡ false
      → map got (pass rt i slots w).0.state ≡ map got slots
  unfolding pass
  pass-GotNone i [] w h = refl
  pass-GotNone i (slot ∷ slots) w h =
      let (hp, hq) = neither _ _ h in
      rw (poll_slot-GotNone i slot w hp, pass-GotNone (suc i) slots (poll_slot rt i slot w).1 hq)
        refl

  -- The slots and the world after so many passes over the arms.
  abbrev pub after_passes : ℕ → SlotSet Bind × W → SlotSet Bind × W
  after_passes zero v = v
  after_passes (suc n) v =
      after_passes n (passed rt v.0 (pass rt 0 v.0.slots v.1).0, (pass rt 0 v.0.slots v.1).1)

  -- From the start, it is what some passes leave behind, the last of which gave no arm a bind and no
  -- arm an observation.
  pub record Quiescent (start v : SlotSet Bind × W) : Type 0 where
    pub passes : ℕ
    pub reached : v ≡ after_passes (suc passes) start
    pub still : map got v.0.slots ≡ map got (after_passes passes start).0.slots

  poll_rounds-Quiescent :
      (n : ℕ) (s : SlotSet Bind) (w : W)
      → steps s.slots < n
      → Quiescent (s, w) (poll_rounds rt n s w)
  unfolding poll_rounds
  poll_rounds-Quiescent zero s w h = elim (none_less (steps s.slots) h) [ ]
  poll_rounds-Quiescent (suc n) s w h =
      let (p, w') = pass rt 0 s.slots w in
      if_both (Quiescent (s, w)) p.progressed
        (λ e.
          let q =
            poll_rounds-Quiescent n (passed rt s p) w'
              (omega (arith, h, pass-steps 0 s.slots w, ap one_if e)) in
          record { passes = suc q.passes; reached = q.reached; still = q.still })
        (λ e. record { passes = 0; reached = refl; still = pass-GotNone 0 s.slots w e })

  steps-length : (slots : List (Slot Bind)) → steps slots ≤ 2 * length slots
  steps-length [] = omega arith
  steps-length (slot ∷ slots) = omega (arith, most slot, steps-length slots)
    where
      most : (slot : Slot Bind) → steps_left slot ≤ 2
      most slot = ground arith

  -- The polls of a slot set end by themselves: they are passes over the arms, the last of which gave no
  -- arm a bind and no arm an observation.
  pub poll_available-Quiescent :
      (s : SlotSet Bind) (w : W) → Quiescent (s, w) (poll_available rt s w)
  unfolding poll_available
  poll_available-Quiescent s w =
      poll_rounds-Quiescent (suc (2 * length s.slots)) s w (omega (arith, steps-length s.slots))
