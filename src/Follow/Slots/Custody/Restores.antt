-- ===== src/Follow/Slots/Custody/Restores.antt =====
-- crates/waitprims-async/src/follow.rs: what the restores of a slot set leave in the account.
use mathlib.Core.Path.{subst}
use mathlib.Core.List.{reverse-cons}
use waitprims.Prelude.{
  ℕ, ◌+◌, ◌≡◌, refl, sym, ap, ◌∙◌, true, Option, none, some, List, [], ◌∷◌, ◌++◌, All, All-append,
  map, push_some, arith, reverse,
}
use waitprims.Core.Error.{Error, Result, ok, err}
use waitprims.Core.Types.{WaitEvent}
use waitprims.Observer.{Observation}
use waitprims.Observer.Both.{Both}
use waitprims.Follow.Slots.{
  Runtime, bind_of, slot_of, Slot, SlotSet, is_some, event_in, events_in, replay_of, replayable_in,
  drain_replayable, restore_each, owned, to_result, restore_custody, restore_harvested,
}
use waitprims.Follow.Slots.Custody.{
  Account, takes_back, Books, Bound, weigh, weight, Balanced, takes_back-Balanced, weigh-append,
}
use waitprims.Follow.Slots.Custody.Polls.{Kept}

module _ {Bind : Type 0} (f : WaitEvent → ℕ) where
  -- The weight of what is to be put back.
  abbrev pub owing : List (Option Bind × Observation) → ℕ
  owing [] = 0
  owing ((o, obs) ∷ ready) = weight f (event_in (some obs)) + owing ready

  owing-append : (xs ys : List (Option Bind × Observation)) → owing (xs ++ ys) ≡ owing xs + owing ys
  owing-append [] ys = omega arith
  owing-append ((o, obs) ∷ xs) ys = omega (arith, owing-append xs ys)

module _ {Bind : Type 0} (f : WaitEvent → ℕ) (slots : List (Slot Bind)) where
  owing-owned : (es : List WaitEvent) → owing f (map (owned slots) es) ≡ weigh f es
  owing-owned [] = refl
  owing-owned (e ∷ es) = ap (λ n. f e + n) (owing-owned es)

weigh-reverse : (f : WaitEvent → ℕ) (es : List WaitEvent) → weigh f (reverse es) ≡ weigh f es
weigh-reverse f [] = refl
weigh-reverse f (e ∷ es) =
    rw (reverse-cons e es) (omega (arith, weigh-append f (reverse es) (e ∷ []), weigh-reverse f es))

All-reverse : (P : WaitEvent → Type 0) (es : List WaitEvent) → All P es → All P (reverse es)
All-reverse P [] h = tt
All-reverse P (e ∷ es) h =
    rw (reverse-cons e es) (All-append P (reverse es) (e ∷ []) (All-reverse P es h.1) (h.0, tt))

-- The slot of an event's registration is bound.
abbrev pub Owned : {Bind : Type 0} → List (Slot Bind) → WaitEvent → Type 0
Owned slots e = is_some (bind_of (slot_of e.registration_id slots)) ≡ true

abbrev HasBind : {Bind : Type 0} → Option Bind × Observation → Type 0
HasBind entry = is_some entry.0 ≡ true

module _ {Bind : Type 0} (f : WaitEvent → ℕ) where
  owing-push :
      (slot : Slot Bind) (ready : List (Option Bind × Observation)) (es : List WaitEvent)
      → owing f ready ≡ weigh f es
      → owing f (push_some (replay_of slot) ready)
        ≡ weigh f (push_some (event_in slot.harvested) es)
  owing-push slot ready es h = ground arith

  owing-replayable_in :
      (slots : List (Slot Bind)) → owing f (replayable_in slots) ≡ weigh f (events_in slots)
  unfolding replayable_in events_in
  owing-replayable_in [] = refl
  owing-replayable_in (slot ∷ slots) =
      owing-push slot (replayable_in slots) (events_in slots) (owing-replayable_in slots)

module _ {Bind : Type 0} where
  owned-HasBind :
      (slots : List (Slot Bind)) (es : List WaitEvent)
      → All (Owned slots) es
      → All HasBind (map (owned slots) es)
  owned-HasBind slots [] h = tt
  owned-HasBind slots (e ∷ es) h = (h.0, owned-HasBind slots es h.1)

  HasBind-push :
      (slot : Slot Bind) (ready : List (Option Bind × Observation))
      → Bound slot
      → All HasBind ready
      → All HasBind (push_some (replay_of slot) ready)
  HasBind-push slot ready b h = ground arith

  replayable_in-HasBind :
      (slots : List (Slot Bind)) → All Bound slots → All HasBind (replayable_in slots)
  unfolding replayable_in
  replayable_in-HasBind [] b = tt
  replayable_in-HasBind (slot ∷ slots) b =
      HasBind-push slot (replayable_in slots) b.0 (replayable_in-HasBind slots b.1)

module _ {W Bind : Type 0} (rt : Runtime W Bind) (books : Books rt) (f : WaitEvent → ℕ) where
  restore_each-Balanced :
      (n : ℕ) (ready : List (Option Bind × Observation)) (w : W)
      → All HasBind ready
      → Balanced f (n + owing f ready) (books.account w)
      → Balanced f n (books.account (restore_each rt ready w).1)
  unfolding restore_each
  restore_each-Balanced n [] w h k = λ c. omega (arith, k c)
  restore_each-Balanced n ((none, obs) ∷ ready) w h k = cc (h.0)
  restore_each-Balanced n ((some b, obs) ∷ ready) w h k =
      restore_each-Balanced n ready (rt.restore_ready b obs w).1 h.1 (
        subst (Balanced f (n + owing f ready)) (sym (books.restore_account b obs w)) (
          takes_back-Balanced f (n + owing f ready) (rt.restore_ready b obs w).0
            (event_in (some obs)) (books.account w) (λ c. omega (arith, k c))))

  -- After a custody call, nothing is held.
  abbrev pub Emptied : ℕ → SlotSet Bind × W → Type 0
  Emptied n v = Balanced f n (books.account v.1)

  abbrev settled : Option Error → SlotSet Bind × W → Result (Unit {0}) × (SlotSet Bind × W)
  settled e v = (to_result e, v)

  result_either :
      (P : SlotSet Bind × W → Type 0) (e : Option Error) (v : SlotSet Bind × W)
      → P v
      → Both P (λ u. P) (settled e v)
  result_either P none v p = p
  result_either P (some e) v p = p

  pub restore_harvested-Emptied :
      (n : ℕ) (v : SlotSet Bind × W)
      → Kept f n v.0.slots (books.account v.1)
      → Both (Emptied n) (λ u. Emptied n) (restore_harvested rt v)
  unfolding restore_harvested drain_replayable
  restore_harvested-Emptied n v k =
      result_either (Emptied n) (restore_each rt (replayable_in v.0.slots) v.1).0
        ((drain_replayable v.0).1, (restore_each rt (replayable_in v.0.slots) v.1).1)
        (restore_each-Balanced n (replayable_in v.0.slots) v.1 (replayable_in-HasBind v.0.slots k.0)
          (λ c. omega (arith, k.1 c, owing-replayable_in f v.0.slots)))

  pub restore_custody-Emptied :
      (n : ℕ) (pending : List WaitEvent) (v : SlotSet Bind × W)
      → All (Owned v.0.slots) pending
      → Kept f (n + weigh f pending) v.0.slots (books.account v.1)
      → Both (Emptied n) (λ u. Emptied n) (restore_custody rt pending v)
  unfolding restore_custody drain_replayable
  restore_custody-Emptied n pending v h k =
      let ready = replayable_in v.0.slots ++ map (owned v.0.slots) (reverse pending) in
      result_either (Emptied n) (restore_each rt ready v.1).0
        ((drain_replayable v.0).1, (restore_each rt ready v.1).1)
        (restore_each-Balanced n ready v.1
          (All-append HasBind (replayable_in v.0.slots) (map (owned v.0.slots) (reverse pending))
            (replayable_in-HasBind v.0.slots k.0)
            (owned-HasBind v.0.slots (reverse pending) (All-reverse (Owned v.0.slots) pending h)))
          (λ c. omega (
            arith,
            k.1 c,
            owing-replayable_in f v.0.slots,
            owing-append f (replayable_in v.0.slots) (map (owned v.0.slots) (reverse pending)),
            owing-owned f v.0.slots (reverse pending),
            weigh-reverse f pending,
          )))

takes_back-sunk :
    (r : Result (Unit {0})) (e : Option WaitEvent) (a : Account) → (takes_back r e a).sunk ≡ a.sunk
takes_back-sunk (err x) e a = refl
takes_back-sunk (ok u) none a = refl
takes_back-sunk (ok u) (some e) a = refl

-- A restore sinks nothing.
pub restore_each-sunk :
    {W Bind : Type 0} (rt : Runtime W Bind) (books : Books rt)
    (ready : List (Option Bind × Observation)) (w : W)
    → (books.account (restore_each rt ready w).1).sunk ≡ (books.account w).sunk
unfolding restore_each
restore_each-sunk rt books [] w = refl
restore_each-sunk rt books ((none, obs) ∷ ready) w = restore_each-sunk rt books ready w
restore_each-sunk rt books ((some b, obs) ∷ ready) w =
    restore_each-sunk rt books ready (rt.restore_ready b obs w).1
    ∙ ap (λ (a : Account). a.sunk) (books.restore_account b obs w)
    ∙ takes_back-sunk (rt.restore_ready b obs w).0 (event_in (some obs)) (books.account w)
