-- ===== src/Coalesce/Within/Turns.antt =====
-- crates/waitprims-async/src/coalesce.rs: the limits of the buffer over the events of a turn.
use native.Mathlib.Omega.{arith}
use waitprims.Prelude.{ℕ, refl, List, [], ◌∷◌, ◌++◌, lookup, string_key, string_eq, if_both}
use waitprims.Core.Time.{Timestamp}
use waitprims.Core.Types.{WaitEvent}
use waitprims.Core.Messages.{RegistrationSet}
use waitprims.Coalesce.{
  Pending, Pushed, pushed, refused, try_push, Filled, filled, overflowed, chain, push_all, Sorted,
  sort_event, sort_turn, is_urgent, or_at, empty,
}
use waitprims.Coalesce.Within.{Within, Finite, Fits, try_push-Fits, admitted-Within}

module _ (set : RegistrationSet) (finite : Finite set) where
  abbrev KeptWithin : Pushed → Type 0
  KeptWithin (pushed p) = Within set p
  KeptWithin (refused rid) = Unit

  try_push-Within : (e : WaitEvent) (p : Pending) → Within set p → KeptWithin (try_push set e p)
  try_push-Within e p w = go (try_push set e p) (try_push-Fits set e p)
    where
      go : (r : Pushed) → Fits set e p r → KeptWithin r
      go (refused rid) a = tt
      go (pushed p') a = admitted-Within set e p p' finite w a

  abbrev pub FilledWithin : Filled Pending → Type 0
  FilledWithin (filled p) = Within set p
  FilledWithin (overflowed unsunk rid) = Unit

  -- Where no limit is the largest u64: a buffer that a turn is pushed into has exact counters, and
  -- its events are within the set's limits and those of each registration, if it was so before.
  pub push_all-Within :
      (es : List WaitEvent) (p : Pending) → Within set p → FilledWithin (push_all set es p)
  unfolding push_all
  push_all-Within [] p w = w
  push_all-Within (e ∷ es) p w =
      go (try_push set e p) (try_push-Within e p w) (λ p'. push_all-Within es p')
    where
      go :
          (r : Pushed)
          → KeptWithin r
          → ((p' : Pending) → Within set p' → FilledWithin (push_all set es p'))
          → FilledWithin (
              chain
                (elim r [
                  | pushed p' ↦ filled p'
                  | refused rid ↦ overflowed (p.events ++ e ∷ es) rid
                ])
                (λ p'. push_all set es p'))
      go (refused rid) w' k = tt
      go (pushed p') w' k = k p' w'

  abbrev pub SortedWithin : Filled Sorted → Type 0
  SortedWithin (filled s) = Within set s.pending
  SortedWithin (overflowed unsunk rid) = Unit

  sort_event-Within :
      (urgent_at : ℕ) (due : Timestamp) (e : WaitEvent) (rest : List WaitEvent) (s : Sorted)
      → Within set s.pending
      → SortedWithin (sort_event set urgent_at due e rest s)
  sort_event-Within urgent_at due e rest s w =
      if_both SortedWithin (is_urgent set urgent_at e) (λ h. w)
        λ h. go (try_push set e s.pending) (try_push-Within e s.pending w)
    where
      go :
          (r : Pushed)
          → KeptWithin r
          → SortedWithin (elim r [
            | pushed p ↦
                filled
                  (record s { pending = p; next_quiet_emit_at = or_at s.next_quiet_emit_at due })
            | refused rid ↦ overflowed (s.pending.events ++ e ∷ s.urgent ++ rest) rid
          ])
      go (pushed p) w' = w'
      go (refused rid) w' = tt

  pub sort_turn-Within :
      (urgent_at : ℕ) (due : Timestamp) (es : List WaitEvent) (s : Sorted)
      → Within set s.pending
      → SortedWithin (sort_turn set urgent_at due es s)
  unfolding sort_turn
  sort_turn-Within urgent_at due [] s w = w
  sort_turn-Within urgent_at due (e ∷ es) s w =
      go (sort_event set urgent_at due e es s) (sort_event-Within urgent_at due e es s w)
        (λ s'. sort_turn-Within urgent_at due es s')
    where
      go :
          (r : Filled Sorted)
          → SortedWithin r
          → ((s' : Sorted)
              → Within set s'.pending
              → SortedWithin (sort_turn set urgent_at due es s'))
          → SortedWithin (chain r (λ s'. sort_turn set urgent_at due es s'))
      go (overflowed unsunk rid) w' k = tt
      go (filled s') w' k = k s' w'

  pub empty-Within : Within set empty
  unfolding lookup
  empty-Within = record {
    counted = refl;
    summed = refl;
    counted_of = λ rid. refl;
    summed_of = λ rid. refl;
    events_fit = omega arith;
    bytes_fit = omega arith;
    events_fit_of = λ rid reg r. omega arith;
    bytes_fit_of = λ rid reg r. omega arith;
  }
