-- ===== src/Coalesce/Fifo.antt =====
-- crates/waitprims-async/src/coalesce.rs: the order in which the buffer keeps events.
use mathlib.Core.Path.{subst}
use mathlib.Core.List.{append_assoc, append-nil}
use waitprims.Prelude.{
  ℕ, ◌+◌, ◌≡◌, refl, sym, ap, ◌∙◌, Bool, true, false, not, List, [], ◌∷◌, ◌++◌, keep, keep-append,
  string_eq, if◌then◌else◌,
}
use waitprims.Core.Time.{Timestamp}
use waitprims.Core.Types.{WaitEvent}
use waitprims.Core.Messages.{RegistrationSet}
use native.Mathlib.Omega.{arith}
use waitprims.Follow.Slots.Custody.{weigh, weigh-append}
use waitprims.Coalesce.{
  or_at, Pending, Pushed, pushed, refused, try_push, is_urgent, Filled, filled, overflowed, chain,
  push_all, Sorted, sort_event, sort_turn,
}

module _ (set : RegistrationSet) where
  -- A push adds the event at the end, and a refusal names its registration.
  abbrev pub Appended : WaitEvent → Pending → Pushed → Type 0
  Appended e p (pushed p') = p'.events ≡ p.events ++ e ∷ []
  Appended e p (refused rid) = rid ≡ e.registration_id

  pub try_push-Appended : (e : WaitEvent) (p : Pending) → Appended e p (try_push set e p)
  unfolding try_push
  try_push-Appended e p = ground arith

  -- All events are in the buffer, or in what is not sunk, in their order.
  abbrev pub Ordered : List WaitEvent → Filled Pending → Type 0
  Ordered es (filled p) = p.events ≡ es
  Ordered es (overflowed unsunk rid) = unsunk ≡ es

  -- However many events fit, a turn that is pushed keeps its order behind the buffer's: either the
  -- buffer has grown by exactly these events, or what is put back is the buffer and all of them.
  pub push_all-Ordered :
      (es : List WaitEvent) (p : Pending) → Ordered (p.events ++ es) (push_all set es p)
  unfolding push_all
  push_all-Ordered [] p = sym (append-nil p.events)
  push_all-Ordered (e ∷ es) p =
      go (try_push set e p) (try_push-Appended e p) (λ p'. push_all-Ordered es p')
    where
      go :
          (r : Pushed)
          → Appended e p r
          → ((p' : Pending) → Ordered (p'.events ++ es) (push_all set es p'))
          → Ordered (p.events ++ e ∷ es) (
              chain
                (elim r [
                  | pushed p' ↦ filled p'
                  | refused rid ↦ overflowed (p.events ++ e ∷ es) rid
                ])
                (λ p'. push_all set es p'))
      go (refused rid) a k = refl
      go (pushed p') a k =
          subst (λ l. Ordered l (push_all set es p'))
            (ap (λ l. l ++ es) a ∙ append_assoc p.events (e ∷ []) es) (k p')

  module _ (urgent_at : ℕ) where
    abbrev pub quiet_of : List WaitEvent → List WaitEvent
    quiet_of = keep (λ e. not (is_urgent set urgent_at e))

    abbrev pub urgent_of : List WaitEvent → List WaitEvent
    urgent_of = keep (is_urgent set urgent_at)

    -- The quiet events are behind those of the buffer, and the urgent ones are apart; or no event
    -- is missing from what is not sunk, whatever weight `f` events have.
    abbrev pub Sifted :
        (WaitEvent → ℕ) → List WaitEvent → List WaitEvent → Sorted → Filled Sorted → Type 0
    Sifted f es rest s (filled s') =
        (s'.pending.events ≡ s.pending.events ++ quiet_of es)
        × (s'.urgent ≡ s.urgent ++ urgent_of es)
    Sifted f es rest s (overflowed unsunk rid) =
        weigh f unsunk ≡ weigh f s.pending.events + (weigh f s.urgent + (weigh f es + weigh f rest))

    sort_event-Sifted :
        (f : WaitEvent → ℕ) (due : Timestamp) (e : WaitEvent) (rest : List WaitEvent) (s : Sorted)
        → Sifted f (e ∷ []) rest s (sort_event set urgent_at due e rest s)
    sort_event-Sifted f due e rest s =
        go (is_urgent set urgent_at e) refl (try_push set e s.pending)
          (try_push-Appended e s.pending)
      where
        go :
            (b : Bool)
            → is_urgent set urgent_at e ≡ b
            → (r : Pushed) → Appended e s.pending r
            → Sifted f (e ∷ []) rest s (
                if b then filled (record s { urgent = s.urgent ++ e ∷ [] }) else elim r [
                  | pushed p ↦ filled (record s {
                    pending = p;
                    next_quiet_emit_at = or_at s.next_quiet_emit_at due;
                  })
                  | refused rid ↦ overflowed (s.pending.events ++ e ∷ s.urgent ++ rest) rid
                ])
        go true h r a = rw h (sym (append-nil s.pending.events), refl)
        go false h (pushed p) a = rw h (a, sym (append-nil s.urgent))
        go false h (refused rid) a = omega (
          arith,
          weigh-append f s.pending.events ((e ∷ s.urgent) ++ rest),
          weigh-append f s.pending.events (e ∷ (s.urgent ++ rest)),
          weigh-append f (s.pending.events ++ e ∷ s.urgent) rest,
          weigh-append f s.pending.events (e ∷ s.urgent),
          weigh-append f s.urgent rest,
        )

    parted :
        (f : WaitEvent → ℕ) (e : WaitEvent)
        → weigh f (quiet_of (e ∷ [])) + weigh f (urgent_of (e ∷ [])) ≡ f e
    parted f e = ground arith

    chain-Sifted :
        (f : WaitEvent → ℕ) (e : WaitEvent) (es : List WaitEvent) (s : Sorted) (r : Filled Sorted)
        (next : Sorted → Filled Sorted)
        → Sifted f (e ∷ []) es s r
        → ((s' : Sorted) → Sifted f es [] s' (next s'))
        → Sifted f (e ∷ es) [] s (chain r next)
    chain-Sifted f e es s (overflowed unsunk rid) next h k = omega (arith, h)
    chain-Sifted f e es s (filled s') next h k = go (next s') (k s')
      where
        go : (x : Filled Sorted) → Sifted f es [] s' x → Sifted f (e ∷ es) [] s x
        go (filled s'') q = (
          q.0
              ∙ ap (λ l. l ++ quiet_of es) h.0
              ∙ append_assoc s.pending.events (quiet_of (e ∷ [])) (quiet_of es)
              ∙ ap (λ l. s.pending.events ++ l)
                  (sym (keep-append (λ x. not (is_urgent set urgent_at x)) (e ∷ []) es)),
          q.1
              ∙ ap (λ l. l ++ urgent_of es) h.1
              ∙ append_assoc s.urgent (urgent_of (e ∷ [])) (urgent_of es)
              ∙ ap (λ l. s.urgent ++ l) (sym (keep-append (is_urgent set urgent_at) (e ∷ []) es)),
        )
        go (overflowed unsunk rid) q = omega (
          arith,
          q,
          ap (weigh f) h.0,
          ap (weigh f) h.1,
          parted f e,
          weigh-append f s.pending.events (quiet_of (e ∷ [])),
          weigh-append f s.urgent (urgent_of (e ∷ [])),
        )

    pub sort_turn-Sifted :
        (f : WaitEvent → ℕ) (due : Timestamp) (es : List WaitEvent) (s : Sorted)
        → Sifted f es [] s (sort_turn set urgent_at due es s)
    unfolding sort_turn
    sort_turn-Sifted f due [] s = (sym (append-nil s.pending.events), sym (append-nil s.urgent))
    sort_turn-Sifted f due (e ∷ es) s =
        chain-Sifted f e es s (sort_event set urgent_at due e es s)
          (λ s'. sort_turn set urgent_at due es s') (sort_event-Sifted f due e es s)
          (λ s'. sort_turn-Sifted f due es s')

    -- A turn weighs what its quiet and its urgent events weigh.
    pub weigh-parted :
        (f : WaitEvent → ℕ) (es : List WaitEvent)
        → weigh f (quiet_of es) + weigh f (urgent_of es) ≡ weigh f es
    weigh-parted f [] = omega arith
    weigh-parted f (e ∷ es) = ground (arith, weigh-parted f es)
