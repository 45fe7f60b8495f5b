-- ===== src/Coalesce/Runner/Order.antt =====
-- crates/waitprims-async/src/coalesce.rs: the order in which the events of a registration are sunk.
use mathlib.Core.Path.{subst}
use mathlib.Core.List.{append_assoc, append-nil}
use native.Mathlib.Omega.{arith}
use waitprims.Prelude.{
  ℕ, ◌≡◌, refl, sym, ap, ◌∙◌, Bool, true, false, not, ◌&&◌, Option, none, some, List, [], ◌∷◌, ◌++◌,
  any, All, All-append, keep-append, ◌==◌, string_eq, if◌then◌else◌, Bool-cases, inl, inr, leb,
}
use waitprims.Core.Refs.{IdToken}
use waitprims.Core.Error.{Result, ok, err}
use waitprims.Core.Time.{Timestamp}
use waitprims.Core.Types.{WaitEvent}
use waitprims.Core.Messages.{RegistrationSet}
use waitprims.Observer.{◌>>=◌, pure}
use waitprims.Observer.Both.{
  Both, Run, run_pure, run_if, run_bind, run_any, run_post, run_given, run_if_known,
}
use waitprims.Follow.{FollowEnd}
use waitprims.Follow.Slots.{Runtime, SlotSet}
use waitprims.Follow.Slots.Custody.{Books, Account, sinks}
use waitprims.Follow.Runner.{sink}
use waitprims.Coalesce.{
  CoalescePolicy, Pending, empty, is_empty, push_all, Filled, filled, overflowed, Sorted, sort_turn,
  is_urgent, or_at, interval_is_due, effective_priority, registration,
}
use waitprims.Coalesce.Fifo.{
  Ordered, push_all-Ordered, Sifted, sort_turn-Sifted, quiet_of, urgent_of,
}
use waitprims.Coalesce.Within.{of}
use waitprims.Coalesce.Runner.{
  Emit, Session, store, flush, restore_then_overflow, urgent_burst, due, emit_quiet, apply_nothing,
  apply_all, apply_urgent, hold_back, apply_quiet, starts_interval, apply_events, apply_some,
  apply_turn,
}
use waitprims.Coalesce.Runner.Conserved.{Any, Runs, run_through, run_kept, run_store, run_pre}

-- No event is urgent.
abbrev pub Quiet : RegistrationSet → ℕ → List WaitEvent → Type 0
Quiet set urgent_at = All (λ e. is_urgent set urgent_at e ≡ false)

module _ (set : RegistrationSet) (urgent_at : ℕ) where
  quiet_of-Quiet : (es : List WaitEvent) → Quiet set urgent_at (quiet_of set urgent_at es)
  quiet_of-Quiet [] = tt
  quiet_of-Quiet (e ∷ es) = ground (arith, quiet_of-Quiet es)

  none_urgent :
      (es : List WaitEvent) → any (is_urgent set urgent_at) es ≡ false → Quiet set urgent_at es
  none_urgent [] h = tt
  none_urgent (e ∷ es) h = ground (arith, none_urgent es)

  -- Whether the events of a registration are urgent.
  abbrev urgent_id : IdToken → Bool
  urgent_id id = elim (registration set id) [
    | none ↦ false
    | some reg ↦ leb urgent_at (effective_priority reg)
  ]

  is_urgent-id :
      (id : IdToken) (e : WaitEvent)
      → (e.registration_id == id) ≡ true
      → is_urgent set urgent_at e ≡ urgent_id id
  unfolding is_urgent
  is_urgent-id id e h = ap urgent_id ((string_eq.decides e.registration_id id).0 h)

  -- Of an urgent registration the quiet events are none, and the urgent ones are all.
  of-quiet_urgent :
      (id : IdToken) (es : List WaitEvent)
      → urgent_id id ≡ true
      → (of id (quiet_of set urgent_at es) ≡ []) × (of id (urgent_of set urgent_at es) ≡ of id es)
  of-quiet_urgent id [] h = (refl, refl)
  of-quiet_urgent id (e ∷ es) h = ground (arith, of-quiet_urgent id es h, is_urgent-id id e)

  of-quiet_quiet :
      (id : IdToken) (es : List WaitEvent)
      → urgent_id id ≡ false
      → (of id (urgent_of set urgent_at es) ≡ []) × (of id (quiet_of set urgent_at es) ≡ of id es)
  of-quiet_quiet id [] h = (refl, refl)
  of-quiet_quiet id (e ∷ es) h = ground (arith, of-quiet_quiet id es h, is_urgent-id id e)

  of-Quiet :
      (id : IdToken) (es : List WaitEvent)
      → urgent_id id ≡ true
      → Quiet set urgent_at es
      → of id es ≡ []
  of-Quiet id [] h q = refl
  of-Quiet id (e ∷ es) h q = ground (arith, of-Quiet id es h, is_urgent-id id e)

  of-append : (id : IdToken) (xs ys : List WaitEvent) → of id (xs ++ ys) ≡ of id xs ++ of id ys
  of-append id xs ys = keep-append (λ e. e.registration_id == id) xs ys

  -- The urgent events overtake the buffer, and yet each registration keeps its order.
  of-overtaken :
      (id : IdToken) (ys ps es : List WaitEvent)
      → Quiet set urgent_at ps
      → of id ((ys ++ urgent_of set urgent_at es) ++ (ps ++ quiet_of set urgent_at es))
        ≡ of id (ys ++ (ps ++ es))
  of-overtaken id ys ps es q =
      rw
        (
          of-append id (ys ++ urgent_of set urgent_at es) (ps ++ quiet_of set urgent_at es),
          of-append id ys (urgent_of set urgent_at es),
          of-append id ps (quiet_of set urgent_at es),
          of-append id ys (ps ++ es),
          of-append id ps es,
        )
        (elim (Bool-cases (urgent_id id)) [
          | inl h ↦
              let u = of-quiet_urgent id es h in
              rw (u.0, u.1, of-Quiet id ps h q) (append-nil (of id ys ++ of id es))
          | inr h ↦ let u = of-quiet_quiet id es h in rw (u.0, u.1, append-nil (of id ys)) refl
        ])

module _ {W Bind : Type 0} (rt : Runtime W Bind) (books : Books rt) (set : RegistrationSet)
    (policy : CoalescePolicy) where
  abbrev pub sunk_by : SlotSet Bind × W → List WaitEvent
  sunk_by v = (books.account v.1).sunk

  after_sink :
      (ys es : List WaitEvent) (s : SlotSet Bind) (r : Result (Unit {0}) × W) (a : Account)
      → a.sunk ≡ ys
      → books.account r.1 ≡ sinks r.0 es a
      → Both Any (λ u v. sunk_by v ≡ ys ++ es) (let (x, w) = r in (x, (s, w)))
  after_sink ys es s (ok u, w) a h e = ap (λ (b : Account). b.sunk) e ∙ ap (λ l. l ++ es) h
  after_sink ys es s (err x, w) a h e = tt

  run_sunk :
      (ys es : List WaitEvent)
      → Run Any (λ v. sunk_by v ≡ ys) (sink rt es) (λ u v. sunk_by v ≡ ys ++ es)
  run_sunk ys [] = record { at = λ v h. h ∙ sym (append-nil ys) }
  run_sunk ys (e ∷ es) = record {
    at = λ v h.
        after_sink ys (e ∷ es) v.0 (rt.on_burst (e ∷ es) v.1) (books.account v.1) h
          (books.burst_account (e ∷ es) v.1);
  }

  module _ (id : IdToken) (xs : List WaitEvent) where
    -- The events of `id` that were sunk, are in the buffer, and are in hand, in this order.
    abbrev Told : List WaitEvent → Session W Bind → Type 0
    Told hand s = of id (sunk_by s.1 ++ (s.0.pending.events ++ hand)) ≡ xs

    abbrev Calm : List WaitEvent → Session W Bind → Type 0
    Calm hand s = Quiet set policy.urgent_at s.0.pending.events × Told hand s

    abbrev Calmly : Option FollowEnd → Session W Bind → Type 0
    Calmly none s = Calm [] s
    Calmly (some end) s = Unit

    Gone : Session W Bind → Type 0
    Gone s = (s.0.pending ≡ empty) × (of id (sunk_by s.1) ≡ xs)

    -- What is behind the burst, `ps`, stays behind it.
    run_sink_told :
        (es ps : List WaitEvent)
        → Run Any
            (λ v. of id ((sunk_by v ++ es) ++ ps) ≡ xs)
            (sink rt es)
            (λ u v. of id (sunk_by v ++ ps) ≡ xs)
    run_sink_told es ps = record {
      at = λ v h.
          (run_post (λ u v' e. ap (λ l. of id (l ++ ps)) e ∙ h) (run_sunk (sunk_by v) es)).at v
            refl;
    }

    run_flush : Runs (Told []) (flush rt) (λ u. Gone)
    unfolding Gone
    run_flush = run_kept λ c.
        run_bind
          (λ u (s : Session W Bind).
            (s.0.pending ≡ empty) × (of id ((sunk_by s.1 ++ c.pending.events) ++ []) ≡ xs))
          (run_store _ (record c { pending = empty })
            (λ s p. (
              refl,
              ap (of id) (
                    append_assoc (sunk_by s.1) c.pending.events []
                    ∙ ap (λ (x : Emit). sunk_by s.1 ++ (x.pending.events ++ [])) (sym p.0))
                  ∙ p.1,
            )))
          λ u.
            run_through
              {P = λ d v.
                (d.pending ≡ empty) × (of id ((sunk_by v ++ c.pending.events) ++ []) ≡ xs)}
              {Q = λ d u v. (d.pending ≡ empty) × (of id (sunk_by v) ≡ xs)}
              λ d. run_given λ e.
                run_post (λ u v h. (e, ap (of id) (sym (append-nil (sunk_by v))) ∙ h))
                  (run_sink_told c.pending.events [])

    none_left : (p : Pending) → is_empty p ≡ true → Quiet set policy.urgent_at p.events
    none_left p h = ground arith

    run_emit_quiet : (now : Timestamp) → Runs (Told []) (emit_quiet rt set policy now) Calmly
    unfolding emit_quiet Gone
    run_emit_quiet now = run_kept λ c.
        run_if_known (is_empty c.pending)
          (λ h. run_pure Calmly none λ s p. (
            subst (λ (x : Emit). Quiet set policy.urgent_at x.pending.events) (sym p.0)
                (none_left c.pending h),
            p.1,
          ))
          λ h.
            run_pre (λ s p. p.1)
              (run_bind (λ u. Gone) run_flush
                λ u.
                  run_bind (λ u. Calm [])
                    (run_store (Calm [])
                      (record {
                        pending = empty;
                        next_quiet_emit_at = some (due rt set policy now);
                      })
                      λ s p. (tt, ap (of id) (append-nil (sunk_by s.1)) ∙ p.1))
                    λ u. run_pure Calmly none (λ s p. p))

    run_overflowed :
        {P : Session W Bind → Type 0} (unsunk : List WaitEvent) (rid : IdToken)
        → Runs P (restore_then_overflow rt unsunk rid >>= λ end. pure (some end)) Calmly
    run_overflowed unsunk rid =
        run_bind (λ end s. Unit) run_any λ end. run_pure Calmly (some end) (λ s p. tt)

    module _ (now : Timestamp) where
      abbrev Before : Emit → List WaitEvent → Session W Bind → Type 0
      Before c es s = (s.0.pending ≡ c.pending) × Calm es s

      run_apply_nothing : (c : Emit) → Runs (Calm []) (apply_nothing rt set policy now c) Calmly
      unfolding apply_nothing
      run_apply_nothing c =
          run_if (interval_is_due c.next_quiet_emit_at now && not (is_empty c.pending))
            (run_pre (λ s p. p.1) (run_emit_quiet now)) (run_pure Calmly none (λ s p. p))

      -- The turn is in the buffer.
      told_in :
          (c : Emit) (es : List WaitEvent) (p : Pending) (s : Session W Bind)
          → p.events ≡ c.pending.events ++ es
          → Before c es s
          → of id (sunk_by s.1 ++ (p.events ++ [])) ≡ xs
      told_in c es p s o k =
          ap (λ l. of id (sunk_by s.1 ++ l))
            (append-nil p.events ∙ o ∙ ap (λ (q : Pending). q.events ++ es) (sym k.0))
          ∙ k.1.1

      run_apply_all :
          (c : Emit) (es : List WaitEvent)
          → Runs (Before c es) (apply_all rt set policy now c es) Calmly
      unfolding apply_all
      run_apply_all c es = go (push_all set es c.pending) (push_all-Ordered set es c.pending)
        where
          go :
              (r : Filled Pending)
              → Ordered set (c.pending.events ++ es) r
              → Runs
                  (Before c es)
                  (elim r [
                    | filled p ↦
                        store (record c { pending = p }) >>= λ u. emit_quiet rt set policy now
                    | overflowed unsunk rid ↦
                        restore_then_overflow rt unsunk rid >>= λ end. pure (some end)
                  ])
                  Calmly
          go (overflowed unsunk rid) o = run_overflowed unsunk rid
          go (filled p) o =
              run_bind (λ u. Told [])
                (run_store (Told []) (record c { pending = p }) (λ s k. told_in c es p s o k))
                λ u. run_emit_quiet now

      run_apply_quiet :
          (c : Emit) (es : List WaitEvent)
          → Quiet set policy.urgent_at es
          → Runs (Before c es) (apply_quiet rt set policy now c es) Calmly
      unfolding apply_quiet hold_back
      run_apply_quiet c es n = go (push_all set es c.pending) (push_all-Ordered set es c.pending)
        where
          next : Option Timestamp
          next = or_at c.next_quiet_emit_at (due rt set policy now)

          go :
              (r : Filled Pending)
              → Ordered set (c.pending.events ++ es) r
              → Runs
                  (Before c es)
                  (elim r [
                    | filled p ↦ store (record { pending = p; next_quiet_emit_at = next }) >>= λ u.
                        hold_back rt set policy now next
                    | overflowed unsunk rid ↦
                        restore_then_overflow rt unsunk rid >>= λ end. pure (some end)
                  ])
                  Calmly
          go (overflowed unsunk rid) o = run_overflowed unsunk rid
          go (filled p) o =
              run_bind (λ u. Calm [])
                (run_store (Calm []) (record { pending = p; next_quiet_emit_at = next })
                  λ s k. (
                    subst (Quiet set policy.urgent_at) (sym o) (
                        All-append (λ e. is_urgent set policy.urgent_at e ≡ false) c.pending.events
                          es
                          (subst (λ (q : Pending). Quiet set policy.urgent_at q.events) k.0 k.1.0)
                          n),
                    told_in c es p s o k,
                  ))
                λ u.
                  run_if (interval_is_due next now) (run_pre (λ s p. p.1) (run_emit_quiet now))
                    (run_pure Calmly none (λ s k. k))

      run_urgent_burst :
          (es : List WaitEvent)
          → Runs
              (λ s.
                Quiet set policy.urgent_at s.0.pending.events
                × (of id ((sunk_by s.1 ++ es) ++ s.0.pending.events) ≡ xs))
              (urgent_burst rt es)
              (λ u. Calm [])
      run_urgent_burst es = record {
        at = λ s p. go s.0 p.0 (sink rt es s.1) ((run_sink_told es s.0.pending.events).at s.1 p.1);
      }
        where
          go :
              (c : Emit)
              → Quiet set policy.urgent_at c.pending.events
              → (r : Result (Unit {0}) × (SlotSet Bind × W))
              → Both Any (λ u v. of id (sunk_by v ++ c.pending.events) ≡ xs) r
              → Both {W = Session W Bind} {A = Unit {0}} Any
                  (λ u. Calm [])
                  (elim r.0 [
                    | ok u ↦ (ok tt, (c, r.1))
                    | err e ↦ (err e, (record c { pending = empty }, r.1))
                  ])
          go c q (ok u, v) h =
              (q, ap (λ l. of id (sunk_by v ++ l)) (append-nil c.pending.events) ∙ h)
          go c q (err e, v) h = tt

      run_apply_urgent :
          (c : Emit) (es : List WaitEvent)
          → Runs (Before c es) (apply_urgent rt set policy now c es) Calmly
      unfolding apply_urgent
      run_apply_urgent c es =
          go (sort_turn set policy.urgent_at (due rt set policy now) es start)
            (sort_turn-Sifted set policy.urgent_at (λ e. 0) (due rt set policy now) es start)
        where
          start : Sorted
          start = record {
            pending = c.pending;
            urgent = [];
            next_quiet_emit_at = c.next_quiet_emit_at;
          }

          sifted :
              (s : Sorted) (t : Session W Bind)
              → Sifted set policy.urgent_at (λ e. 0) es [] start (filled s)
              → Before c es t
              → Quiet set policy.urgent_at s.pending.events
                × (of id ((sunk_by t.1 ++ s.urgent) ++ s.pending.events) ≡ xs)
          sifted s t q k =
              let calm = subst (λ (p : Pending). Quiet set policy.urgent_at p.events) k.0 k.1.0 in
              (
                subst (Quiet set policy.urgent_at) (sym q.0) (
                    All-append (λ e. is_urgent set policy.urgent_at e ≡ false) c.pending.events
                      (quiet_of set policy.urgent_at es) calm
                      (quiet_of-Quiet set policy.urgent_at es)),
                ap (λ l. of id ((sunk_by t.1 ++ s.urgent) ++ l)) q.0
                    ∙ ap
                        (λ l. of id (
                          (sunk_by t.1 ++ l)
                          ++ (c.pending.events ++ quiet_of set policy.urgent_at es)))
                        q.1
                    ∙ of-overtaken set policy.urgent_at id (sunk_by t.1) c.pending.events es calm
                    ∙ ap (λ (p : Pending). of id (sunk_by t.1 ++ (p.events ++ es))) (sym k.0)
                    ∙ k.1.1,
              )

          go :
              (r : Filled Sorted)
              → Sifted set policy.urgent_at (λ e. 0) es [] start r
              → Runs
                  (Before c es)
                  (elim r [
                    | filled s ↦
                        store (record {
                          pending = s.pending;
                          next_quiet_emit_at = s.next_quiet_emit_at;
                        })
                        >>= λ u. urgent_burst rt s.urgent >>= λ u. pure none
                    | overflowed unsunk rid ↦
                        restore_then_overflow rt unsunk rid >>= λ end. pure (some end)
                  ])
                  Calmly
          go (overflowed unsunk rid) q = run_overflowed unsunk rid
          go (filled s) q =
              run_bind
                (λ u t.
                  Quiet set policy.urgent_at t.0.pending.events
                  × (of id ((sunk_by t.1 ++ s.urgent) ++ t.0.pending.events) ≡ xs))
                (run_store _
                  (record { pending = s.pending; next_quiet_emit_at = s.next_quiet_emit_at })
                  (λ t k. sifted s t q k))
                λ u.
                  run_bind (λ u. Calm []) (run_urgent_burst s.urgent)
                    λ u. run_pure Calmly none (λ t k. k)

      run_apply_events :
          (c : Emit) (es : List WaitEvent)
          → Runs (Before c es) (apply_events rt set policy now c es) Calmly
      unfolding apply_events
      run_apply_events c es =
          run_if
            (any (is_urgent set policy.urgent_at) es && interval_is_due c.next_quiet_emit_at now)
            (run_apply_all c es)
            (run_if_known (any (is_urgent set policy.urgent_at) es) (λ h. run_apply_urgent c es)
              (λ h. run_apply_quiet c es (none_urgent set policy.urgent_at es h)))

      started_pending :
          (b : Bool) (c : Emit)
          → ◌≡◌ {A = Pending}
              (if b
                then record c { next_quiet_emit_at = some (due rt set policy now) }
                else c).pending
              c.pending
      started_pending true c = refl
      started_pending false c = refl

      run_apply_some :
          (c : Emit) (es : List WaitEvent)
          → Runs (λ s. (s.0 ≡ c) × Calm es s) (apply_some rt set policy now c es) Calmly
      unfolding apply_some
      run_apply_some c es =
          run_pre
            (λ s p. (
              ap (λ (x : Emit). x.pending) p.0
                  ∙ sym (started_pending (starts_interval rt set policy now c es) c),
              p.1,
            ))
            (run_apply_events
              (if starts_interval rt set policy now c es
                then record c { next_quiet_emit_at = some (due rt set policy now) }
                else c)
              es)

      run_apply_turn :
          (es : List WaitEvent) → Runs (Calm es) (apply_turn rt set policy now es) Calmly
      unfolding apply_turn
      run_apply_turn [] = run_kept λ c. run_pre (λ s p. p.1) (run_apply_nothing c)
      run_apply_turn (e ∷ es) = run_kept λ c. run_apply_some c (e ∷ es)

  -- A turn that goes on keeps the order of each registration: what was sunk and then the buffer
  -- reads, for that registration, as what was sunk before, the buffer before and the turn's events,
  -- although urgent events overtake the buffer; and the buffer still holds no urgent event, if it
  -- held none before.
  pub apply_turn-Fifo :
      (id : IdToken) (now : Timestamp) (es : List WaitEvent) (s s' : Session W Bind)
      → Quiet set policy.urgent_at s.0.pending.events
      → apply_turn rt set policy now es s ≡ (ok none, s')
      → Quiet set policy.urgent_at s'.0.pending.events
        × (of id (sunk_by s'.1 ++ s'.0.pending.events)
            ≡ of id (sunk_by s.1 ++ (s.0.pending.events ++ es)))
  apply_turn-Fifo id now es s s' q e =
      let xs = of id (sunk_by s.1 ++ (s.0.pending.events ++ es)) in
      let h =
        subst (Both {A = Option FollowEnd} Any (Calmly id xs)) e
          ((run_apply_turn id xs now es).at s (q, refl)) in
      (h.0, ap (λ l. of id (sunk_by s'.1 ++ l)) (sym (append-nil s'.0.pending.events)) ∙ h.1)
