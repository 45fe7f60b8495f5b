-- ===== src/Poll/Kind/Shown.antt =====
-- What the kind of a poll outcome says of the visits of its arms: `decide_kind` of
-- crates/waitprims-async/src/poll_cycle.rs.
use mathlib.Core.Path.{subst}
use waitprims.Prelude.{
  ℕ, ◌≡◌, ◌≢◌, ◌≤◌, ◌<◌, ◌⊎◌, inl, inr, refl, sym, ap, ◌∙◌, Bool, true, false, ◌||◌, String, Option,
  none, some, List, [], ◌∷◌, ◌++◌, All, IsIn, length, range_from, get_elem?, lookup, ℕ_key,
  if◌then◌else◌, arith,
}
use waitprims.Core.Error.{Result, ok, err, validation, invalid}
use waitprims.Core.Time.{Timestamp, ◌≥ᵗ◌}
use waitprims.Core.Types.{OutcomeKind, Registration}
use waitprims.Core.Messages.{RegistrationSet, PollCycleRequest, PollCycleOutcome}
use waitprims.Live.Outcome.{ResolvedStart}
use waitprims.Poll.Fairness.{fairness_order}
use waitprims.Poll.Fairness.Rotation.{fairness_order-All}
use waitprims.Poll.Visit.{ArmVisit, Visits}
use waitprims.Poll.Assemble.{Parts, no_parts, build, build_arms, cleared, is_empty, outcome_of}
use waitprims.Poll.Assemble.Loaded.{ok_or}
use waitprims.Poll.Kind.{
  Findings, no_findings, findings, is_required_at, note, scan, kind_of, decide_kind,
}
use waitprims.Poll.Kind.Clean.{is_clean, IsClear, Promises, kind_of-Promises}

-- What a visit shows, of an arm that is required or not.
abbrev pub Sound : Bool → Option ArmVisit → Type 0
Sound required (some ArmVisit.overflow) = ⊥
Sound required (some (ArmVisit.failed reason)) = ⊥
Sound required (some (ArmVisit.saturated es)) = ⊥
Sound required (some (ArmVisit.outage reason)) = required ≡ false
Sound required (some (ArmVisit.cursor_uncertain reason)) = required ≡ false
Sound required (some (ArmVisit.degraded reason)) = required ≡ false
Sound required visit = Unit

abbrev pub NotLeft : Bool → Option ArmVisit → Type 0
NotLeft required (some ArmVisit.deferred) = required ≡ false
NotLeft required visit = Unit

abbrev pub Silent : Bool → Option ArmVisit → Type 0
Silent required (some (ArmVisit.events es)) = es ≡ []
Silent required (some (ArmVisit.saturated es)) = es ≡ []
Silent required visit = Unit

abbrev pub Telling : Bool → Option ArmVisit → Type 0
Telling required (some (ArmVisit.events es)) = es ≢ []
Telling required (some (ArmVisit.saturated es)) = es ≢ []
Telling required visit = ⊥

neither : (a b : Bool) → (a || b) ≡ false → (a ≡ false) × (b ≡ false)
neither true b h = cc
neither false b h = (refl, h)

truth : true ≡ false → ⊥
truth h = cc

something : {A : Type 0} {a : A} → some a ≡ none → ⊥
something h = cc

-- A property of the findings, with what it says of one visit.
record Traced (P : Findings → Type 0) (Q : Bool → Option ArmVisit → Type 0) : Type 0 where
  step :
      (required : Bool) (visit : Option ArmVisit) (f : Findings)
      → P (note required visit f)
      → P f × Q required visit

IsClear-Traced : Traced IsClear Sound
unfolding note
IsClear-Traced = record { step = go }
  where
    dirtied :
        (required : Bool) (f : Findings)
        → IsClear (record f { dirty = f.dirty || required })
        → IsClear f × (required ≡ false)
    dirtied required f h =
        let (d, r) = neither f.dirty required h.not_dirty in
        (
          record {
            no_overflow = h.no_overflow;
            no_failure = h.no_failure;
            not_dirty = d;
            not_truncated = h.not_truncated;
          },
          r,
        )

    same :
        (f g : Findings)
        → g.overflow ≡ f.overflow
        → g.failed ≡ f.failed
        → g.dirty ≡ f.dirty
        → g.truncated ≡ f.truncated
        → IsClear g
        → IsClear f
    same f g a b c d h = record {
      no_overflow = sym a ∙ h.no_overflow;
      no_failure = sym b ∙ h.no_failure;
      not_dirty = sym c ∙ h.not_dirty;
      not_truncated = sym d ∙ h.not_truncated;
    }

    go :
        (required : Bool) (visit : Option ArmVisit) (f : Findings)
        → IsClear (note required visit f)
        → IsClear f × Sound required visit
    go required none f h = (h, tt)
    go required (some (ArmVisit.events es)) f h = (same f _ refl refl refl refl h, tt)
    go required (some (ArmVisit.saturated es)) f h = elim (truth h.not_truncated) [ ]
    go required (some ArmVisit.idle) f h = (h, tt)
    go required (some ArmVisit.overflow) f h = elim (truth h.no_overflow) [ ]
    go required (some (ArmVisit.failed reason)) f h = elim (something h.no_failure) [ ]
    go required (some (ArmVisit.outage reason)) f h = dirtied required f h
    go required (some (ArmVisit.cursor_uncertain reason)) f h = dirtied required f h
    go required (some (ArmVisit.degraded reason)) f h = dirtied required f h
    go required (some ArmVisit.deferred) f h = (same f _ refl refl refl refl h, tt)

NotLeft-Traced : Traced (λ f. f.deferred_required ≡ false) NotLeft
unfolding note
NotLeft-Traced = record { step = go }
  where
    go :
        (required : Bool) (visit : Option ArmVisit) (f : Findings)
        → (note required visit f).deferred_required ≡ false
        → (f.deferred_required ≡ false) × NotLeft required visit
    go required none f h = (h, tt)
    go required (some (ArmVisit.events es)) f h = (h, tt)
    go required (some (ArmVisit.saturated es)) f h = (h, tt)
    go required (some ArmVisit.idle) f h = (h, tt)
    go required (some ArmVisit.overflow) f h = (h, tt)
    go required (some (ArmVisit.failed reason)) f h = (h, tt)
    go required (some (ArmVisit.outage reason)) f h = (h, tt)
    go required (some (ArmVisit.cursor_uncertain reason)) f h = (h, tt)
    go required (some (ArmVisit.degraded reason)) f h = (h, tt)
    go required (some ArmVisit.deferred) f h = neither f.deferred_required required h

both_empty :
    {A : Type 0} (xs ys : List A) → is_empty (xs ++ ys) ≡ true → (is_empty xs ≡ true) × (ys ≡ [])
both_empty [] [] h = (refl, refl)
both_empty [] (y ∷ ys) h = cc
both_empty (x ∷ xs) ys h = cc

Silent-Traced : Traced (λ f. is_empty f.events ≡ true) Silent
unfolding note
Silent-Traced = record { step = go }
  where
    go :
        (required : Bool) (visit : Option ArmVisit) (f : Findings)
        → is_empty (note required visit f).events ≡ true
        → (is_empty f.events ≡ true) × Silent required visit
    go required none f h = (h, tt)
    go required (some (ArmVisit.events es)) f h = both_empty f.events es h
    go required (some (ArmVisit.saturated es)) f h = both_empty f.events es h
    go required (some ArmVisit.idle) f h = (h, tt)
    go required (some ArmVisit.overflow) f h = (h, tt)
    go required (some (ArmVisit.failed reason)) f h = (h, tt)
    go required (some (ArmVisit.outage reason)) f h = (h, tt)
    go required (some (ArmVisit.cursor_uncertain reason)) f h = (h, tt)
    go required (some (ArmVisit.degraded reason)) f h = (h, tt)
    go required (some ArmVisit.deferred) f h = (h, tt)

one_full :
    {A : Type 0} (xs ys : List A) → is_empty (xs ++ ys) ≡ false → (is_empty xs ≡ false) ⊎ (ys ≢ [])
one_full (x ∷ xs) ys h = inl refl
one_full [] [] h = cc
one_full [] (y ∷ ys) h = inr (λ e. cc)

note-Telling :
    (required : Bool) (visit : Option ArmVisit) (f : Findings)
    → is_empty (note required visit f).events ≡ false
    → (is_empty f.events ≡ false) ⊎ Telling required visit
unfolding note
note-Telling required none f h = inl h
note-Telling required (some (ArmVisit.events es)) f h = one_full f.events es h
note-Telling required (some (ArmVisit.saturated es)) f h = one_full f.events es h
note-Telling required (some ArmVisit.idle) f h = inl h
note-Telling required (some ArmVisit.overflow) f h = inl h
note-Telling required (some (ArmVisit.failed reason)) f h = inl h
note-Telling required (some (ArmVisit.outage reason)) f h = inl h
note-Telling required (some (ArmVisit.cursor_uncertain reason)) f h = inl h
note-Telling required (some (ArmVisit.degraded reason)) f h = inl h
note-Telling required (some ArmVisit.deferred) f h = inl h

module _ (regs : List Registration) (visits : Visits) where
  -- What a predicate says of the arm at an index.
  abbrev pub At : (Bool → Option ArmVisit → Type 0) → ℕ → Type 0
  At Q idx = Q (is_required_at (get_elem? regs idx)) (lookup idx visits)

  scan-All :
      {P : Findings → Type 0} {Q : Bool → Option ArmVisit → Type 0}
      → Traced P Q
      → (order : List ℕ) (f : Findings) → P (scan regs visits order f)
      → P f × All (At Q) order
  unfolding scan
  scan-All traced [] f h = (h, tt)
  scan-All traced (idx ∷ order) f h =
      let (h', rest) = scan-All traced order _ h in
      let (before, q) = traced.step _ _ f h' in (before, (q, rest))

  scan-Telling :
      (order : List ℕ) (f : Findings)
      → is_empty (scan regs visits order f).events ≡ false
      → (is_empty f.events ≡ false) ⊎ ((idx : ℕ) × (IsIn idx order × At Telling idx))
  unfolding scan
  scan-Telling [] f h = inl h
  scan-Telling (idx ∷ order) f h = elim (scan-Telling order _ h) [
    | inr (i, (j, t)) ↦ inr (i, (inr j, t))
    | inl h' ↦ elim (note-Telling _ _ f h') [ inl b ↦ inl b | inr t ↦ inr (idx, (inl refl, t)) ]
  ]

module _ (set : RegistrationSet) (request : PollCycleRequest) (visits : Visits) where
  -- A predicate of the visits of all arms.
  abbrev pub OfAll : (Bool → Option ArmVisit → Type 0) → Type 0
  OfAll Q = All (At set.registrations visits Q) (range_from 0 (length set.registrations))

  of_all :
      (Q : Bool → Option ArmVisit → Type 0)
      → All (At set.registrations visits Q) (fairness_order set request)
      → OfAll Q
  of_all Q = fairness_order-All (At set.registrations visits Q) set request

  -- What each clean kind says of the arms, and of the time.
  abbrev pub Shows : Timestamp → OutcomeKind → Type 0
  Shows now OutcomeKind.events =
      OfAll NotLeft
      × ((idx : ℕ) × (IsIn idx (fairness_order set request)
            × At set.registrations visits Telling idx))
  Shows now OutcomeKind.no_change =
      OfAll NotLeft × OfAll Silent × (now.instant < request.logical_deadline.instant)
  Shows now OutcomeKind.logical_deadman =
      OfAll Silent × (request.logical_deadline.instant ≤ now.instant)
  Shows now kind = Unit

  Promises-Shows :
      (now : Timestamp) (kind : OutcomeKind)
      → Promises (now ≥ᵗ request.logical_deadline) (findings set request visits) kind
      → Shows now kind
  Promises-Shows now OutcomeKind.events h = (
    of_all NotLeft
        (scan-All set.registrations visits NotLeft-Traced (fairness_order set request) no_findings
          h.1).1,
    elim (scan-Telling set.registrations visits (fairness_order set request) no_findings h.0) [
      | inl e ↦ absurd (truth e)
      | inr t ↦ t
    ],
  )
  Promises-Shows now OutcomeKind.no_change h = (
    of_all NotLeft
        (scan-All set.registrations visits NotLeft-Traced (fairness_order set request) no_findings
          h.1).1,
    of_all Silent
        (scan-All set.registrations visits Silent-Traced (fairness_order set request) no_findings
          h.0).1,
    ground (arith, h.2),
  )
  Promises-Shows now OutcomeKind.logical_deadman h = (
    of_all Silent
        (scan-All set.registrations visits Silent-Traced (fairness_order set request) no_findings
          h.0).1,
    ground (arith, h.1),
  )
  Promises-Shows now OutcomeKind.partial h = tt
  Promises-Shows now OutcomeKind.cancelled h = tt
  Promises-Shows now OutcomeKind.coverage_degraded h = tt
  Promises-Shows now OutcomeKind.refused h = tt
  Promises-Shows now OutcomeKind.reauthentication_required h = tt
  Promises-Shows now OutcomeKind.failed h = tt

  build-kind :
      (now : Timestamp) (resolved : List ResolvedStart) (kind : OutcomeKind)
      (reason : Option String) (o : PollCycleOutcome)
      → build set request now resolved visits kind reason ≡ ok o
      → kind ≡ o.outcome_kind
  unfolding build outcome_of
  build-kind now resolved kind reason o = go (is_empty parts.arms)
    where
      parts : Parts
      parts = build_arms set request kind resolved visits 0 0 set.registrations no_parts

      go :
          (b : Bool)
          → (if b
              then err (validation (invalid "/arms" "unresolved_start"))
              else ok (outcome_of set request now kind reason (cleared set request kind parts)))
            ≡ ok o
          → kind ≡ o.outcome_kind
      go true e = cc
      go false e = ap (λ (r : Result PollCycleOutcome). (ok_or r o).outcome_kind) e

  -- An outcome of a clean kind is decided only if no arm overflowed, failed or was cut short, and no
  -- required one had an outage, an uncertain cursor or a degraded source. Of kind `events`, no
  -- required arm was deferred, and some arm gave an event; of kind `no_change`, no required arm was
  -- deferred, none gave an event, and it is before the logical deadline; of kind `logical_deadman`,
  -- no arm gave an event, and that deadline is reached.
  pub decide_kind-Shows :
      (now : Timestamp) (resolved : List ResolvedStart) (o : PollCycleOutcome)
      → decide_kind set request now resolved visits ≡ ok o
      → is_clean o.outcome_kind ≡ true
      → OfAll Sound × Shows now o.outcome_kind
  unfolding decide_kind
  decide_kind-Shows now resolved o e clean =
      let f = findings set request visits in
      let at_logical = now ≥ᵗ request.logical_deadline in
      let same = build-kind now resolved (kind_of at_logical f).0 (kind_of at_logical f).1 o e in
      let (clear, promised) = kind_of-Promises at_logical f (ap is_clean same ∙ clean) in
      (
        of_all Sound
            (scan-All set.registrations visits IsClear-Traced (fairness_order set request)
              no_findings clear).1,
        subst (Shows now) same (Promises-Shows now (kind_of at_logical f).0 promised),
      )
