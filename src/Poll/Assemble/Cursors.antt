-- ===== src/Poll/Assemble/Cursors.antt =====
-- Which cursors an outcome of crates/waitprims-async/src/poll_cycle.rs retains.
use mathlib.Core.Path.{subst}
use mathlib.Core.Option.{some-injective}
use waitprims.Prelude.{
  ℕ, suc, ◌≡◌, ◌≢◌, ◌⊎◌, inl, inr, ◌∙◌, refl, ap, IsIn, find, find-IsIn, find-All, Bool, true,
  false, ◌&&◌, String, Option, none, some, List, [], ◌∷◌, map, All, ◌==◌, if◌then◌else◌, lookup,
  insert, Map, ℕ_key, ℕ_eq, string_key, string_eq,
}
use waitprims.Core.Error.{ok, err, validation, invalid}
use waitprims.Core.Time.{Timestamp}
use waitprims.Core.Types.{Anchor, OutcomeKind, Registration, is_reject}
use waitprims.Core.Messages.{RegistrationSet, PollCycleRequest, PollCycleOutcome}
use waitprims.Live.Outcome.{ResolvedStart}
use waitprims.Poll.Fairness.{arm_id_for}
use waitprims.Poll.Visit.{Visits}
use waitprims.Poll.Assemble.{
  Status, Parts, no_parts, visit_status, honest_start, is_start_of, first_known, carries_events,
  is_empty, add_arm, add_known, build_arms, cleared, outcome_of, build, without_events,
  empty_event_map,
}
use waitprims.Poll.Assemble.Loaded.{ok_or}

-- A property of entries survives an insertion.
All-insert :
    {V : Type 0} (P : String × V → Type 0) (k : String) (v : V) (m : Map String V)
    → P (k, v)
    → All P m
    → All P (insert k v m)
unfolding insert
All-insert P k v [] p h = (p, tt)
All-insert P k v ((j, w) ∷ m) p h = go (j == k) (string_key.before k j) (All-insert P k v m p h.1)
  where
    go :
        (same before : Bool)
        → All P (insert k v m)
        → All P (
            if same
            then (k, v) ∷ m
            else if before
            then (k, v) ∷ (j, w) ∷ m
            else (j, w) ∷ insert k v m)
    go true before rest = (p, h.1)
    go false true rest = (p, h)
    go false false rest = (h.0, rest)

module _ (set : RegistrationSet) (request : PollCycleRequest) (resolved : List ResolvedStart) where
  -- Where a registration is known to stand: at the start that a bind of it resolved; without one,
  -- at the anchor that the request acknowledged for it; without either, at its own start.
  abbrev pub Stands : Registration → Anchor → Type 0
  Stands r anchor =
      ((item : ResolvedStart) × (IsIn item resolved
          × ((item.registration_id ≡ r.registration_id) × (item.start ≡ anchor))))
      ⊎ (All (λ (item : ResolvedStart). item.registration_id ≢ r.registration_id) resolved
          × ((lookup r.registration_id request.acknowledged_anchors ≡ some anchor)
              ⊎ ((lookup r.registration_id request.acknowledged_anchors ≡ none)
                  × (r.start_anchor ≡ some anchor))))

  unfound :
      (r : Registration) (items : List ResolvedStart)
      → All (λ (item : ResolvedStart). is_start_of r item ≡ false) items
      → All (λ (item : ResolvedStart). item.registration_id ≢ r.registration_id) items
  unfound r [] h = tt
  unfound r (item ∷ items) h = (
    λ e. clash _ h.0 ((string_eq.decides item.registration_id r.registration_id).1 e),
    unfound r items h.1,
  )
    where
      clash : (b : Bool) → b ≡ false → b ≢ true
      clash true h e = cc
      clash false h e = cc

  honest_start-Stands :
      (r : Registration) (anchor : Anchor)
      → honest_start resolved request r ≡ some anchor
      → Stands r anchor
  unfolding honest_start
  honest_start-Stands r anchor =
      go (find (is_start_of r) resolved) (lookup r.registration_id request.acknowledged_anchors)
        refl refl
    where
      go :
          (found : Option ResolvedStart) (acked : Option Anchor)
          → find (is_start_of r) resolved ≡ found
          → lookup r.registration_id request.acknowledged_anchors ≡ acked
          → first_known found acked r.start_anchor ≡ some anchor
          → Stands r anchor
      go (some item) acked f l e =
          let (i, q) = find-IsIn (is_start_of r) item resolved f in
          inl (
            item,
            (
              i,
              (
                (string_eq.decides item.registration_id r.registration_id).0 q,
                some-injective _ _ e,
              ),
            ),
          )
      go none (some ack) f l e =
          inr (unfound r resolved (find-All (is_start_of r) resolved f), inl (l ∙ e))
      go none none f l e =
          inr (unfound r resolved (find-All (is_start_of r) resolved f), inr (l, e))

  -- The cursor of an entry is where a registration of the set, which it names, is known to stand.
  pub record IsHonest (entry : String × Anchor) : Type 0 where
    pub registration : Registration
    pub in_set : IsIn registration set.registrations
    pub named : registration.registration_id ≡ entry.0
    pub stands : Stands registration entry.1

  add_known-IsHonest :
      (kind : OutcomeKind) (registration : Registration) (arm_id : String) (start : Option Anchor)
      (s : Status) (parts : Parts)
      → IsIn registration set.registrations
      → carries_events kind ≡ false
      → honest_start resolved request registration ≡ start
      → All IsHonest parts.retained_through
      → All IsHonest (add_known set request kind registration arm_id start s parts).retained_through
  unfolding add_arm
  add_known-IsHonest kind registration arm_id none s parts i silent e h = h
  add_known-IsHonest kind registration arm_id (some start) s parts i silent e h =
      All-insert IsHonest registration.registration_id _ parts.retained_through
        (kept (carries_events kind) _ _ _ silent) h
    where
      kept :
          (carries has_events some_events : Bool) (proposed : Anchor)
          → carries ≡ false
          → IsHonest (
            registration.registration_id,
            if carries && has_events && some_events then proposed else start,
          )
      kept false has_events some_events proposed h = record {
        registration = registration;
        in_set = i;
        named = refl;
        stands = honest_start-Stands registration start e;
      }
      kept true has_events some_events proposed h = cc

  build_arms-IsHonest :
      (kind : OutcomeKind) (visits : Visits) (idx seen : ℕ) (registrations : List Registration)
      (parts : Parts)
      → ((r : Registration) → IsIn r registrations → IsIn r set.registrations)
      → carries_events kind ≡ false
      → All IsHonest parts.retained_through
      → All IsHonest
          (build_arms set request kind resolved visits idx seen registrations
            parts).retained_through
  unfolding build_arms
  build_arms-IsHonest kind visits idx seen [] parts all_in silent h = h
  build_arms-IsHonest kind visits idx seen (registration ∷ rest) parts all_in silent h =
      build_arms-IsHonest kind visits (suc idx) (arm_id_for request registration seen).1 rest _
        (λ r i. all_in r (inr i)) silent
        (add_known-IsHonest kind registration (arm_id_for request registration seen).0
          (honest_start resolved request registration) (visit_status (lookup idx visits)) parts
          (all_in registration (inl refl)) silent refl h)

  cleared-retained_through :
      (kind : OutcomeKind) (parts : Parts)
      → (cleared set request kind parts).retained_through ≡ parts.retained_through
  unfolding cleared
  cleared-retained_through kind parts = go (is_reject kind)
    where
      go :
          (b : Bool)
          → (if b
              then record parts {
                events = [];
                arms = map (without_events set request) parts.arms;
                retained_events =
                    empty_event_map set request (map (without_events set request) parts.arms);
              }
              else parts).retained_through
            ≡ parts.retained_through
      go true = refl
      go false = refl

  -- An outcome that is built with a kind that carries no events advances no cursor: each one
  -- that it retains is where a registration of the set was known to stand: at the start that its
  -- bind resolved, without one at the acknowledgement in the request, without either at its own.
  pub build-IsHonest :
      (now : Timestamp) (visits : Visits) (kind : OutcomeKind) (reason : Option String)
      (o : PollCycleOutcome)
      → carries_events kind ≡ false
      → build set request now resolved visits kind reason ≡ ok o
      → All IsHonest o.retained_through
  unfolding build outcome_of
  build-IsHonest now visits kind reason o silent = go (is_empty parts.arms)
    where
      parts : Parts
      parts = build_arms set request kind resolved visits 0 0 set.registrations no_parts

      go :
          (b : Bool)
          → (if b
              then err (validation (invalid "/arms" "unresolved_start"))
              else ok (outcome_of set request now kind reason (cleared set request kind parts)))
            ≡ ok o
          → All IsHonest o.retained_through
      go true e = cc
      go false e =
          subst (λ (r : PollCycleOutcome). All IsHonest r.retained_through) (ap (λ r. ok_or r o) e)
            (rw (cleared-retained_through kind parts)
              (build_arms-IsHonest kind visits 0 0 set.registrations no_parts (λ r i. i) silent tt))
