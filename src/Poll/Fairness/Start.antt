-- ===== src/Poll/Fairness/Start.antt =====
-- Where the cursor of a request starts the rotation: `fairness_start_index` of
-- crates/waitprims-async/src/poll_cycle.rs.
use native.Mathlib.Omega.{arith}
use mathlib.Core.Path.{subst}
use waitprims.Prelude.{
  ℕ, suc, ◌+◌, ◌-◌, ◌≡◌, ◌≢◌, ◌⊎◌, inl, inr, refl, ap, Bool, true, false, ◌||◌, String, List, [],
  ◌∷◌, ◌++◌, length, range_from, join, ◌==◌, string_eq, if_both, if◌then◌else◌,
}
use waitprims.Core.Types.{Registration}
use waitprims.Core.Messages.{RegistrationSet, PollCycleRequest}
use waitprims.Poll.Fairness.{arm_id_for, names, cursor_index, fairness_start_index, fairness_order}
use waitprims.Poll.Fairness.Rotation.{fairness_order-rotation}

-- A cursor names an arm by its arm id or its registration id, each with or without "fair:".
abbrev pub Named : String → String → String → Type 0
Named cursor arm_id registration_id =
    (cursor ≡ arm_id)
    ⊎ ((cursor ≡ join "fair:" arm_id)
        ⊎ ((cursor ≡ registration_id) ⊎ (cursor ≡ join "fair:" registration_id)))

equal : (s t : String) → (s == t) ≡ true → s ≡ t
equal s t h = (string_eq.decides s t).0 h

unequal : (s t : String) → (s == t) ≡ false → s ≢ t
unequal s t h e = clash (s == t) h ((string_eq.decides s t).1 e)
  where
    clash : (b : Bool) → b ≡ false → b ≢ true
    clash true h e = cc
    clash false h e = cc

four_true :
    {A B C D : Type 0} (a b c d : Bool)
    → (a ≡ true → A)
    → (b ≡ true → B)
    → (c ≡ true → C)
    → (d ≡ true → D)
    → (a || b || c || d) ≡ true
    → A ⊎ (B ⊎ (C ⊎ D))
four_true true b c d f g h k e = inl (f refl)
four_true false true c d f g h k e = inr (inl (g refl))
four_true false false true d f g h k e = inr (inr (inl (h refl)))
four_true false false false true f g h k e = inr (inr (inr (k refl)))
four_true false false false false f g h k e = cc

four_false :
    (a b c d : Bool)
    → (a || b || c || d) ≡ false
    → (a ≡ false) × (b ≡ false) × (c ≡ false) × (d ≡ false)
four_false true b c d e = cc
four_false false true c d e = cc
four_false false false true d e = cc
four_false false false false true e = cc
four_false false false false false e = (refl, refl, refl, refl)

names-Named : (c a r : String) → names c a r ≡ true → Named c a r
names-Named c a r h =
    four_true (c == a) (c == join "fair:" a) (c == r) (c == join "fair:" r) (equal c a)
      (equal c (join "fair:" a)) (equal c r) (equal c (join "fair:" r)) h

names-Named_otherwise : (c a r : String) → names c a r ≡ false → Named c a r → ⊥
names-Named_otherwise c a r h n =
    let (p, q, s, t) = four_false (c == a) (c == join "fair:" a) (c == r) (c == join "fair:" r) h in
    elim n [
      | inl e ↦ unequal c a p e
      | inr m ↦ elim m [
        | inl e ↦ unequal c (join "fair:" a) q e
        | inr k ↦ elim k [ inl e ↦ unequal c r s e | inr e ↦ unequal c (join "fair:" r) t e ]
      ]
    ]

module _ (request : PollCycleRequest) where
  -- The request's cursor names the arm of a registration that comes after so many required ones.
  abbrev pub Marks : ℕ → Registration → Type 0
  Marks seen r = Named request.fairness_cursor (arm_id_for request r seen).0 r.registration_id

  -- The count of required registrations, after one and after several.
  abbrev counted : Registration → ℕ → ℕ
  counted r seen = if r.required then suc seen else seen

  abbrev pub counted_all : List Registration → ℕ → ℕ
  counted_all [] seen = seen
  counted_all (r ∷ rs) seen = counted_all rs (counted r seen)

  abbrev pub MarksNone : ℕ → List Registration → Type 0
  MarksNone seen [] = Unit
  MarksNone seen (r ∷ rs) = (Marks seen r → ⊥) × MarksNone (counted r seen) rs

  -- The first registration that the cursor names stands at the index.
  pub record FirstMarked (seen : ℕ) (regs : List Registration) (index : ℕ) : Type 0 where
    pub before : List Registration
    pub marked : Registration
    pub after : List Registration
    pub split : regs ≡ before ++ marked ∷ after
    pub at_index : length before ≡ index
    pub none_before : MarksNone seen before
    pub marks : Marks (counted_all before seen) marked

  arm_id_for-counted :
      (r : Registration) (seen : ℕ) → (arm_id_for request r seen).1 ≡ counted r seen
  unfolding arm_id_for
  arm_id_for-counted r seen = ground arith

  -- What a search from the index on finds.
  abbrev Search : ℕ → ℕ → List Registration → ℕ → Type 0
  Search seen idx regs found =
      ((k : ℕ) × ((found ≡ idx + k) × FirstMarked seen regs k))
      ⊎ ((found ≡ 0) × MarksNone seen regs)

  later :
      (seen idx : ℕ) (r : Registration) (rs : List Registration) {found : ℕ}
      → (Marks seen r → ⊥)
      → Search (counted r seen) (suc idx) rs found
      → Search seen idx (r ∷ rs) found
  later seen idx r rs unnamed (inl (k, (e, f))) = inl (
    suc k,
    (
      omega (arith, e),
      record {
        before = r ∷ f.before;
        marked = f.marked;
        after = f.after;
        split = ap (λ l. r ∷ l) f.split;
        at_index = ap suc f.at_index;
        none_before = (unnamed, f.none_before);
        marks = f.marks;
      },
    ),
  )
  later seen idx r rs unnamed (inr (e, m)) = inr (e, (unnamed, m))

  here :
      (seen idx : ℕ) (r : Registration) (rs : List Registration)
      → Marks seen r
      → Search seen idx (r ∷ rs) idx
  here seen idx r rs named = inl (
    0,
    (
      omega arith,
      record {
        before = [];
        marked = r;
        after = rs;
        split = refl;
        at_index = refl;
        none_before = tt;
        marks = named;
      },
    ),
  )

  cursor_index-Search :
      (seen idx : ℕ) (regs : List Registration)
      → Search seen idx regs (cursor_index request seen idx regs)
  unfolding cursor_index
  cursor_index-Search seen idx [] = inr (refl, tt)
  cursor_index-Search seen idx (r ∷ rs) =
      if_both (Search seen idx (r ∷ rs))
        (names request.fairness_cursor (arm_id_for request r seen).0 r.registration_id)
        (λ h. here seen idx r rs (names-Named _ _ _ h))
        (λ h. later seen idx r rs (names-Named_otherwise _ _ _ h) (
          subst
            (λ n.
              Search n (suc idx) rs
                (cursor_index request (arm_id_for request r seen).1 (suc idx) rs))
            (arm_id_for-counted r seen)
            (cursor_index-Search (arm_id_for request r seen).1 (suc idx) rs)))

-- Where the rotation of a request starts: at the first registration that its cursor names, and at the
-- first of all if the cursor is "fair:start" or names none.
abbrev pub Starts : RegistrationSet → PollCycleRequest → ℕ → Type 0
Starts set request s =
    ((request.fairness_cursor ≢ "fair:start") × FirstMarked request 0 set.registrations s)
    ⊎ (((request.fairness_cursor ≡ "fair:start") ⊎ MarksNone request 0 set.registrations) × (s ≡ 0))

fairness_start_index-Starts :
    (set : RegistrationSet) (request : PollCycleRequest)
    → Starts set request (fairness_start_index set request)
unfolding fairness_start_index
fairness_start_index-Starts set request =
    if_both (Starts set request) (request.fairness_cursor == "fair:start")
      (λ h. inr (inl (equal _ _ h), refl))
      (λ h. go (unequal _ _ h) (cursor_index-Search request 0 0 set.registrations))
  where
    go :
        {found : ℕ}
        → (request.fairness_cursor ≢ "fair:start")
        → Search request 0 0 set.registrations found
        → Starts set request found
    go unnamed (inl (k, (e, f))) =
        inl (unnamed, subst (FirstMarked request 0 set.registrations) (omega (arith, e)) f)
    go unnamed (inr (e, m)) = inr (inr m, e)

-- The order of a cycle: the arms from the first that the cursor names on, in turn to the last, and then
-- those before it; or all in turn, if the cursor is "fair:start" or names none. So each arm is
-- visited, and none twice.
pub fairness_order-Starts :
    (set : RegistrationSet) (request : PollCycleRequest)
    → (s : ℕ) × (Starts set request s
        × (fairness_order set request
            ≡ range_from s (length set.registrations - s) ++ range_from 0 s))
fairness_order-Starts set request = (
  fairness_start_index set request,
  (fairness_start_index-Starts set request, fairness_order-rotation set request),
)
