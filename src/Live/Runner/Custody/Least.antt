-- ===== src/Live/Runner/Custody/Least.antt =====
-- crates/waitprims-async/src/first_match.rs: the winner and the losers of a decision.
use mathlib.Core.List.{Perm}
use mathlib.Core.List.Perm
use waitprims.Prelude.{
  ℕ, ◌≡◌, ◌≢◌, refl, ap, true, Option, none, some, List, [], ◌∷◌, ◌++◌, map, All, if◌then◌else◌,
  arith, ltb, ℕ_eq, Bool-cases, inl, inr,
}
use waitprims.Core.Types.{WaitEvent}
use waitprims.Live.Decide.{lower, min_by_idx}
use waitprims.Live.Runner.{is_idx, idx_of}

-- Each arm gave at most one observation.
abbrev pub Distinct : {A : Type 0} → List (ℕ × A) → Type 0
Distinct [] = Unit
Distinct ((i, a) ∷ rest) = All (λ e. i ≢ e.0) rest × Distinct rest

unfoldable pub except : Option ℕ → List (ℕ × WaitEvent) → List (ℕ × WaitEvent)
except winner [] = []
except winner ((i, e) ∷ rest) =
    if is_idx i winner then except winner rest else (i, e) ∷ except winner rest

abbrev pub bare : List (ℕ × WaitEvent) → List WaitEvent
bare = map (λ e. e.1)

except_fresh : (i : ℕ) (l : List (ℕ × WaitEvent)) → All (λ e. i ≢ e.0) l → except (some i) l ≡ l
unfolding except
except_fresh i [] h = refl
except_fresh i ((j, e) ∷ l) h = ground (arith, except_fresh i l h.1)

pub except-none : (l : List (ℕ × WaitEvent)) → except none l ≡ l
unfolding except
except-none [] = refl
except-none ((j, e) ∷ l) = ap (λ r. (j, e) ∷ r) (except-none l)

abbrev pub the_list : Option (ℕ × WaitEvent) → List WaitEvent
the_list none = []
the_list (some (i, e)) = e ∷ []

except_self :
    (i : ℕ) (e : WaitEvent) (l : List (ℕ × WaitEvent))
    → All (λ e. i ≢ e.0) l
    → except (some i) ((i, e) ∷ l) ≡ l
unfolding except
except_self i e l h = ground (arith, except_fresh i l h)

except_later :
    (i : ℕ) (e : WaitEvent) (j : ℕ) (l : List (ℕ × WaitEvent))
    → ltb j i ≡ true
    → except (some j) ((i, e) ∷ l) ≡ (i, e) ∷ except (some j) l
unfolding except
except_later i e j l h = ground arith

-- The least entry and the others are all the entries.
pub min-perm :
    (l : List (ℕ × WaitEvent))
    → Distinct l
    → Perm (bare l) (the_list (min_by_idx l) ++ bare (except (idx_of (min_by_idx l)) l))
unfolding min_by_idx
min-perm [] d = unfold except in Perm.nil
min-perm ((i, e) ∷ l) d = go (min_by_idx l) (min-perm l d.1)
  where
    go :
        (m : Option (ℕ × WaitEvent))
        → Perm (bare l) (the_list m ++ bare (except (idx_of m) l))
        → Perm (e ∷ bare l) (
            the_list (some (lower (i, e) m))
            ++ bare (except (idx_of (some (lower (i, e) m))) ((i, e) ∷ l)))
    go none p = rw (except_self i e l d.0) Perm.rfl
    go (some (j, f)) p = elim (Bool-cases (ltb j i)) [
      | inl h ↦ rw (h, except_later i e j l h) (Perm.trans (Perm.cons e p) (Perm.swap f e _))
      | inr h ↦ rw (h, except_self i e l d.0) Perm.rfl
    ]
