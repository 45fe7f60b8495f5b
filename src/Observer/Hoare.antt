-- ===== src/Observer/Hoare.antt =====
-- Triples over the effects of `Exec`: from a world with `P`, a run that returns ends with `Q`.
use waitprims.Prelude.{◌≡◌, refl, Bool, true, false, if◌then◌else◌}
use waitprims.Core.Error.{Error, Result, ok, err}
use waitprims.Observer.{Exec, ◌>>=◌, pure, raise, call, lift, continue}

abbrev pub Ends : {W A : Type 0} → (A → W → Type 0) → Result A × W → Type 0
Ends Q (ok a, w) = Q a w
Ends Q (err e, w) = Unit

pub record Hoare {W A : Type 0} (P : W → Type 0) (m : Exec W A) (Q : A → W → Type 0) : Type 0 where
  pub at : (w : W) → P w → Ends Q (m w)

-- `m` keeps `P` when it returns.
abbrev pub Keeps : {W A : Type 0} → (W → Type 0) → Exec W A → Type 0
Keeps P m = Hoare P m (λ _. P)

module _ {W A : Type 0} {P : W → Type 0} where
  pub hoare_pure : (Q : A → W → Type 0) (a : A) → ((w : W) → P w → Q a w) → Hoare P (pure a) Q
  hoare_pure Q a h = record { at = h }

  pub hoare_raise : (Q : A → W → Type 0) (e : Error) → Hoare P (raise e) Q
  hoare_raise Q e = record { at = λ w h. tt }

  pub hoare_call :
      (Q : A → W → Type 0) (f : W → A × W)
      → ((w : W) → P w → Q (f w).0 (f w).1)
      → Hoare P (call f) Q
  hoare_call Q f h = record { at = h }

  pub hoare_lift :
      (Q : A → W → Type 0) (r : Result A)
      → ((a : A) (w : W) → r ≡ ok a → P w → Q a w)
      → Hoare P (lift r) Q
  hoare_lift Q (ok a) h = record { at = λ w p. h a w refl p }
  hoare_lift Q (err e) h = record { at = λ w p. tt }

  pub hoare_if :
      {m n : Exec W A} {Q : A → W → Type 0} (b : Bool)
      → (b ≡ true → Hoare P m Q)
      → (b ≡ false → Hoare P n Q)
      → Hoare P (if b then m else n) Q
  hoare_if true hm hn = hm refl
  hoare_if false hm hn = hn refl

  pub hoare_pre :
      {m : Exec W A} {Q : A → W → Type 0} {P' : W → Type 0}
      → ((w : W) → P' w → P w)
      → Hoare P m Q
      → Hoare P' m Q
  hoare_pre weaker h = record { at = λ w p. h.at w (weaker w p) }

module _ {W A B : Type 0} {P : W → Type 0} where
  pub hoare_bind :
      {m : Exec W A} {f : A → Exec W B} {Q : B → W → Type 0} (R : A → W → Type 0)
      → Hoare P m R
      → ((a : A) → Hoare (R a) (f a) Q)
      → Hoare P (m >>= f) Q
  unfolding ◌>>=◌
  hoare_bind {m} {f} {Q} R hm hf = record { at = λ w p. go (m w) (hm.at w p) }
    where
      go : (r : Result A × W) → Ends R r → Ends Q (let (x, w') = r in continue f x w')
      go (ok a, w) h = (hf a).at w h
      go (err e, w) h = tt
