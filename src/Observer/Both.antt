-- ===== src/Observer/Both.antt =====
-- Triples over the effects of `Exec` that speak of failures too: from a world with `P`, a run that
-- returns ends with `Q`, and one that fails ends with `E`.
use waitprims.Prelude.{◌≡◌, refl, Bool, true, false, if◌then◌else◌}
use waitprims.Core.Error.{Error, Result, ok, err}
use waitprims.Observer.{Exec, ◌>>=◌, pure, raise, call, lift, continue}

abbrev pub Both : {W A : Type 0} → (W → Type 0) → (A → W → Type 0) → Result A × W → Type 0
Both E Q (ok a, w) = Q a w
Both E Q (err e, w) = E w

pub record Run {W A : Type 0} (E P : W → Type 0) (m : Exec W A) (Q : A → W → Type 0) : Type 0 where
  pub at : (w : W) → P w → Both E Q (m w)

module _ {W A : Type 0} {E P : W → Type 0} where
  pub run_pure : (Q : A → W → Type 0) (a : A) → ((w : W) → P w → Q a w) → Run E P (pure a) Q
  run_pure Q a h = record { at = h }

  pub run_raise : (Q : A → W → Type 0) (e : Error) → ((w : W) → P w → E w) → Run E P (raise e) Q
  run_raise Q e h = record { at = h }

  pub run_call :
      (Q : A → W → Type 0) (f : W → A × W)
      → ((w : W) → P w → Q (f w).0 (f w).1)
      → Run E P (call f) Q
  run_call Q f h = record { at = h }

  pub run_lift :
      (Q : A → W → Type 0) (r : Result A)
      → ((w : W) → P w → E w)
      → ((a : A) (w : W) → P w → Q a w)
      → Run E P (lift r) Q
  run_lift Q (ok a) e h = record { at = h a }
  run_lift Q (err x) e h = record { at = e }

  pub run_if :
      {m n : Exec W A} {Q : A → W → Type 0} (b : Bool)
      → Run E P m Q
      → Run E P n Q
      → Run E P (if b then m else n) Q
  run_if true hm hn = hm
  run_if false hm hn = hn

module _ {W A : Type 0} {E P : W → Type 0} where
  -- With the value of the test.
  pub run_if_known :
      {m n : Exec W A} {Q : A → W → Type 0} (b : Bool)
      → (b ≡ true → Run E P m Q)
      → (b ≡ false → Run E P n Q)
      → Run E P (if b then m else n) Q
  run_if_known true hm hn = hm refl
  run_if_known false hm hn = hn refl

module _ {W A B : Type 0} {E P : W → Type 0} where
  pub run_bind :
      {m : Exec W A} {f : A → Exec W B} {Q : B → W → Type 0} (R : A → W → Type 0)
      → Run E P m R
      → ((a : A) → Run E (R a) (f a) Q)
      → Run E P (m >>= f) Q
  unfolding ◌>>=◌
  run_bind {m} {f} {Q} R hm hf = record { at = λ w p. go (m w) (hm.at w p) }
    where
      go : (r : Result A × W) → Both E R r → Both E Q (let (x, w') = r in continue f x w')
      go (ok a, w) h = (hf a).at w h
      go (err e, w) h = h

module _ {W A : Type 0} {E P : W → Type 0} {m : Exec W A} where
  -- What the precondition says of the start is at hand.
  pub run_known : {Q : A → W → Type 0} → ((w : W) → P w → Run E P m Q) → Run E P m Q
  run_known h = record { at = λ w p. (h w p).at w p }

  -- A fact beside the world is at hand.
  pub run_given : {X : Type 0} {Q : A → W → Type 0} → (X → Run E P m Q) → Run E (λ w. X × P w) m Q
  run_given h = record { at = λ w p. (h p.0).at w p.1 }

  pub run_post :
      {Q Q' : A → W → Type 0} → ((a : A) (w : W) → Q a w → Q' a w) → Run E P m Q → Run E P m Q'
  run_post {Q} {Q'} k h = record { at = λ w p. go (m w) (h.at w p) }
    where
      go : (r : Result A × W) → Both E Q r → Both E Q' r
      go (ok a, w) q = k a w q
      go (err e, w) q = q

module _ {W A : Type 0} {P : W → Type 0} {m : Exec W A} where
  -- Of a run whose failures are left aside, nothing is asked.
  pub run_any : Run (λ w. Unit) P m (λ a w. Unit)
  run_any = record { at = λ w p. go (m w) }
    where
      go : (r : Result A × W) → Both (λ w. Unit) (λ a w. Unit) r
      go (ok a, w) = tt
      go (err e, w) = tt
