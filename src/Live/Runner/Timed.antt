-- ===== src/Live/Runner/Timed.antt =====
-- What the runner relies on in its clock: logical time does not go back, whatever is called
-- (`Clock` in crates/waitprims-async/src/clock.rs).
use waitprims.Prelude.{ℕ, ◌≤◌, List, arith}
use waitprims.Core.Error.{Result, ok, err}
use waitprims.Core.Time.{Timestamp}
use waitprims.Core.Types.{Registration}
use waitprims.Observer.{Observation, Exec}
use waitprims.Observer.Hoare.{Keeps, Ends}
use waitprims.Live.Runner.{Runtime}
use waitprims.Live.Runner.Frames.{Stable}

pub record Timed {W Bind : Type 0} (rt : Runtime W Bind) : Type 0 where
  pub time : W → ℕ
  pub now_after : (w : W) → time w ≤ (rt.now w).0.instant
  pub now_before : (w : W) → (rt.now w).0.instant ≤ time (rt.now w).1
  pub polls : (b : Bind) (w : W) → time w ≤ time (rt.poll_ready b w).1
  pub restores : (b : Bind) (obs : Observation) (w : W) → time w ≤ time (rt.restore_ready b obs w).1
  pub asks : (w : W) → time w ≤ time (rt.is_cancelled w).1
  pub pauses : (t : Timestamp) (w : W) → time w ≤ time (rt.pause t w).1
  pub bound_waits :
      (bs : List Bind) (t : Timestamp) (w : W) → time w ≤ time (rt.select_bound bs t w).1
  pub bind_waits :
      (rs : List Registration) (t : Timestamp) (w : W) → time w ≤ time (rt.select_bind rs t w).1

-- What a call keeps, failing or not, it keeps when it returns.
call_kept : {W A : Type 0} (P : W → Type 0) (m : Exec W A) → ((w : W) → P w → P (m w).1) → Keeps P m
call_kept {W} {A} P m h = record { at = λ w p. go (m w) (h w p) }
  where
    go : (r : Result A × W) → P r.1 → Ends (λ _. P) r
    go (ok a, w) p = p
    go (err e, w) p = tt

module _ {W Bind : Type 0} (rt : Runtime W Bind) (timed : Timed rt) where
  -- The time has reached n.
  abbrev pub Since : ℕ → W → Type 0
  Since n w = n ≤ timed.time w

  pub Since-Stable : (n : ℕ) → Stable rt (Since n)
  Since-Stable n = record {
    polls = λ b w h. omega (arith, timed.polls b w);
    restores = λ b obs.
        call_kept (Since n) (rt.restore_ready b obs) (λ w h. omega (arith, timed.restores b obs w));
  }
