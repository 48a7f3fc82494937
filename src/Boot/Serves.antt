-- ===== src/Boot/Serves.antt =====
-- What the router starts with serves: crates/router-bin/src/main.rs, from the configuration on.
use mathlib.Core.Path.{subst}
use keel_llm_router.Base.{sym, ◌^◌, ◌≤◌, ◌≡◌, ap, ok, length, All}
use keel_llm_router.Float.{Float}
use keel_llm_router.Backend.{Backend}
use keel_llm_router.Config.{RawConfig, Config}
use keel_llm_router.Cost.{occupancy}
use keel_llm_router.Cost.Score.{IsTuned, IsBounded}
use keel_llm_router.LengthEstimator.{Decay}
use keel_llm_router.Router.{RouterState}
use keel_llm_router.Strategy.Dispatch.{pressure}
use keel_llm_router.Strategy.Pressure.{Pressure}
use keel_llm_router.Strategy.Rng.{Rng}
use keel_llm_router.Boot.Run.{Host, Booted, booted, router_state, boot, boot_iff}
use keel_llm_router.Boot.Started.{AreWords, IsReadyFor, started}

module _ {D S : Type 0} ⦃f : Float D⦄ where
  -- The snapshot with which the router starts.
  pub boot-IsReadyFor :
      ⦃d : Decay D⦄ (host : Host) (raw : RawConfig D S) (b : Booted D S)
      → boot host raw ≡ ok b
      → All AreWords raw.backends
      → length raw.backends ≤ 2 ^ 16
      → IsReadyFor raw b.state.snapshot
  unfolding booted router_state
  boot-IsReadyFor host raw b e words fits =
      let (valid, l) = (boot_iff host raw b).0 e in
      subst (IsReadyFor raw) (sym (ap (λ (x : Booted D S). x.state.snapshot) l.same))
        (started raw valid words fits)

  -- If the strategy is that of the pressure: `theta` and 1 - `theta` are positive and finite, the penalty is
  -- finite and not negative, which the validation does not test, and for each backend the overshoot of its
  -- occupancy and the product of that with the penalty are finite.
  abbrev pub IsScored : RouterState D S → Type 0
  IsScored state =
      (p : Pressure D)
      → state.strategy ≡ pressure p
      → IsTuned p.theta p.penalty
        × All (λ b. IsBounded (occupancy b) p.theta p.penalty) state.snapshot.backends
