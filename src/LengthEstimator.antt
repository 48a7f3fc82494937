-- ===== src/LengthEstimator.antt =====
-- crates/router-proxy/src/length_estimator.rs: how many output tokens a request is expected to have.
-- The clock is an argument: the seconds since the histograms were made. A lock that was poisoned is
-- entered all the same, so that the mutex changes nothing.
pub mod Bucket
pub mod Histograms
use keel_llm_router.Base.{
  ℕ, zero, suc, ◌-◌, ◌^◌, Bool, ◌&&◌, Option, none, some, List, [], ◌∷◌, String, ltb, ◌==◌, ◌=s=◌,
  if◌then◌else◌, ◌>>=◌,
}
use keel_llm_router.Float.{Float, fmax}
use keel_llm_router.Features.{RequestFeatures, RouteKey}

-- What the decay uses of `f64` besides: `-x`, `x.exp()`, `LN_2` and `x.round() as u32`.
pub record Decay (D : Type 0) : Type 0 where
  pub neg : D → D
  pub exp : D → D
  pub ln_2 : D
  pub round_u32 : D → ℕ

pub record DecayingQuantile (D : Type 0) : Type 0 where
  pub halflife_s : D
  pub estimate : Option D
  pub last_obs_s : D

module _ {D : Type 0} ⦃f : Float D⦄ ⦃d : Decay D⦄ where
  unfoldable pub new_quantile : D → DecayingQuantile D
  new_quantile halflife_s = record {
    halflife_s = halflife_s;
    estimate = none;
    last_obs_s = f.nought;
  }

  unfoldable pub observe_value : DecayingQuantile D → ℕ → D → DecayingQuantile D
  observe_value q value now_s =
      let v = f.of_ℕ value in
      elim q.estimate [
        | none ↦ record q { estimate = some v; last_obs_s = now_s }
        | some prev ↦
            let elapsed = fmax (f.sub now_s q.last_obs_s) f.nought in
            let decay = d.exp (f.div (f.mul (d.neg elapsed) d.ln_2) q.halflife_s) in
            record q {
              estimate = some (f.add (f.mul prev decay) (f.mul v (f.sub f.unit decay)));
              last_obs_s = now_s;
            }
      ]

  unfoldable pub estimate_of : DecayingQuantile D → Option ℕ
  estimate_of q = elim q.estimate [ none ↦ none | some v ↦ some (d.round_u32 v) ]

abbrev pub default_output_estimate : ℕ
default_output_estimate = 128

-- The map is a list of entries, with at most one for a key.
pub record RouteHistograms (D : Type 0) : Type 0 where
  pub halflife_s : D
  pub inner : List (RouteKey × DecayingQuantile D)

abbrev pub same_key : RouteKey → RouteKey → Bool
same_key k l = k.model =s= l.model && k.bucket == l.bucket

unfoldable pub lookup : {A : Type 0} → List (RouteKey × A) → RouteKey → Option A
lookup [] key = none
lookup (e ∷ es) key = if same_key e.0 key then some e.1 else lookup es key

-- `entry(key).or_insert_with(..)`, and a change of what is there.
unfoldable pub upsert :
    {A : Type 0} → List (RouteKey × A) → RouteKey → A → (A → A) → List (RouteKey × A)
upsert [] key fresh change = (key, change fresh) ∷ []
upsert (e ∷ es) key fresh change =
    let rest = upsert es key fresh change in
    if same_key e.0 key then (e.0, change e.1) ∷ es else e ∷ rest

abbrev pub at_least_one : ℕ → ℕ
at_least_one n = if ltb n 1 then 1 else n

module _ {D : Type 0} ⦃f : Float D⦄ ⦃d : Decay D⦄ where
  unfoldable pub new_histograms : D → RouteHistograms D
  new_histograms halflife_s = record { halflife_s = halflife_s; inner = [] }

  unfoldable pub estimate : RouteHistograms D → RouteKey → Option ℕ → ℕ
  estimate h key (some mt) = at_least_one mt
  estimate h key none = elim (lookup h.inner key >>= λ q. estimate_of q) [
    | none ↦ default_output_estimate
    | some e ↦ at_least_one e
  ]

  unfoldable pub observe : RouteHistograms D → RouteKey → ℕ → D → RouteHistograms D
  observe h key completion_tokens now_s = record h {
    inner =
        upsert h.inner key (new_quantile h.halflife_s)
          (λ q. observe_value q completion_tokens now_s);
  }

-- `leading_zeros` of a number of `k` bits.
unfoldable pub leading_zeros : ℕ → ℕ → ℕ
leading_zeros zero x = 0
leading_zeros (suc k) x = let rest = leading_zeros k x in if ltb x (2 ^ k) then suc rest else 0

unfoldable pub prompt_bucket : ℕ → ℕ
unfolding leading_zeros
prompt_bucket tokens =
    if tokens == 0
    then 0
    else let floored = 2 ^ (31 - leading_zeros 32 tokens) in
      if ltb 4096 floored then 4096 else floored

unfoldable pub route_key : String → ℕ → RouteKey
unfolding prompt_bucket
route_key model prompt_tokens = record { model = model; bucket = prompt_bucket prompt_tokens }

unfoldable pub route_key_for : RequestFeatures → RouteKey
unfolding route_key
route_key_for features = route_key features.model features.prompt_tokens
