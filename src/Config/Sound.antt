-- ===== src/Config/Sound.antt =====
-- Which configurations `validate` accepts: crates/router-core/src/config.rs.
use keel_llm_router.Base.{
  ◌≤◌, ◌<◌, ◌≡◌, ◌≢◌, ◌↔◌, true, false, none, List, [], ◌∷◌, String, arith, All, Elem,
  contains_text_iff, ok, is_empty_ne,
}
use keel_llm_router.Float.{Float, IsFinite}
use keel_llm_router.Config.{RawConfig, RawBackend, Config}
use keel_llm_router.Config.Validate.{
  known_strategies, check_backends, check_routing, check_signal, settled, validate,
}

-- No text of the list stands in it again.
abbrev pub AllDistinct : List String → Type 0
AllDistinct [] = Unit
AllDistinct (x ∷ xs) = (¬ Elem x xs) × AllDistinct xs

-- The backend has room for tokens and for requests.
abbrev pub HasRoom : {S : Type 0} → RawBackend S → Type 0
HasRoom b = (0 < b.kv_tokens) × (0 < b.max_num_seqs)

abbrev urls : {S : Type 0} → List (RawBackend S) → List String
urls [] = []
urls (b ∷ bs) = b.url ∷ urls bs

pub record IsRouted {D S : Type 0} ⦃f : Float D⦄ (raw : RawConfig D S) : Type 0 where
  pub some_backend : raw.backends ≢ []
  pub theta_pos : f.lt f.nought raw.routing.theta ≡ true
  pub theta_below : f.lt raw.routing.theta f.unit ≡ true
  pub sigma_pos : f.lt f.nought raw.admission.sigma ≡ true
  pub sigma_below : f.le raw.admission.sigma f.unit ≡ true
  pub sampled : 0 < raw.observability.occupancy_sample_interval_ms
  pub chars_finite : IsFinite raw.routing.chars_per_token
  pub chars_pos : f.lt f.nought raw.routing.chars_per_token ≡ true
  pub known : Elem raw.routing.strategy known_strategies

pub record IsSignalled {D S : Type 0} ⦃f : Float D⦄ (raw : RawConfig D S) : Type 0 where
  pub timeout_pos : 0 < raw.signal.scrape_timeout_ms
  pub timeout_below : raw.signal.scrape_timeout_ms < raw.signal.scrape_interval_ms
  pub age_above : raw.signal.scrape_interval_ms ≤ raw.signal.max_signal_age_ms
  pub drift_above : f.le raw.signal.drift_warn_ratio f.unit ≡ false

-- The rules that the code has, which takes a NaN for the drift ratio and the name `least_conn`.
pub record IsValid {D S : Type 0} ⦃f : Float D⦄ (raw : RawConfig D S) : Type 0 where
  pub routed : IsRouted raw
  pub signalled : IsSignalled raw
  pub rooms : All HasRoom raw.backends
  pub distinct : AllDistinct (urls raw.backends)

-- No url of a list was seen before.
abbrev Unseen : List String → List String → Type 0
Unseen seen [] = Unit
Unseen seen (x ∷ xs) = (¬ Elem x seen) × Unseen seen xs

Unseen-cons :
    (x : String) (seen xs : List String) → Unseen (x ∷ seen) xs ↔ ((¬ Elem x xs) × Unseen seen xs)
Unseen-cons x seen [] = ground arith
Unseen-cons x seen (y ∷ xs) = ground (arith, Unseen-cons x seen xs)

module _ {D S : Type 0} where
  check_backends_iff :
      (seen : List String) (bs : List (RawBackend S))
      → (check_backends {D = D} seen bs ≡ none)
        ↔ (All HasRoom bs × AllDistinct (urls bs) × Unseen seen (urls bs))
  unfolding check_backends
  check_backends_iff seen [] = ground arith
  check_backends_iff seen (b ∷ bs) = ground (
    arith,
    contains_text_iff seen b.url,
    check_backends_iff (b.url ∷ seen) bs,
    Unseen-cons b.url seen (urls bs),
  )

module _ {D S : Type 0} ⦃f : Float D⦄ (raw : RawConfig D S) where
  check_routing_iff : (check_routing raw ≡ none) ↔ IsRouted raw
  unfolding check_routing
  check_routing_iff =
      ground
        (arith, is_empty_ne raw.backends, contains_text_iff known_strategies raw.routing.strategy)

  check_signal_iff : (check_signal raw ≡ none) ↔ IsSignalled raw
  unfolding check_signal
  check_signal_iff = ground arith

Unseen-nil : (xs : List String) → Unseen [] xs
Unseen-nil [] = tt
Unseen-nil (x ∷ xs) = (λ m. m, Unseen-nil xs)

module _ {D S : Type 0} ⦃f : Float D⦄ where
  -- Validation accepts a configuration exactly if all of these hold, and what it returns is then the settled
  -- configuration: there is a backend; `theta`
  -- is strictly between 0 and 1; `sigma` is above 0 and at most 1; the sample interval is not 0;
  -- `chars_per_token` is finite and above 0; the strategy is one of the six names that the code knows, of
  -- which `least_conn` is one; the timeout of a scrape is not 0 and is below its interval, and the age limit
  -- is not; `drift_warn_ratio` is not at most 1, which a NaN is not either; each backend has capacities for
  -- tokens and for requests that are not 0; and no two backends have the same url.
  pub validate_iff :
      (raw : RawConfig D S) (cfg : Config D S)
      → (validate raw ≡ ok cfg) ↔ (IsValid raw × (cfg ≡ settled raw))
  unfolding validate
  validate_iff raw cfg = ground (
    arith,
    check_routing_iff raw,
    check_signal_iff raw,
    check_backends_iff {D = D} [] raw.backends,
    Unseen-nil (urls raw.backends),
  )
