-- ===== src/Signal/Ignored.antt =====
-- The signal plane has no part in routing.
use keel_llm_router.Base.{
  ℕ, ◌-◌, ◌≡◌, refl, false, arith, ltb, Option, some, List, Result, ok, err, get_elem?, set,
}
use keel_llm_router.Backend.{Backend, Snapshot, is_stale}
use keel_llm_router.Features.{RequestFeatures}
use keel_llm_router.Config.{SignalConfig}
use keel_llm_router.Float.{Float}
use keel_llm_router.Signal.{ScrapeError, bad_uri, connect, body, timeout, collect_turn}
use keel_llm_router.Signal.Scrape.{Casts, CounterSample, parse_reported}
use keel_llm_router.Strategy.Dispatch.{RoutingStrategy, route}
use keel_llm_router.Strategy.Dispatch.Reports.{outcome, route_ignores_reports}
use keel_llm_router.Strategy.Rng.{Rng}
use keel_llm_router.Trace.{DecisionTrace}

-- No limit is below the age of zero.
never_old : (now max_age : ℕ) → ltb max_age (now - now) ≡ false
never_old now max_age = ground arith

module _ {D S R : Type 0} ⦃f : Float D⦄ ⦃f32 : Float S⦄ ⦃g : Rng R⦄ (casts : Casts D S) where
  -- A turn of the collector of one backend, whether the scrape fails or brings any text: with whatever
  -- trace the handler passes, every strategy makes the choice that it would have made before, leaves itself
  -- and the generator the same, and panics in the same cases; and a scrape that fails leaves the last
  -- reading as it was.
  pub collect_ignored :
      (s : RoutingStrategy D) (snap : Snapshot S) (req : RequestFeatures) (rng : R) (i : ℕ)
      (b : Backend S) (cfg : SignalConfig D) (scraped : Result ScrapeError (List ℕ)) (now : ℕ)
      (seconds : D) (prev : Option (CounterSample D)) (trace : Option (DecisionTrace D S))
      → get_elem? snap.backends i ≡ some b
      → let b' = (collect_turn casts cfg scraped now seconds b prev).0 in
        (outcome (route s (record snap { backends = set snap.backends i b' }) req rng trace)
          ≡ outcome (route s snap req rng trace))
        × ((x : ScrapeError) → scraped ≡ err x → b'.reported ≡ b.reported)
  unfolding collect_turn
  collect_ignored s snap req rng i b cfg (err timeout) now seconds prev trace e =
      (route_ignores_reports s snap req rng i b b.reported trace e, λ y h. refl)
  collect_ignored s snap req rng i b cfg (err (bad_uri)) now seconds prev trace e =
      (route_ignores_reports s snap req rng i b b.reported trace e, λ y h. refl)
  collect_ignored s snap req rng i b cfg (err connect) now seconds prev trace e =
      (route_ignores_reports s snap req rng i b b.reported trace e, λ y h. refl)
  collect_ignored s snap req rng i b cfg (err body) now seconds prev trace e =
      (route_ignores_reports s snap req rng i b b.reported trace e, λ y h. refl)
  collect_ignored s snap req rng i b cfg (ok text) now seconds prev trace e =
      (route_ignores_reports s snap req rng i b _ trace e, λ y h. cc)

module _ {D S : Type 0} ⦃f : Float D⦄ ⦃f32 : Float S⦄ (casts : Casts D S) where
  -- A reading that was just scraped is never stale, so that the limit on its age changes nothing that a
  -- turn does: not the backend, not the counters, and not what is recorded.
  pub collect_any_age :
      (b : Backend S) (cfg : SignalConfig D) (scraped : Result ScrapeError (List ℕ)) (now : ℕ)
      (seconds : D) (prev : Option (CounterSample D)) (max_age : ℕ)
      → collect_turn casts (record cfg { max_signal_age = max_age }) scraped now seconds b prev
        ≡ collect_turn casts cfg scraped now seconds b prev
  unfolding collect_turn is_stale parse_reported
  collect_any_age b cfg (err timeout) now seconds prev max_age = refl
  collect_any_age b cfg (err bad_uri) now seconds prev max_age = refl
  collect_any_age b cfg (err connect) now seconds prev max_age = refl
  collect_any_age b cfg (err body) now seconds prev max_age = refl
  collect_any_age b cfg (ok text) now seconds prev max_age =
      rw (never_old now max_age, never_old now cfg.max_signal_age)
