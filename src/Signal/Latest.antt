-- ===== src/Signal/Latest.antt =====
-- What a collector holds after any rounds: the reading of the last scrape that succeeded.
use mathlib.Core.Path.{subst}
use keel_llm_router.Base.{
  ℕ, ◌≡◌, refl, sym, ap, ◌∙◌, Option, some, List, [], ◌∷◌, ◌++◌, Bool, String, Result, ok, err, All,
}
use keel_llm_router.Backend.{Backend, ReportedLoad}
use keel_llm_router.Config.{SignalConfig}
use keel_llm_router.Float.{Float}
use keel_llm_router.Signal.{
  ScrapeError, bad_uri, connect, body, timeout, Tick, Collector, metrics_url, fetch_metrics,
  collect_turn, collect_tick, collect_loop,
}
use keel_llm_router.Signal.Scrape.{Casts, CounterSample, parse_reported}

module _ {D S : Type 0} ⦃f : Float D⦄ ⦃f32 : Float S⦄ (casts : Casts D S) (cfg : SignalConfig D)
    (is_uri : String → Bool) where
  -- What the round fetches from the address.
  abbrev pub brings : String → Tick D → Result ScrapeError (List ℕ)
  brings url t = fetch_metrics is_uri t.get url cfg.scrape_timeout

  abbrev pub Fails : String → Tick D → Type 0
  Fails url t = (x : ScrapeError) × (brings url t ≡ err x)

  abbrev pub loop : List (Tick D) → Collector D S → Collector D S
  loop = collect_loop casts cfg is_uri

  abbrev pub url_of : Collector D S → String
  url_of c = metrics_url c.backend

  loop-append :
      (ts us : List (Tick D)) (c : Collector D S) → loop (ts ++ us) c ≡ loop us (loop ts c)
  unfolding collect_loop
  loop-append [] us c = refl
  loop-append (t ∷ ts) us c = loop-append ts us (collect_tick casts cfg is_uri t c)

  -- The turn leaves the address alone.
  turn-url :
      (r : Result ScrapeError (List ℕ)) (t : Tick D) (b : Backend S)
      (prev : Option (CounterSample D))
      → metrics_url (collect_turn casts cfg r t.now t.seconds b prev).0 ≡ metrics_url b
  unfolding collect_turn metrics_url
  turn-url (err timeout) t b prev = refl
  turn-url (err bad_uri) t b prev = refl
  turn-url (err connect) t b prev = refl
  turn-url (err body) t b prev = refl
  turn-url (ok text) t b prev = refl

  tick-url :
      (t : Tick D) (c : Collector D S) → url_of (collect_tick casts cfg is_uri t c) ≡ url_of c
  unfolding collect_tick metrics_url
  tick-url t c = turn-url (brings (url_of c) t) t (record c.backend { live = t.live }) c.prev_sample

  loop-url : (ts : List (Tick D)) (c : Collector D S) → url_of (loop ts c) ≡ url_of c
  unfolding collect_loop
  loop-url [] c = refl
  loop-url (t ∷ ts) c = loop-url ts (collect_tick casts cfg is_uri t c) ∙ tick-url t c

  -- The reading and the counters that a collector holds.
  abbrev pub held : Collector D S → Option (ReportedLoad S) × Option (CounterSample D)
  held c = (c.backend.reported, c.prev_sample)

  turn-err :
      (x : ScrapeError) (t : Tick D) (b : Backend S) (prev : Option (CounterSample D))
      → let out = collect_turn casts cfg (err x) t.now t.seconds b prev in
        (out.0.reported ≡ b.reported) × (out.1 ≡ prev)
  unfolding collect_turn
  turn-err timeout t b prev = (refl, refl)
  turn-err bad_uri t b prev = (refl, refl)
  turn-err connect t b prev = (refl, refl)
  turn-err body t b prev = (refl, refl)

  tick-Fails :
      (t : Tick D) (c : Collector D S)
      → Fails (url_of c) t
      → held (collect_tick casts cfg is_uri t c) ≡ held c
  unfolding collect_tick metrics_url
  tick-Fails t c (x, e) =
      let (same, kept) = turn-err x t (record c.backend { live = t.live }) c.prev_sample in
      rw e (cc)

  -- Scrapes that fail leave what is held.
  loop-Fails :
      (ts : List (Tick D)) (c : Collector D S)
      → All (Fails (url_of c)) ts
      → held (loop ts c) ≡ held c
  unfolding collect_loop
  loop-Fails [] c h = refl
  loop-Fails (t ∷ ts) c h =
      loop-Fails ts (collect_tick casts cfg is_uri t c)
        (subst (λ url. All (Fails url) ts) (sym (tick-url t c)) h.1)
      ∙ tick-Fails t c h.0

  tick_succeeds :
      (t : Tick D) (c : Collector D S) (text : List ℕ)
      → brings (url_of c) t ≡ ok text
      → let (load, sample) = parse_reported casts text t.now c.prev_sample in
        held (collect_tick casts cfg is_uri t c) ≡ (some load, some sample)
  unfolding collect_tick collect_turn metrics_url
  tick_succeeds t c text e = rw e refl

  -- After any rounds of a collector, some of which may have failed: if the last one that succeeded
  -- brought a text, what the backend reports is that text as it is read, stamped with the instant of that
  -- round, its hit rate taken from the counters of the success before; and the counters kept are those of
  -- the text.
  pub collect_loop-latest :
      (ts fails : List (Tick D)) (t : Tick D) (c : Collector D S) (text : List ℕ)
      → brings (url_of c) t ≡ ok text
      → All (Fails (url_of c)) fails
      → let after = loop (ts ++ t ∷ fails) c in
        let (load, sample) = parse_reported casts text t.now (loop ts c).prev_sample in
        (after.backend.reported ≡ some load)
        × (after.prev_sample ≡ some sample)
        × (load.observed_at ≡ t.now)
  unfolding parse_reported collect_loop
  collect_loop-latest ts fails t c text e h =
      let mid = loop ts c in
      let next = collect_tick casts cfg is_uri t mid in
      let at = sym (loop-url ts c) in
      let both =
        ap held (loop-append ts (t ∷ fails) c)
        ∙ loop-Fails fails next (subst (λ url. All (Fails url) fails) (at ∙ sym (tick-url t mid)) h)
        ∙ tick_succeeds t mid text (subst (λ url. brings url t ≡ ok text) at e) in
      (ap (λ p. p.0) both, ap (λ p. p.1) both, refl)
