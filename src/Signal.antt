-- ===== src/Signal.antt =====
-- crates/router-proxy/src/signal: what a backend reports of itself, read from the text of its metrics.
-- A text is the list of its code points; what a request for it brings, and how long that takes, is given.
pub mod Scrape
pub mod Ignored
pub mod Latest
use Prim.Native.String.{◌++◌ as append_text}
use keel_llm_router.Base.{
  ℕ, suc, Bool, true, false, not, Option, none, some, List, [], ◌∷◌, ◌++◌, map, Result, ok, err,
  if◌then◌else◌, ◌>>=◌, String, ltb,
}
use keel_llm_router.Base.Word.{max_zero}
use keel_llm_router.Backend.{Backend, LiveCounters, Snapshot, ReportedLoad, is_stale}
use keel_llm_router.Config.{SignalConfig}
use keel_llm_router.Float.{Float}
use keel_llm_router.Observe
use keel_llm_router.Observe.{Call, scrape_result, scraped_metrics}
use keel_llm_router.Signal.Scrape.{Casts, CounterSample, parse_reported}
use keel_llm_router.Upstream.Request.{trim_slashes}

pub data ScrapeError : Type 0 where
  bad_uri connect body timeout : ScrapeError

-- What a request for the metrics brings: no connection, a body that breaks off, or a text, its invalid
-- bytes replaced.
pub data Reply : Type 0 where
  unreachable broken : Reply
  page : List ℕ → Reply

unfoldable pub metrics_url : {S : Type 0} → Backend S → String
metrics_url backend = append_text (trim_slashes backend.uri) "/metrics"

-- What the inner block of `fetch_metrics` makes of it.
unfoldable pub fetched : Reply → Result ScrapeError (List ℕ)
fetched unreachable = err connect
fetched broken = err body
fetched (page text) = ok text

-- `get` says how long a request takes, from the connection to the end of the body, and what it brings.
unfoldable pub fetch_metrics :
    (String → Bool) → (String → ℕ × Reply) → String → ℕ → Result ScrapeError (List ℕ)
unfolding fetched
fetch_metrics is_uri get url limit =
    if not (is_uri url)
    then err bad_uri
    else if ltb limit (get url).0
    then err timeout
    else fetched (get url).1

abbrev pub positions : {A : Type 0} → ℕ → List A → List ℕ
positions i [] = []
positions i (x ∷ xs) = i ∷ positions (suc i) xs

module _ {D S : Type 0} ⦃f : Float D⦄ ⦃f32 : Float S⦄ (casts : Casts D S) where
  -- `drift::projection_drift`
  unfoldable pub projection_drift : Backend S → ReportedLoad S → ℕ → ℕ → Option D
  projection_drift backend reported now max_age = if is_stale reported now max_age then none else do
    r ← reported.kv_usage_perc
    if f32.lt r (f32.thousandths 50)
        then none
        else let p =
            f.div (f.of_ℕ (max_zero backend.live.kv_projected_tokens))
              (f.of_ℕ backend.caps.kv_capacity_tokens) in
          if f.lt p (f.thousandths 50) then none else some (f.div p (casts.widen r))

  -- One turn of `collect_loop`, from what the fetch brought and how long it took: the backend with what
  -- it reported last, the counters of the last scrape, and the calls that are logged, the last one first.
  unfoldable pub collect_turn :
      SignalConfig D
      → Result ScrapeError (List ℕ)
      → ℕ
      → D
      → Backend S
      → Option (CounterSample D)
      → Backend S × Option (CounterSample D) × List (Call D S)
  unfolding projection_drift
  collect_turn cfg (err timeout) now seconds backend prev =
      (backend, prev, scrape_result backend.key "timeout" seconds ∷ [])
  collect_turn cfg (err e) now seconds backend prev =
      (backend, prev, scrape_result backend.key "error" seconds ∷ [])
  collect_turn cfg (ok text) now seconds backend prev =
      let (load, sample) = parse_reported casts text now prev in
      let told =
        scraped_metrics backend.key load now ∷ scrape_result backend.key "ok" seconds ∷ [] in
      (
        record backend { reported = some load },
        some sample,
        elim (projection_drift backend load now cfg.max_signal_age) [
          | none ↦ told
          | some ratio ↦ Observe.projection_drift backend.key ratio cfg.drift_warn_ratio ∷ told
        ],
      )

-- One round of the collector: the counters of the backend as they are by then, how long the request takes
-- and what it brings, the instant it is received and the duration that is measured.
pub record Tick (D : Type 0) : Type 0 where
  pub live : LiveCounters
  pub get : String → ℕ × Reply
  pub now : ℕ
  pub seconds : D

-- What the collector of a backend keeps, with the calls that are logged.
pub record Collector (D S : Type 0) : Type 0 where
  pub backend : Backend S
  pub prev_sample : Option (CounterSample D)
  pub observed : List (Call D S)

module _ {D S : Type 0} ⦃f : Float D⦄ ⦃f32 : Float S⦄ (casts : Casts D S) (cfg : SignalConfig D)
    (is_uri : String → Bool) where
  -- The body of the loop.
  unfoldable pub collect_tick : Tick D → Collector D S → Collector D S
  unfolding fetch_metrics collect_turn
  collect_tick t c =
      let backend = record c.backend { live = t.live } in
      let out =
        collect_turn casts cfg (fetch_metrics is_uri t.get (metrics_url backend) cfg.scrape_timeout)
          t.now t.seconds backend c.prev_sample in
      record { backend = out.0; prev_sample = out.1; observed = out.2 ++ c.observed }

  -- `collect_loop`, over the rounds until the task is cancelled.
  unfoldable pub collect_loop : List (Tick D) → Collector D S → Collector D S
  collect_loop [] c = c
  collect_loop (t ∷ ts) c = collect_loop ts (collect_tick t c)

-- One collector for each backend, at its position and with no counters yet.
unfoldable pub spawn_collectors :
    {D S : Type 0} → SignalConfig D → Snapshot S → List (ℕ × Option (CounterSample D))
spawn_collectors cfg snap =
    if not cfg.enabled then [] else map (λ i. (i, none)) (positions 0 snap.backends)
