-- ===== src/Sampler/Ceiling.antt =====
-- The two counters whose ratio is the share of the time that a backend is saturated.
use keel_llm_router.Base.{
  ℕ, ◌+◌, ◌≤◌, ◌≡◌, Bool, true, false, ◌&&◌, List, [], ◌∷◌, String, arith, ◌=s=◌, if◌then◌else◌,
}
use keel_llm_router.Backend.{Backend, Snapshot}
use keel_llm_router.Cost
use keel_llm_router.Float.{Float}
use keel_llm_router.Observe.{
  Call, inflight, occupancy, occupancy_tick, kv_projected, Metric, increment, set_gauge,
  record_value, perform, perform_all,
}
use keel_llm_router.Observe.Mean.{started}
use keel_llm_router.Sampler.{sample_backends, sample_occupancy_loop}

-- The value of a label.
abbrev has_backend : String → List (String × String) → Bool
has_backend key [] = false
has_backend key ((name, value) ∷ ls) =
    if name =s= "backend" then value =s= key else has_backend key ls

-- The value of a counter for one backend.
abbrev pub counter_of : {D : Type 0} → String → String → List (Metric D) → ℕ
counter_of name key [] = 0
counter_of name key (increment n labels ∷ ms) =
    (if n =s= name && has_backend key labels then 1 else 0) + counter_of name key ms
counter_of name key (set_gauge n labels x ∷ ms) = counter_of name key ms
counter_of name key (record_value n labels x ∷ ms) = counter_of name key ms

abbrev one_if : Bool → ℕ
one_if b = if b then 1 else 0

abbrev pub ticks : {D : Type 0} → String → List (Metric D) → ℕ
ticks = counter_of "router_backend_occupancy_ticks_total"

abbrev pub ceilings : {D : Type 0} → String → List (Metric D) → ℕ
ceilings = counter_of "router_backend_ticks_at_ceiling_total"

module _ {D S : Type 0} ⦃f : Float D⦄ (sigma : D) where
  -- How many of the backends go by the key, and how many of those are at the ceiling.
  abbrev pub keyed : String → List (Backend S) → ℕ
  keyed key [] = 0
  keyed key (b ∷ bs) = one_if (b.key =s= key) + keyed key bs

  abbrev pub full : String → List (Backend S) → ℕ
  full key [] = 0
  full key (b ∷ bs) = one_if (b.key =s= key && f.le sigma (Cost.occupancy b)) + full key bs

  -- The two counts over the snapshots of a run.
  abbrev pub sampled : String → List (Snapshot S) → ℕ
  sampled key [] = 0
  sampled key (s ∷ ss) = keyed key s.backends + sampled key ss

  abbrev pub saturated : String → List (Snapshot S) → ℕ
  saturated key [] = 0
  saturated key (s ∷ ss) = full key s.backends + saturated key ss

  module _ (widen : S → D) (key : String) where
    abbrev metrics_of : List (Call D S) → List (Metric D)
    metrics_of log = (perform_all widen log started).metrics

    tick_counts :
        (b : Backend S) (at_ceiling : Bool) (u : D) (log : List (Call D S))
        → let ms = metrics_of (
            occupancy_tick b.key at_ceiling
            ∷ inflight b.key b.live.inflight
            ∷ kv_projected b.key b.live.kv_projected_tokens
            ∷ occupancy b.key u
            ∷ log) in
          (ticks key ms ≡ one_if (b.key =s= key) + ticks key (metrics_of log))
          × (ceilings key ms ≡ one_if (b.key =s= key && at_ceiling) + ceilings key (metrics_of log))
    unfolding perform_all perform
    tick_counts b true u log = ground arith
    tick_counts b false u log = ground arith

    backends_count :
        (bs : List (Backend S)) (log : List (Call D S))
        → let ms = metrics_of (sample_backends sigma bs log) in
          (ticks key ms ≡ keyed key bs + ticks key (metrics_of log))
          × (ceilings key ms ≡ full key bs + ceilings key (metrics_of log))
    unfolding sample_backends
    backends_count [] log = (omega arith, omega arith)
    backends_count (b ∷ bs) log =
        let u : D = Cost.occupancy b in
        let log' : List (Call D S) =
          occupancy_tick b.key (f.le sigma u)
          ∷ inflight b.key b.live.inflight
          ∷ kv_projected b.key b.live.kv_projected_tokens
          ∷ occupancy b.key u
          ∷ log in
        let (more, higher) = tick_counts b (f.le sigma u) u log in
        let (t, c) = backends_count bs log' in omega (arith, t, c, more, higher)

    loop_counts :
        (snaps : List (Snapshot S)) (log : List (Call D S))
        → let ms = metrics_of (sample_occupancy_loop sigma snaps log) in
          (ticks key ms ≡ sampled key snaps + ticks key (metrics_of log))
          × (ceilings key ms ≡ saturated key snaps + ceilings key (metrics_of log))
    unfolding sample_occupancy_loop
    loop_counts [] log = (omega arith, omega arith)
    loop_counts (s ∷ ss) log =
        let (t, c) = loop_counts ss (sample_backends sigma s.backends log) in
        let (t', c') = backends_count s.backends log in omega (arith, t, c, t', c')

    full-le : (bs : List (Backend S)) → full key bs ≤ keyed key bs
    full-le [] = omega arith
    full-le (b ∷ bs) = ground (arith, full-le bs)

    saturated-le : (snaps : List (Snapshot S)) → saturated key snaps ≤ sampled key snaps
    saturated-le [] = omega arith
    saturated-le (s ∷ ss) = omega (arith, full-le s.backends, saturated-le ss)

    -- Over any number of ticks, with the backends in any state: the ticks counted for a key are the
    -- backends of that key in each snapshot, ejected ones and those that no request goes to included; the
    -- ticks at the ceiling are those of them whose occupancy is at least sigma, and so never the more.
    pub samples_every_backend :
        (snaps : List (Snapshot S))
        → let ms = metrics_of (sample_occupancy_loop sigma snaps []) in
          (ticks key ms ≡ sampled key snaps)
          × (ceilings key ms ≡ saturated key snaps)
          × (ceilings key ms ≤ ticks key ms)
    unfolding perform_all
    samples_every_backend snaps =
        let (t, c) = loop_counts snaps [] in
        let few = saturated-le snaps in
        (omega (arith, t), omega (arith, c), omega (arith, t, c, few))
