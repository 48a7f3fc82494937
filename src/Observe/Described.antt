-- ===== src/Observe/Described.antt =====
-- What the routines record is what `describe_metrics` registers.
use keel_llm_router.Base.{
  ℕ, ◌≡◌, refl, Bool, true, false, ◌&&◌, none, some, Option, List, [], ◌∷◌, ◌++◌, String, ltb, ◌==◌,
  ◌=s=◌, =s=_iff, if◌then◌else◌, inl, inr, Bool-cases, All, All-append, Elem, arith,
}
use keel_llm_router.Float.{Float}
use keel_llm_router.Observe.Mean.{started}
use keel_llm_router.Observe.{
  Call, request_result, backend_error, inflight, occupancy, occupancy_tick, kv_projected,
  decision_duration, router_overhead, prompt_token_ratio, output_length_ratio, scrape_result,
  scraped_metrics, projection_drift, saturated_dispatch, decision_trace, Kind, counter, gauge,
  histogram, Metric, increment, set_gauge, record_value, described, Monitor, gauge_of,
  record_prompt_token_ratio, record_projection_drift, updates, perform, perform_all,
}

-- What kind of metric an operation needs, and its name.
abbrev pub used : {D : Type 0} → Metric D → Kind × String
used (increment name labels) = (counter, name)
used (set_gauge name labels x) = (gauge, name)
used (record_value name labels x) = (histogram, name)

abbrev pub IsDescribed : {D : Type 0} → Metric D → Type 0
IsDescribed x = Elem (used x) described

same_kind : Kind → Kind → Bool
same_kind counter counter = true
same_kind gauge gauge = true
same_kind histogram histogram = true
same_kind k l = false

same_kind-eq : (k l : Kind) → same_kind k l ≡ true → k ≡ l
unfolding same_kind
same_kind-eq counter counter h = refl
same_kind-eq counter gauge h = cc
same_kind-eq counter histogram h = cc
same_kind-eq gauge counter h = cc
same_kind-eq gauge gauge h = refl
same_kind-eq gauge histogram h = cc
same_kind-eq histogram counter h = cc
same_kind-eq histogram gauge h = cc
same_kind-eq histogram histogram h = refl

lists : List (Kind × String) → Kind × String → Bool
lists [] k = false
lists (x ∷ xs) k = if same_kind k.0 x.0 && k.1 =s= x.1 then true else lists xs k

lists-Elem : (xs : List (Kind × String)) (k : Kind × String) → lists xs k ≡ true → Elem k xs
unfolding lists
lists-Elem [] k h = cc
lists-Elem ((k, n) ∷ xs) (l, m) h =
    ground (arith, same_kind-eq l k, =s=_iff m n, lists-Elem xs (l, m))

module _ {D : Type 0} where
  -- A metric that the list names.
  is_described : (x : Metric D) → lists described (used x) ≡ true → IsDescribed x
  is_described x h = lists-Elem described (used x) h

module _ {D : Type 0} ⦃f : Float D⦄ where
  gauge_of-IsDescribed :
      {A : Type 0} (name key : String) (to_f64 : A → D) (a : Option A)
      → lists described (gauge, name) ≡ true
      → All IsDescribed (gauge_of name key to_f64 a)
  gauge_of-IsDescribed name key to_f64 none h = tt
  gauge_of-IsDescribed name key to_f64 (some a) h = (lists-Elem described (gauge, name) h, tt)

  updates-IsDescribed :
      {S : Type 0} (widen : S → D) (c : Call D S) → All IsDescribed (updates widen c)
  unfolding updates described lists same_kind
  updates-IsDescribed widen (request_result b) = (lists-Elem described _ refl, tt)
  updates-IsDescribed widen (backend_error key kind) = (lists-Elem described _ refl, tt)
  updates-IsDescribed widen (inflight key n) = (lists-Elem described _ refl, tt)
  updates-IsDescribed widen (occupancy key u) = (lists-Elem described _ refl, tt)
  updates-IsDescribed widen (occupancy_tick key true) =
      (lists-Elem described _ refl, (lists-Elem described _ refl, tt))
  updates-IsDescribed widen (occupancy_tick key false) = (lists-Elem described _ refl, tt)
  updates-IsDescribed widen (kv_projected key n) = (lists-Elem described _ refl, tt)
  updates-IsDescribed widen (decision_duration s x) = (lists-Elem described _ refl, tt)
  updates-IsDescribed widen (router_overhead x) = (lists-Elem described _ refl, tt)
  updates-IsDescribed widen (output_length_ratio e a) = elim (Bool-cases (ltb 0 a)) [
    | inl t ↦ rw t (lists-Elem described _ refl, tt)
    | inr n ↦ rw n tt
  ]
  updates-IsDescribed widen (scrape_result key r x) =
      (lists-Elem described _ refl, (lists-Elem described _ refl, tt))
  updates-IsDescribed widen (scraped_metrics key r now) = (
    lists-Elem described _ refl,
    All-append IsDescribed _ _ (gauge_of-IsDescribed _ key widen r.kv_usage_perc refl) (
        All-append IsDescribed _ _ (gauge_of-IsDescribed _ key f.of_ℕ r.num_running refl) (
          All-append IsDescribed _ _ (gauge_of-IsDescribed _ key f.of_ℕ r.num_waiting refl) (
            All-append IsDescribed _ _ (gauge_of-IsDescribed _ key widen r.prefix_hit_rate refl)
              (gauge_of-IsDescribed _ key f.of_ℕ r.preemptions refl)))),
  )
  updates-IsDescribed widen saturated_dispatch = (lists-Elem described _ refl, tt)
  updates-IsDescribed widen (decision_trace t) = tt
  updates-IsDescribed widen (prompt_token_ratio e r) = tt
  updates-IsDescribed widen (projection_drift key ratio warn_ratio) = tt

  ratio-IsDescribed :
      (estimated reported : ℕ) (m : Monitor D)
      → All IsDescribed m.metrics
      → All IsDescribed (record_prompt_token_ratio estimated reported m).metrics
  unfolding record_prompt_token_ratio described lists same_kind
  ratio-IsDescribed estimated reported m h = elim (Bool-cases (reported == 0)) [
    | inl t ↦ rw t h
    | inr n ↦ rw n (lists-Elem described _ refl, h)
  ]

  updated :
      {S : Type 0} (widen : S → D) (c : Call D S) (m : Monitor D)
      → All IsDescribed m.metrics
      → All IsDescribed (updates widen c ++ m.metrics)
  updated widen c m h =
      All-append IsDescribed (updates widen c) m.metrics (updates-IsDescribed widen c) h

  perform-IsDescribed :
      {S : Type 0} (widen : S → D) (c : Call D S) (m : Monitor D)
      → All IsDescribed m.metrics
      → All IsDescribed (perform widen c m).metrics
  unfolding perform record_projection_drift described lists same_kind
  perform-IsDescribed widen (prompt_token_ratio e r) m h = ratio-IsDescribed e r m h
  perform-IsDescribed widen (projection_drift key ratio warn_ratio) m h =
      (lists-Elem described _ refl, h)
  perform-IsDescribed widen (request_result b) m h = updated widen (request_result b) m h
  perform-IsDescribed widen (backend_error key kind) m h =
      updated widen (backend_error key kind) m h
  perform-IsDescribed widen (inflight key n) m h = updated widen (inflight key n) m h
  perform-IsDescribed widen (occupancy key u) m h = updated widen (occupancy key u) m h
  perform-IsDescribed widen (occupancy_tick key b) m h = updated widen (occupancy_tick key b) m h
  perform-IsDescribed widen (kv_projected key n) m h = updated widen (kv_projected key n) m h
  perform-IsDescribed widen (decision_duration s x) m h = updated widen (decision_duration s x) m h
  perform-IsDescribed widen (router_overhead x) m h = updated widen (router_overhead x) m h
  perform-IsDescribed widen (output_length_ratio e a) m h =
      updated widen (output_length_ratio e a) m h
  perform-IsDescribed widen (scrape_result key r x) m h = updated widen (scrape_result key r x) m h
  perform-IsDescribed widen (scraped_metrics key r now) m h =
      updated widen (scraped_metrics key r now) m h
  perform-IsDescribed widen saturated_dispatch m h = updated widen saturated_dispatch m h
  perform-IsDescribed widen (decision_trace t) m h = h

  -- Over any log of calls, every metric that is incremented, set or recorded was registered by
  -- `describe_metrics`, under its name and as a counter, a gauge or a histogram as it is used.
  pub All-IsDescribed :
      {S : Type 0} (widen : S → D) (log : List (Call D S))
      → All IsDescribed (perform_all widen log started).metrics
  unfolding perform_all
  All-IsDescribed widen [] = tt
  All-IsDescribed widen (c ∷ log) =
      perform-IsDescribed widen c (perform_all widen log started) (All-IsDescribed widen log)
