-- ===== src/Tests/StrategyTests.antt =====
-- The five strategies on one snapshot: crates/router-core/src/strategy.
use keel_llm_router.Base.{
  ℕ, ◌≤◌, ◌<◌, ◌≡◌, ◌≢◌, ◌↔◌, refl, inl, inr, true, false, Option, none, some, List, [], ◌∷◌, arith,
  leb, ◌>>=◌, get_elem?, set, keep,
}
use keel_llm_router.Base.Word.{add_i64, le_i64}
use keel_llm_router.Float.Milli.{Milli, fin, milli_float, Milli-IsOrdered, Milli-IsRounded}
use keel_llm_router.Backend.{BackendId, IsWired, ReportedLoad, Snapshot}
use keel_llm_router.Cost.{prompt_only, project, occupancy, pressure_score}
use keel_llm_router.Gate.{admits, ceiling, eligible}
use keel_llm_router.Gate.Eligible.{admitted}
use keel_llm_router.Trace.{DecisionTrace, record_pick, kv_headroom, slot_limit}
use keel_llm_router.Strategy.Rng.{Picked}
use keel_llm_router.Strategy.Scan.{visit, scan}
use keel_llm_router.Strategy.Scan.Select.{IsBest}
use keel_llm_router.Strategy.RoundRobin.Turns.{turns, round_visits_all}
use keel_llm_router.Strategy.P2c
use keel_llm_router.Strategy.P2c.Lighter.{IsDrawn, IsLighter, pick-IsLighter}
use keel_llm_router.Strategy.LeastRequests
use keel_llm_router.Strategy.LeastRequests.Optimal.{pick_fewest}
use keel_llm_router.Strategy.LeastKvts
use keel_llm_router.Strategy.LeastKvts.Optimal.{left, pick_most_left}
use keel_llm_router.Strategy.Pressure.{Pressure, gated_by, score_of}
use keel_llm_router.Strategy.Pressure
use keel_llm_router.Strategy.Pressure.Optimal.{IsReady, pick_lowest_score}
use keel_llm_router.Strategy.Pressure.Total.{pool}
use keel_llm_router.Strategy.Pressure.Explain.{gated_by_explains}
use keel_llm_router.Tests.{backend_at, three, snapshot, request, front_rng, front_fair}
use keel_llm_router.Tests.CostTests.{tuned}

wired : IsWired snapshot
wired = (omega arith, (omega arith, (omega arith, tt)))

healthy_ne : snapshot.healthy ≢ []
healthy_ne = λ e. cc

pick_fewest_example :
    (out : Picked Milli Milli ℕ) × (LeastRequests.pick snapshot request 0 none ≡ some out)
    × (id : BackendId) × (out.chosen ≡ some id)
    × IsBest LeastRequests.load leb three (0 ∷ 1 ∷ 2 ∷ []) id
pick_fewest_example =
    pick_fewest front_fair snapshot request 0 none wired
      (omega arith, (omega arith, (omega arith, tt))) healthy_ne

pick_most_left_example :
    (out : Picked Milli Milli ℕ) × (LeastKvts.pick snapshot request 0 none ≡ some out)
    × (id : BackendId) × (out.chosen ≡ some id)
    × IsBest left (λ x y. leb y x) three (0 ∷ 1 ∷ 2 ∷ []) id
pick_most_left_example =
    pick_most_left Milli-IsOrdered front_fair snapshot request 0 none wired
      ((omega arith, omega arith), ((omega arith, omega arith), ((omega arith, omega arith), tt)))
      healthy_ne

pick-IsLighter_example :
    (out : Picked Milli Milli ℕ) × (P2c.pick snapshot request 0 none ≡ some out)
    × (out.rng ≡ (front_rng.choose_multiple 0 (0 ∷ 1 ∷ 2 ∷ []) 2).1)
    × (a b id : BackendId) × ((front_rng.choose_multiple 0 (0 ∷ 1 ∷ 2 ∷ []) 2).0 ≡ a ∷ b ∷ [])
    × IsDrawn a b (0 ∷ 1 ∷ 2 ∷ [])
    × (out.chosen ≡ some id)
    × IsLighter three a b id
pick-IsLighter_example = pick-IsLighter front_fair snapshot request 0 none wired (omega arith)

abbrev no_trace : Option (DecisionTrace Milli Milli)
no_trace = none

abbrev rng_state : ℕ
rng_state = 0

round_visits_all_example :
    (cs : List (Option BackendId)) × (turns 3
        (record { next = 7 })
        snapshot
        request
        rng_state
        no_trace
      ≡ some cs)
    × (j : ℕ) × (j < 3)
    × (get_elem? cs j ≡ some (some 2))
round_visits_all_example =
    round_visits_all snapshot request rng_state no_trace wired healthy_ne (record { next = 7 }) 2
      (omega arith) (omega arith)

abbrev strategy : Pressure Milli
strategy = record { theta = fin 550; penalty = fin 10_000; sigma = fin 950; kv_model = prompt_only }

ready :
    (id inflight kv : ℕ)
    → inflight < 40
    → kv < 8193
    → IsReady Milli-IsRounded strategy (backend_at id inflight kv)
unfolding occupancy
ready id inflight kv h k = record {
  sized = record {
    slots_pos = omega arith;
    slots_fit = omega arith;
    tokens_pos = omega arith;
    tokens_fit = omega arith;
    inflight_fit = omega arith;
  };
  bounded = record { over_finite = ground arith; product_finite = ground arith };
}

pick_lowest_score_example :
    let passed = keep (admitted three 100 (fin 950)) (0 ∷ 1 ∷ 2 ∷ []) in
    (out : Picked Milli Milli ℕ) × (Pressure.pick strategy snapshot request 0 none ≡ some out)
    × (id : BackendId) × (out.chosen ≡ some id)
    × IsBest (score_of strategy) milli_float.le three (pool snapshot passed) id
unfolding project
pick_lowest_score_example =
    pick_lowest_score Milli-IsRounded front_fair strategy snapshot request 0 none wired tuned
      (
        ready 0 5 4000 (omega arith) (omega arith),
        (
          ready 1 1 600 (omega arith) (omega arith),
          (ready 2 3 8000 (omega arith) (omega arith), tt),
        ),
      )
      healthy_ne

-- The full backend is gated for the headroom.
gated_by_explains_example :
    let b = backend_at 2 3 8000 in
    let reason =
      gated_by strategy 100 false (keep (admitted three 100 (fin 950)) (0 ∷ 1 ∷ 2 ∷ [])) 2 b in
    ((reason ≡ none) ↔ (admits b 100 (fin 950) ≡ true))
    × ((reason ≡ some kv_headroom) ↔ (le_i64 (add_i64 8000 100) (ceiling b (fin 950)) ≡ false))
    × (reason ≡ some slot_limit → 32 ≤ 3)
gated_by_explains_example =
    gated_by_explains strategy 100 three (0 ∷ 1 ∷ 2 ∷ []) 2 (backend_at 2 3 8000)
      (inr (inr (inl refl))) refl

-- The busy backend says that it is idle.
abbrev report : ReportedLoad Milli
report = record {
  observed_at = 9;
  kv_usage_perc = some (fin 0);
  num_running = some 0;
  num_waiting = some 0;
  preemptions = none;
  prefix_hit_rate = none;
}

abbrev reporting : Snapshot Milli
reporting = record snapshot {
  backends = set three 0 (record (backend_at 0 5 4000) { reported = some report });
}

-- What each strategy chooses of the three: the light one, the first of the two drawn that is lighter,
-- and in turn.
chosen : Option (Picked Milli Milli ℕ) → Option BackendId
chosen out = do o ← out; o.chosen

fewest_chosen : chosen (LeastRequests.pick snapshot request 0 none) ≡ some 1
unfolding chosen visit scan record_pick LeastRequests.pick
fewest_chosen = refl

most_left_chosen : chosen (LeastKvts.pick snapshot request 0 none) ≡ some 1
unfolding chosen visit scan record_pick LeastKvts.pick
most_left_chosen = refl

lighter_chosen : chosen (P2c.pick snapshot request 0 none) ≡ some 1
unfolding chosen record_pick P2c.pick
lighter_chosen = refl

lowest_score_chosen : chosen (Pressure.pick strategy snapshot request 0 none) ≡ some 1
unfolding chosen visit scan project eligible admits occupancy pressure_score
    Pressure.record_decision Pressure.pick
lowest_score_chosen = refl
