-- ===== src/Strategy/Dispatch/Reports.antt =====
-- What the backends report of themselves has no part in a choice: crates/router-proxy/src/signal.
use keel_llm_router.Base.{
  Bool, true, false, String, ℕ, ◌+◌, ◌^◌, ◌%◌, ◌≡◌, refl, ap, ◌∙◌, Option, none, some, List, [],
  length, get_elem?, set, ◌>>=◌, if◌then◌else◌, is_empty,
}
use keel_llm_router.Base.Word.{u32_max}
use keel_llm_router.Backend.{Backend, BackendId, Snapshot, ReportedLoad}
use keel_llm_router.Cost.{project, occupancy}
use keel_llm_router.Features.{RequestFeatures}
use keel_llm_router.Float.{Float}
use keel_llm_router.Gate.{eligible}
use keel_llm_router.Trace.{DecisionTrace, record_pick}
use keel_llm_router.Strategy.Rng.{Rng, Picked}
use keel_llm_router.Strategy.Scan.{Verdict, scan}
use keel_llm_router.Strategy.RoundRobin
use keel_llm_router.Strategy.P2c
use keel_llm_router.Strategy.LeastRequests
use keel_llm_router.Strategy.LeastKvts
use keel_llm_router.Strategy.Pressure
use keel_llm_router.Strategy.Dispatch.Traced.{
  is_some, reporting, record_pick_same, record_decision_some,
}
use keel_llm_router.Strategy.Dispatch.{
  RoutingStrategy, round_robin, p2c, least_requests, least_kvts, pressure, route,
}
use keel_llm_router.Strategy.Dispatch.Reported.{scan_same, loop_same, choice_same}

-- What a pick hands the handler, apart from the trace: the strategy as it leaves it, the choice and the
-- generator. `none` is a panic.
abbrev pub outcome :
    {D S R : Type 0}
    → Option (RoutingStrategy D × Picked D S R)
    → Option (RoutingStrategy D × Option BackendId × R)
outcome none = none
outcome (some out) = some (out.0, out.1.chosen, out.1.rng)

module _ {D S R : Type 0} where
  told_outcome :
      (s : RoutingStrategy D) (picked : Option BackendId × R)
      (traced others : Option (Option (DecisionTrace D S)))
      → is_some traced ≡ is_some others
      → outcome (
          (traced >>= λ t. some (record { chosen = picked.0; rng = picked.1; trace = t }))
          >>= λ out. some (s, out))
        ≡ outcome (
            (others >>= λ t. some (record { chosen = picked.0; rng = picked.1; trace = t }))
            >>= λ out. some (s, out))
  told_outcome s picked none none e = refl
  told_outcome s picked none (some t) e = cc
  told_outcome s picked (some t) none e = cc
  told_outcome s picked (some t) (some u) e = refl

  if_outcome :
      (c : Bool) (s : RoutingStrategy D) (l m n : Option (Picked D S R))
      → outcome (m >>= λ out. some (s, out)) ≡ outcome (n >>= λ out. some (s, out))
      → outcome ((if c then l else m) >>= λ out. some (s, out))
        ≡ outcome ((if c then l else n) >>= λ out. some (s, out))
  if_outcome false s l m n same = same
  if_outcome true s l m n same = refl

  bind_outcome :
      {A : Type 0} (m : Option A) (s : RoutingStrategy D) (h k : A → Option (Picked D S R))
      → ((a : A) → outcome (h a >>= λ out. some (s, out)) ≡ outcome (k a >>= λ out. some (s, out)))
      → outcome ((m >>= h) >>= λ out. some (s, out)) ≡ outcome ((m >>= k) >>= λ out. some (s, out))
  bind_outcome none s h k same = refl
  bind_outcome (some a) s h k same = same a

module _ {D S R : Type 0} ⦃f : Float D⦄ ⦃g : Rng R⦄ (rng : R) (req : RequestFeatures)
    (trace : Option (DecisionTrace D S)) where
  -- The pick of a strategy that scans for the best key.
  abbrev scored :
      {K : Type 0}
      → (K → K → Verdict)
      → (Backend S → K)
      → K
      → String
      → Snapshot S
      → Option (Picked D S R)
  scored judge key first name snap = do
    s ← scan judge key snap.backends snap.healthy (record { best = first; ties = [] })
    let picked = g.choose rng s.ties
    trace' ← record_pick trace name snap req picked.0
    some (record { chosen = picked.0; rng = picked.1; trace = trace' })

module _ {D S R : Type 0} ⦃f : Float D⦄ ⦃g : Rng R⦄ (snap : Snapshot S) (rng : R) (i : ℕ)
    (b : Backend S) (load : Option (ReportedLoad S)) (e : get_elem? snap.backends i ≡ some b)
    (req : RequestFeatures) (trace : Option (DecisionTrace D S)) where
  scored_same :
      {K : Type 0} (judge : K → K → Verdict) (key : Backend S → K) (first : K) (name : String)
      → key (record b { reported = load }) ≡ key b
      → scored rng req trace judge key first name (reporting snap i b load)
        ≡ scored rng req trace judge key first name snap
  scored_same judge key first name same = λ k. (do
    s ←
        scan_same snap.backends i b load e judge key snap.healthy
          (record { best = first; ties = [] }) same k
    let picked = g.choose rng s.ties
    trace' ← record_pick_same snap i b load e trace name req picked.0 k
    some (record { chosen = picked.0; rng = picked.1; trace = trace' }))

  turn_same :
      (s : RoundRobin.RoundRobin)
      → RoundRobin.pick s (reporting snap i b load) req rng trace
        ≡ RoundRobin.pick s snap req rng trace
  unfolding RoundRobin.pick
  turn_same s = λ k.
      if is_empty snap.healthy
      then (do
        trace' ← record_pick_same snap i b load e trace RoundRobin.name req none k
        some (s, record { chosen = none; rng = rng; trace = trace' }))
      else do
        id ← get_elem? snap.healthy (s.next % length snap.healthy)
        trace' ← record_pick_same snap i b load e trace RoundRobin.name req (some id) k
        some (
          record { next = (s.next + 1) % 2 ^ 64 },
          record { chosen = some id; rng = rng; trace = trace' },
        )

  decide_same :
      (s : Pressure.Pressure D) (need_kv : ℕ) (passed : List BackendId)
      → outcome (
          Pressure.decide s (reporting snap i b load) req need_kv passed rng trace >>= λ out.
          some (pressure s, out))
        ≡ outcome
            (Pressure.decide s snap req need_kv passed rng trace >>= λ out. some (pressure s, out))
  unfolding Pressure.decide occupancy
  decide_same s need_kv passed =
      ap
        (λ scanned. outcome (
          (scanned >>= λ best.
          let picked = g.choose rng best.ties in
          (Pressure.record_decision s (reporting snap i b load) req need_kv (is_empty passed) passed
              picked.0 trace
            >>= λ trace'. some (record { chosen = picked.0; rng = picked.1; trace = trace' })))
          >>= λ out. some (pressure s, out)))
        (scan_same snap.backends i b load e Pressure.judge (Pressure.score_of s)
          (if is_empty passed then snap.healthy else passed)
          (record { best = f.infinity; ties = [] }) refl)
      ∙ bind_outcome
          (scan Pressure.judge (Pressure.score_of s) snap.backends
            (if is_empty passed then snap.healthy else passed)
            (record { best = f.infinity; ties = [] }))
          (pressure s) _ _
          (λ best.
            told_outcome (pressure s) (g.choose rng best.ties)
              (Pressure.record_decision s (reporting snap i b load) req need_kv (is_empty passed)
                passed (g.choose rng best.ties).0 trace)
              (Pressure.record_decision s snap req need_kv (is_empty passed) passed
                (g.choose rng best.ties).0 trace)
              (record_decision_some snap i b load e s req need_kv (is_empty passed) passed
                (g.choose rng best.ties).0 trace))

module _ {D S R : Type 0} ⦃f : Float D⦄ ⦃g : Rng R⦄ where
  -- Whatever one backend reports of itself, or if nothing of it is known: with whatever trace is given,
  -- every strategy makes the same choice, leaves itself and the generator the same, and panics in the same
  -- cases.
  pub route_ignores_reports :
      (s : RoutingStrategy D) (snap : Snapshot S) (req : RequestFeatures) (rng : R) (i : ℕ)
      (b : Backend S) (load : Option (ReportedLoad S)) (trace : Option (DecisionTrace D S))
      → get_elem? snap.backends i ≡ some b
      → outcome (
          route s
            (record snap { backends = set snap.backends i (record b { reported = load }) })
            req
            rng
            trace)
        ≡ outcome (route s snap req rng trace)
  unfolding route RoundRobin.pick P2c.pick LeastRequests.pick LeastKvts.pick Pressure.pick eligible
      Pressure.record_empty
  route_ignores_reports (round_robin s) snap req rng i b load trace e =
      ap (λ m. outcome (m >>= λ out. some (round_robin out.0, out.1)))
        (turn_same snap rng i b load e req trace s)
  route_ignores_reports p2c snap req rng i b load trace e = λ k. outcome (do
    out ← do
      picked ← choice_same snap rng i b load e k
      trace' ← record_pick_same snap i b load e trace P2c.name req picked.0 k
      some (record { chosen = picked.0; rng = picked.1; trace = trace' })
    some (p2c, out))
  route_ignores_reports least_requests snap req rng i b load trace e = λ k. outcome (do
    out ←
        (if is_empty snap.healthy
          then (do
            trace' ← record_pick_same snap i b load e trace LeastRequests.name req none k
            some (record { chosen = none; rng = rng; trace = trace' }))
          else scored_same snap rng i b load e req trace LeastRequests.judge LeastRequests.load
              u32_max LeastRequests.name refl k)
    some (least_requests, out))
  route_ignores_reports least_kvts snap req rng i b load trace e = λ k. outcome (do
    out ←
        (if is_empty snap.healthy
          then (do
            trace' ← record_pick_same snap i b load e trace LeastKvts.name req none k
            some (record { chosen = none; rng = rng; trace = trace' }))
          else scored_same snap rng i b load e req trace LeastKvts.judge LeastKvts.remaining
              f.neg_infinity LeastKvts.name refl k)
    some (least_kvts, out))
  route_ignores_reports (pressure s) snap req rng i b load trace e =
      let need_kv = project s.kv_model req.prompt_tokens req.expected_output_tokens in
      if_outcome (is_empty snap.healthy) (pressure s)
        (some (record { chosen = none; rng = rng; trace = Pressure.record_empty req trace })) _ _
        (ap
            (λ passed. outcome (
              (passed >>= λ ids.
              Pressure.decide s (reporting snap i b load) req need_kv ids rng trace)
              >>= λ out. some (pressure s, out)))
            (loop_same snap.backends i b load e need_kv s.sigma snap.healthy [])
          ∙ bind_outcome (eligible snap need_kv s.sigma) (pressure s) _ _
              (λ passed. decide_same snap rng i b load e req trace s need_kv passed))
