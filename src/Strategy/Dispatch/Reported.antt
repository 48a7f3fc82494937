-- ===== src/Strategy/Dispatch/Reported.antt =====
-- The loops of the strategies read nothing of what a backend reports of itself.
use keel_llm_router.Base.{
  ℕ, ◌≡◌, refl, ap, ◌∙◌, Option, none, some, List, [], ◌∷◌, ◌++◌, length, leb, get_elem?, set,
  ◌>>=◌, if◌then◌else◌, ◌==◌,
}
use keel_llm_router.Backend.{Backend, BackendId, Snapshot, ReportedLoad}
use keel_llm_router.Float.{Float}
use keel_llm_router.Gate.{admits, eligible_loop}
use keel_llm_router.Strategy.Rng.{Rng}
use keel_llm_router.Strategy.Scan.{Verdict, Scan, visit, scan}
use keel_llm_router.Strategy.P2c
use keel_llm_router.Strategy.Dispatch.Traced.{read_same, reporting}

module _ {S : Type 0} (bs : List (Backend S)) (i : ℕ) (b : Backend S)
    (load : Option (ReportedLoad S)) (e : get_elem? bs i ≡ some b) where
  abbrev reported : List (Backend S)
  reported = set bs i (record b { reported = load })

  pub scan_same :
      {K : Type 0} (judge : K → K → Verdict) (key : Backend S → K) (ids : List BackendId)
      (s : Scan K)
      → key (record b { reported = load }) ≡ key b
      → scan judge key reported ids s ≡ scan judge key bs ids s
  unfolding scan
  scan_same judge key [] s same = refl
  scan_same judge key (id ∷ ids) s same =
      read_same bs i id (record b { reported = load }) b
        (λ c. scan judge key reported ids (visit (judge (key c) s.best) (key c) id s)) e
        (ap (λ k. scan judge key reported ids (visit (judge k s.best) k id s)) same)
      ∙ (λ k.
          (get_elem? bs id >>= λ c.
          scan_same judge key ids (visit (judge (key c) s.best) (key c) id s) same k))

  lighter_same : (sample : List BackendId) → P2c.lighter reported sample ≡ P2c.lighter bs sample
  unfolding P2c.lighter
  lighter_same sample = λ k. (do x ← get_elem? sample 0; y ← get_elem? sample 1; both x y k)
    where
      rest : BackendId → BackendId → Backend S → Backend S → Option BackendId
      rest x y c d = some (if leb c.live.inflight d.live.inflight then x else y)

      both :
          (x y : BackendId)
          → (get_elem? reported x >>= λ c. get_elem? reported y >>= λ d. rest x y c d)
            ≡ (get_elem? bs x >>= λ c. get_elem? bs y >>= λ d. rest x y c d)
      both x y =
          read_same bs i x (record b { reported = load }) b
            (λ c. get_elem? reported y >>= λ d. rest x y c d) e refl
          ∙ (λ k.
              (get_elem? bs x >>= λ c.
              read_same bs i y (record b { reported = load }) b (rest x y c) e refl k))

  module _ {D : Type 0} ⦃f : Float D⦄ where
    pub loop_same :
        (need_kv : ℕ) (sigma : D) (ids out : List BackendId)
        → eligible_loop reported need_kv sigma ids out ≡ eligible_loop bs need_kv sigma ids out
    unfolding eligible_loop admits
    loop_same need_kv sigma [] out = refl
    loop_same need_kv sigma (id ∷ ids) out =
        read_same bs i id (record b { reported = load }) b
          (λ c.
            eligible_loop reported need_kv sigma ids
              (if admits c need_kv sigma then out ++ id ∷ [] else out))
          e refl
        ∙ (λ k.
            (get_elem? bs id >>= λ c.
            loop_same need_kv sigma ids (if admits c need_kv sigma then out ++ id ∷ [] else out) k))

module _ {S R : Type 0} ⦃g : Rng R⦄ (snap : Snapshot S) (rng : R) (i : ℕ) (b : Backend S)
    (load : Option (ReportedLoad S)) (e : get_elem? snap.backends i ≡ some b) where
  pub choice_same : P2c.choice (reporting snap i b load) rng ≡ P2c.choice snap rng
  unfolding P2c.choice
  choice_same = λ k.
      if length snap.healthy == 0
      then some (none, rng)
      else if length snap.healthy == 1
      then (do id ← get_elem? snap.healthy 0; some (some id, rng))
      else do
        let drawn = g.choose_multiple rng snap.healthy 2
        id ← lighter_same snap.backends i b load e drawn.0 k
        some (some id, drawn.1)
