-- ===== src/Strategy/Scan/Select.antt =====
-- A scan followed by a random choice among the ties picks a candidate with the least key.
use keel_llm_router.Base.{
  ◌<◌, ◌≡◌, ◌≢◌, refl, Bool, true, some, List, [], ◌∷◌, length, get_elem?, get_elem?-lt, All, Elem,
  bind_total,
}
use keel_llm_router.Backend.{Backend, BackendId}
use keel_llm_router.Strategy.Rng.{Rng, IsFair}
use keel_llm_router.Strategy.Scan.{Verdict, Scan, visit, scan}
use keel_llm_router.Strategy.Scan.Best.{IsRanking, AllGood}
use keel_llm_router.Strategy.Scan.Least.{scan-Least, scan_nonempty}

-- `id` is one of the candidates, and no candidate's key is less than its key.
abbrev pub IsBest :
    {S K : Type 0}
    → (Backend S → K)
    → (K → K → Bool)
    → List (Backend S)
    → List BackendId
    → BackendId
    → Type 0
IsBest {S} key leq backends ids id =
    Elem id ids
    × ((b : Backend S) × (get_elem? backends id ≡ some b)
        × ((j : BackendId) (c : Backend S)
            → Elem j ids
            → get_elem? backends j ≡ some c
            → leq (key b) (key c) ≡ true))

module _ {S K : Type 0} (judge : K → K → Verdict) (key : Backend S → K)
    (backends : List (Backend S)) where
  pub scan_total :
      (ids : List BackendId) (s : Scan K)
      → All (λ id. id < length backends) ids
      → (r : Scan K) × (scan judge key backends ids s ≡ some r)
  unfolding scan
  scan_total [] s h = (s, refl)
  scan_total (id ∷ ids) s h =
      let (b, e) = get_elem?-lt backends id h.0 in
      bind_total (get_elem? backends id) _ e
        (scan_total ids (visit (judge (key b) s.best) (key b) id s) h.1)

module _ {S K R : Type 0} ⦃g : Rng R⦄ (fair : IsFair R) {judge : K → K → Verdict}
    {good : K → Type 0} {leq : K → K → Bool} (key : Backend S → K)
    (ranking : IsRanking judge good leq) (backends : List (Backend S)) where
  pub select_best :
      (ids : List BackendId) (top : K) (r : R)
      → All (λ id. id < length backends) ids
      → AllGood key ranking backends ids
      → good top
      → ((k : K) → good k → leq k top ≡ true)
      → ids ≢ []
      → (s : Scan K) × (scan judge key backends ids (record { best = top; ties = [] }) ≡ some s)
        × (id : BackendId) × ((g.choose r s.ties).0 ≡ some id)
        × IsBest key leq backends ids id
  select_best ids top r wired all gt below some_id =
      let (s, e) = scan_total judge key backends ids (record { best = top; ties = [] }) wired in
      let least = scan-Least key ranking backends ids top all gt e in
      let tied = scan_nonempty key ranking backends ids top all gt below some_id e in
      let (id, chosen, m) = fair.choose_some r s.ties tied in
      let (candidate, (b, eb, l)) = least.ties_least id m in
      (
        s,
        e,
        id,
        chosen,
        (candidate, (b, eb, λ j c mj ec. ranking.leq_trans _ _ _ l (least.least j c mj ec))),
      )

-- A best candidate stays one under a key that orders the backends alike.
pub IsBest-mono :
    {S K K' : Type 0} (key : Backend S → K) (leq : K → K → Bool) (key' : Backend S → K')
    (leq' : K' → K' → Bool) (backends : List (Backend S)) (ids : List BackendId) (id : BackendId)
    → ((i j : BackendId) (b c : Backend S)
        → get_elem? backends i ≡ some b
        → get_elem? backends j ≡ some c
        → leq (key b) (key c) ≡ true
        → leq' (key' b) (key' c) ≡ true)
    → IsBest key leq backends ids id
    → IsBest key' leq' backends ids id
IsBest-mono key leq key' leq' backends ids id h (m, (b, eb, best)) =
    (m, (b, eb, λ j c mj ec. h id j b c eb ec (best j c mj ec)))
