-- ===== src/Strategy/RoundRobin/Turns.antt =====
-- The picks go round the healthy backends in order.
use keel_llm_router.Base.{
  ℕ, zero, suc, ◌+◌, ◌-◌, ◌%◌, ◌^◌, ◌<◌, ◌≡◌, ◌≢◌, refl, Option, some, List, [], ◌∷◌, arith, sym,
  ap, ◌∙◌, length, get_elem?, get_elem?-lt, is_empty_ne, ◌>>=◌,
}
use native.Mathlib.Nat.{mod-lt, mod-add-mod, add-mod-mod, add-mod_right, mod-eq_of_lt}
use keel_llm_router.Float.{Float}
use keel_llm_router.Backend.{BackendId, Snapshot, IsWired}
use keel_llm_router.Features.{RequestFeatures}
use keel_llm_router.Trace.{DecisionTrace, record_pick_total}
use keel_llm_router.Strategy.Rng.{Picked}
use keel_llm_router.Strategy.RoundRobin.{RoundRobin, name, pick}

pub length_pos : {A : Type 0} (xs : List A) → xs ≢ [] → 0 < length xs
length_pos [] h = absurd (h refl)
length_pos (x ∷ xs) h = omega arith

cons_each :
    {A : Type 0} (f : ℕ → A) (c : A) (cs : List A) (a a' k : ℕ)
    → a' ≡ suc a
    → c ≡ f a
    → ((j : ℕ) → j < k → get_elem? cs j ≡ some (f (a' + j)))
    → (j : ℕ) → j < suc k
    → get_elem? (c ∷ cs) j ≡ some (f (a + j))
cons_each f c cs a a' k e first rest zero h = ap some (first ∙ ap f (omega arith))
cons_each f c cs a a' k e first rest (suc j) h = rest j (omega arith) ∙ ap some (ap f (omega arith))

-- After how many picks the turn of position `p` comes.
turn_of : (a n p : ℕ) → p < n → (a + (p + n - a % n) % n) % n ≡ p
turn_of a n p h =
    add-mod-mod a (p + n - a % n) n
    ∙ sym (mod-add-mod a n (p + n - a % n))
    ∙ ap (λ k. k % n) (cancel (a % n) (mod-lt a (omega arith)))
    ∙ add-mod_right p n
    ∙ mod-eq_of_lt h
  where
    cancel : (r : ℕ) → r < n → r + (p + n - r) ≡ p + n
    cancel r hr = omega arith

module _ {D S R : Type 0} ⦃f : Float D⦄ where
  pub pick_turn :
      (s : RoundRobin) (snap : Snapshot S) (req : RequestFeatures) (rng : R)
      (trace : Option (DecisionTrace D S))
      → IsWired snap
      → snap.healthy ≢ []
      → (out : Picked D S R) × (pick s snap req rng trace
          ≡ some (record { next = (s.next + 1) % 2 ^ 64 }, out))
        × (out.chosen ≡ get_elem? snap.healthy (s.next % length snap.healthy))
  unfolding pick
  pick_turn s snap req rng trace wired some_id =
      let i = s.next % length snap.healthy in
      let (id, e) = get_elem?-lt snap.healthy i (mod-lt s.next (length_pos snap.healthy some_id)) in
      let (t, et) = record_pick_total trace name snap req (some id) wired in
      (
        record { chosen = some id; rng = rng; trace = t },
        rw (is_empty_ne snap.healthy some_id, e, et),
        sym e,
      )

  -- The choices of `k` picks in a row on one snapshot.
  pub turns :
      ℕ
      → RoundRobin
      → Snapshot S
      → RequestFeatures
      → R
      → Option (DecisionTrace D S)
      → Option (List (Option BackendId))
  turns zero s snap req rng trace = some []
  turns (suc k) s snap req rng trace = do
    (s', out) ← pick s snap req rng trace
    rest ← turns k s' snap req rng trace
    some (out.chosen ∷ rest)

  module _ (snap : Snapshot S) (req : RequestFeatures) (rng : R)
      (trace : Option (DecisionTrace D S)) (wired : IsWired snap)
      (some_id : snap.healthy ≢ []) where
    -- The `j`-th of `k` picks is `j` places further on.
    turns_lem :
        (k : ℕ) (s : RoundRobin)
        → s.next + k < 2 ^ 64
        → (cs : List (Option BackendId)) × (turns k s snap req rng trace ≡ some cs)
          × ((j : ℕ)
              → j < k
              → get_elem? cs j ≡ some (get_elem? snap.healthy ((s.next + j) % length snap.healthy)))
    unfolding turns
    turns_lem zero s fits = ([], refl, λ j h. elim h [ ])
    turns_lem (suc k) s fits =
        let (out, e, chosen) = pick_turn s snap req rng trace wired some_id in
        let (cs, es, rest) = turns_lem k (record { next = (s.next + 1) % 2 ^ 64 }) (omega arith) in
        (
          out.chosen ∷ cs,
          rw (e, es),
          cons_each (λ i. get_elem? snap.healthy (i % length snap.healthy)) out.chosen cs s.next
              ((s.next + 1) % 2 ^ 64) k (omega arith) chosen rest,
        )

    -- On a snapshot that is wired and has a healthy backend, any round of picks, one for each healthy
    -- backend, in which the counter does not wrap, comes to every healthy backend.
    pub round_visits_all :
        (s : RoundRobin) (p : ℕ)
        → s.next + length snap.healthy < 2 ^ 64
        → p < length snap.healthy
        → (cs : List (Option BackendId)) × (turns (length snap.healthy) s snap req rng trace
            ≡ some cs)
          × (j : ℕ) × (j < length snap.healthy)
          × (get_elem? cs j ≡ some (get_elem? snap.healthy p))
    round_visits_all s p fits h =
        let n = length snap.healthy in
        let j = (p + n - s.next % n) % n in
        let (cs, es, each) = turns_lem n s fits in
        let inside : j < n = mod-lt (p + n - s.next % n) (length_pos snap.healthy some_id) in
        (
          cs,
          es,
          j,
          inside,
          each j inside ∙ ap (λ i. some (get_elem? snap.healthy i)) (turn_of s.next n p h),
        )
