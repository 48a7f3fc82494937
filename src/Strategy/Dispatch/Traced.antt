-- ===== src/Strategy/Dispatch/Traced.antt =====
-- What the trace of a pick needs of the backends, whatever these report of themselves.
use mathlib.Core.Option.{some-injective}
use keel_llm_router.Base.{
  collect, Bool, true, false, String, ℕ, zero, suc, ◌≡◌, refl, sym, ap, ◌∙◌, Option, none, some,
  List, [], ◌∷◌, get_elem?, set, ◌>>=◌,
}
use keel_llm_router.Backend.{Backend, BackendId, Snapshot, ReportedLoad}
use keel_llm_router.Features.{RequestFeatures}
use keel_llm_router.Float.{Float}
use keel_llm_router.Trace.{DecisionTrace, plain_candidate, record_pick}
use keel_llm_router.Strategy.Pressure

-- A read that finds another item, which the rest of the chain does not tell apart.
pub read_same :
    {A B : Type 0} (xs : List A) (i k : ℕ) (v a : A) (h : A → Option B)
    → get_elem? xs i ≡ some a
    → h v ≡ h a
    → (get_elem? (set xs i v) k >>= h) ≡ (get_elem? xs k >>= h)
read_same [] i k v a h e same = refl
read_same (x ∷ xs) zero zero v a h e same = same ∙ ap h (sym (some-injective _ _ e))
read_same (x ∷ xs) zero (suc k) v a h e same = refl
read_same (x ∷ xs) (suc i) zero v a h e same = refl
read_same (x ∷ xs) (suc i) (suc k) v a h e same = read_same xs i k v a h e same

-- Whether there is a result.
abbrev pub is_some : {A : Type 0} → Option A → Bool
is_some none = false
is_some (some a) = true

bind_some : {A B : Type 0} (m : Option A) (h : A → B) → is_some (m >>= λ a. some (h a)) ≡ is_some m
bind_some none h = refl
bind_some (some a) h = refl

set_some :
    {A : Type 0} (xs : List A) (i k : ℕ) (v : A)
    → is_some (get_elem? (set xs i v) k) ≡ is_some (get_elem? xs k)
set_some [] i k v = refl
set_some (x ∷ xs) zero zero v = refl
set_some (x ∷ xs) zero (suc k) v = refl
set_some (x ∷ xs) (suc i) zero v = refl
set_some (x ∷ xs) (suc i) (suc k) v = set_some xs i k v

cons_some :
    {B : Type 0} (y z : Option B) (ys zs : Option (List B))
    → is_some y ≡ is_some z
    → is_some ys ≡ is_some zs
    → is_some (y >>= λ a. ys >>= λ rest. some (a ∷ rest))
      ≡ is_some (z >>= λ a. zs >>= λ rest. some (a ∷ rest))
cons_some none none ys zs e h = refl
cons_some none (some z) ys zs e h = cc
cons_some (some y) none ys zs e h = cc
cons_some (some y) (some z) ys zs e h =
    bind_some ys (λ rest. y ∷ rest) ∙ h ∙ sym (bind_some zs (λ rest. z ∷ rest))

collect_some :
    {A B : Type 0} (g h : A → Option B)
    → ((a : A) → is_some (g a) ≡ is_some (h a))
    → (xs : List A) → is_some (collect g xs) ≡ is_some (collect h xs)
unfolding collect
collect_some g h same [] = refl
collect_some g h same (x ∷ xs) =
    cons_some (g x) (h x) (collect g xs) (collect h xs) (same x) (collect_some g h same xs)

-- The snapshot after a backend has reported.
abbrev pub reporting :
    {S : Type 0} → Snapshot S → ℕ → Backend S → Option (ReportedLoad S) → Snapshot S
reporting snap i b load = record snap {
  backends = set snap.backends i (record b { reported = load });
}

module _ {D S : Type 0} ⦃f : Float D⦄ (snap : Snapshot S) (i : ℕ) (b : Backend S)
    (load : Option (ReportedLoad S)) (e : get_elem? snap.backends i ≡ some b) where
  plain_same :
      (id : BackendId)
      → plain_candidate {D = D} (reporting snap i b load).backends id
        ≡ plain_candidate {D = D} snap.backends id
  plain_same id =
      read_same snap.backends i id (record b { reported = load }) b
        (λ c. some (record {
          backend = id;
          score = f.nought;
          occupancy = f.nought;
          inflight = c.live.inflight;
          kv_projected = c.live.kv_projected_tokens;
          gated_by = none;
          reported_kv = none;
          signal_age_ms = none;
        }))
        e refl

  -- The trace of a strategy that computes no scores is the same.
  pub record_pick_same :
      (trace : Option (DecisionTrace D S)) (name : String) (req : RequestFeatures)
      (chosen : Option BackendId)
      → record_pick trace name (reporting snap i b load) req chosen
        ≡ record_pick trace name snap req chosen
  unfolding record_pick
  record_pick_same none name req chosen = refl
  record_pick_same (some t) name req chosen = λ k.
      collect (λ id. plain_same id k) snap.healthy >>= λ candidates. some (
        some (record t {
          strategy = name;
          chosen = chosen;
          prompt_tokens = req.prompt_tokens;
          expected_output_tokens = req.expected_output_tokens;
          fell_through = false;
          candidates = candidates;
        }))

  -- That of the pressure strategy has what was reported, but does not fail for it.
  pub record_decision_some :
      (s : Pressure.Pressure D) (req : RequestFeatures) (need_kv : ℕ) (fell_through : Bool)
      (passed : List BackendId) (picked : Option BackendId) (trace : Option (DecisionTrace D S))
      → is_some (
          Pressure.record_decision s
            (reporting snap i b load)
            req
            need_kv
            fell_through
            passed
            picked
            trace)
        ≡ is_some (Pressure.record_decision s snap req need_kv fell_through passed picked trace)
  unfolding Pressure.record_decision Pressure.candidate
  record_decision_some s req need_kv fell_through passed picked none = refl
  record_decision_some s req need_kv fell_through passed picked (some t) =
      bind_some
        (collect
          (Pressure.candidate s need_kv fell_through passed (reporting snap i b load).backends)
          snap.healthy)
        _
      ∙ collect_some
          (Pressure.candidate s need_kv fell_through passed (reporting snap i b load).backends)
          (Pressure.candidate s need_kv fell_through passed snap.backends)
          (λ id.
            bind_some (get_elem? (reporting snap i b load).backends id) _
            ∙ set_some snap.backends i id (record b { reported = load })
            ∙ sym (bind_some (get_elem? snap.backends id) _))
          snap.healthy
      ∙ sym (
          bind_some
            (collect (Pressure.candidate s need_kv fell_through passed snap.backends) snap.healthy)
            _)
