-- ===== src/Router/Books.antt =====
-- No error path of the handler leaks a lease.
use mathlib.Core.Option.{some-injective}
use keel_llm_router.Base.{
  ℕ, ◌<◌, ◌≡◌, refl, sym, ap, ◌∙◌, inl, inr, Option, none, some, List, arith, get_elem?, set,
  get-set_same, get-set_other, set-set, All, All-get, >>=-eq-some, Bool-cases, ◌==◌,
}
use mathlib.Core.Path.{subst}
use keel_llm_router.Base.Word.{u32_mod, i64_mod}
use keel_llm_router.Backend.{Backend, BackendId}
use keel_llm_router.Cost.{KvModel, prompt_only, prompt_plus_output, project}
use keel_llm_router.Float.{Float}
use keel_llm_router.Lease.{open_lease, release, drop_lease}
use keel_llm_router.LengthEstimator.{Decay}
use keel_llm_router.LengthEstimator.Histograms.{IsRounding}
use keel_llm_router.Observe.{Call}
use keel_llm_router.Strategy.Rng.{Rng}
use keel_llm_router.Upstream
use keel_llm_router.Upstream.Request.{Parts}
use keel_llm_router.Router.{
  RouterState, Outside, Answer, refused, relayed, Handled, Pending, Begun, rejected, dispatching,
  set_backend, connected, begin, finish, handle_inner,
}
use keel_llm_router.Router.Begin.{Opening, lease_of, given_back, Begins, begin-Begins}

-- The counters of the backend are words.
abbrev pub IsWordy : {S : Type 0} → Backend S → Type 0
IsWordy b = (b.live.inflight < u32_mod) × (b.live.kv_projected_tokens < i64_mod)

-- The same load: as many requests in flight and tokens projected.
abbrev pub SameLoad : {S : Type 0} → Backend S → Backend S → Type 0
SameLoad b c =
    (c.live.inflight ≡ b.live.inflight) × (c.live.kv_projected_tokens ≡ b.live.kv_projected_tokens)

-- Every backend of the first list is in the second with the same load.
abbrev pub SameLoads : {S : Type 0} → List (Backend S) → List (Backend S) → Type 0
SameLoads {S} bs cs =
    (i : ℕ) (b : Backend S)
    → get_elem? bs i ≡ some b
    → (c : Backend S) × (get_elem? cs i ≡ some c) × SameLoad b c

module _ {S : Type 0} where
  open_drop :
      (id : BackendId) (b : Backend S) (p o : ℕ) (m : KvModel) (now : ℕ)
      → IsWordy b
      → p < u32_mod
      → SameLoad b (let opened = open_lease id b p o m now in drop_lease opened.0 opened.1)
  unfolding open_lease drop_lease release project
  open_drop id b p o prompt_only now h hp = ground arith
  open_drop id b p o prompt_plus_output now h hp = ground arith

  set-SameLoads :
      (bs : List (Backend S)) (id : BackendId) (b c : Backend S)
      → get_elem? bs id ≡ some b
      → SameLoad b c
      → SameLoads bs (set bs id c)
  set-SameLoads bs id b c e same i x ex = elim (Bool-cases (id == i)) [
    | inl t ↦
        subst
          (λ k.
            get_elem? bs k ≡ some x
            → (x' : Backend S) × (get_elem? (set bs id c) k ≡ some x') × SameLoad x x')
          (ground (arith, t))
          (λ ey. (c, get-set_same bs id c b e, rw (some-injective _ _ (sym ey ∙ e)) same)) ex
    | inr n ↦ (x, get-set_other bs id i c (ground (arith, n)) ∙ ex, (refl, refl))
  ]

  -- Nothing has happened to the backends.
  unchanged : (bs : List (Backend S)) → SameLoads bs bs
  unchanged bs i b e = (b, e, (refl, refl))

  given_back-SameLoads :
      (bs : List (Backend S)) (o : Opening bs) → All IsWordy bs → SameLoads bs (given_back o)
  given_back-SameLoads bs o words = set-SameLoads bs o.id o.backend _ o.found (
      open_drop o.id o.backend o.prompt o.o_hat o.kv_model o.now
        (All-get IsWordy bs o.id words o.found) o.prompt_fits)

module _ {D S : Type 0} ⦃f : Float D⦄ ⦃d : Decay D⦄ where
  abbrev pub IsRefused : Answer D S → Type 0
  IsRefused a = (status : ℕ) × (a ≡ refused status)

  not_relayed : {n : ℕ} {r : Upstream.Relay D S} → ¬ IsRefused (relayed n r)
  not_relayed (status, e) = cc

  -- A request whose connection fails gives its lease back.
  connected_books :
      {B : Type 0} (bs : List (Backend S)) (state : RouterState D S) (p : Pending B) (b : Backend S)
      (outcome : Option ℕ)
      → All IsWordy bs
      → Begins bs state (dispatching p)
      → get_elem? state.snapshot.backends p.lease.backend ≡ some b
      → IsRefused (connected state p b outcome).answer
      → SameLoads bs (connected state p b outcome).state.snapshot.backends
  unfolding connected set_backend open_lease
  connected_books bs state p b (some status) words begun e gone = absurd (not_relayed gone)
  connected_books bs state p b none words (o, leased, stored) e gone =
      let same : b ≡ (lease_of o).1 = some-injective _ _ (
        sym e
        ∙ ap (λ l. get_elem? state.snapshot.backends l.backend) leased
        ∙ ap (λ k. get_elem? k o.id) stored
        ∙ get-set_same bs o.id (lease_of o).1 o.backend o.found) in
      rw (stored, leased, same)
        (rw (set-set bs o.id (lease_of o).1 (drop_lease (lease_of o).0 (lease_of o).1))
          (given_back-SameLoads bs o words))

  module _ {B : Type 0} (out : Outside D B) (state : RouterState D S) where
    finish_books :
        (state' : RouterState D S) (begun : Begun B) (log : List (Call D S)) (h : Handled D S)
        → All IsWordy state.snapshot.backends
        → Begins state.snapshot.backends state' begun
        → finish out state' begun log ≡ some h
        → IsRefused h.answer
        → SameLoads state.snapshot.backends h.state.snapshot.backends
    unfolding finish
    finish_books state' (rejected status) log h words (inl same) e gone =
        rw (sym (some-injective _ _ e), same) (unchanged state.snapshot.backends)
    finish_books state' (rejected status) log h words (inr (o, same)) e gone =
        rw (sym (some-injective _ _ e), same) (given_back-SameLoads state.snapshot.backends o words)
    finish_books state' (dispatching p) log h words begins e gone =
        let (b, eb, last) = >>=-eq-some (get_elem? state'.snapshot.backends p.lease.backend) _ e in
        let same = some-injective _ _ last in
        rw (sym same) (
          connected_books state.snapshot.backends state' p b (out.dispatch p.request) words begins
            eb (rw (sym same) at gone))

  module _ {R B : Type 0} ⦃g : Rng R⦄ (out : Outside D B) (state : RouterState D S) (rng : R)
      (parts : Parts) where
    -- If the counters of all backends are words and `as u32` gives words, then however a request is
    -- refused, be it that it is too long, malformed, that no backend is chosen, or that the connection
    -- fails after the lease was opened: every backend has as many requests in flight and tokens
    -- projected as before the request.
    pub handle_refused_books :
        (laws : IsRounding D) (body : Option B) (now : ℕ) (h : Handled D S)
        → All IsWordy state.snapshot.backends
        → handle_inner out state rng parts body now ≡ some h
        → IsRefused h.answer
        → SameLoads state.snapshot.backends h.state.snapshot.backends
    unfolding handle_inner
    handle_refused_books laws body now h words e gone =
        let (begun, eb, rest) = >>=-eq-some (begin out state rng parts body now) _ e in
        finish_books out state begun.0 begun.1 begun.2 h words
          (begin-Begins out state rng parts laws body now begun eb) rest gone
