-- ===== src/Router/Begin.antt =====
-- What the handler does to the backends up to the connection: nothing, or it opens one lease.
use keel_llm_router.Base.{
  ℕ, ◌<◌, ◌≡◌, ◌⊎◌, refl, inl, inr, Option, some, List, get_elem?, set, ok, err-ne-ok, Option-cases,
}
use keel_llm_router.Base.Word.{u32_mod}
use keel_llm_router.Backend.{Backend, BackendId}
use keel_llm_router.Cost.{KvModel}
use keel_llm_router.Features.{RequestFeatures}
use keel_llm_router.Float.{Float}
use keel_llm_router.Inbound.{build_features}
use keel_llm_router.Inbound.Features.{features_charged}
use keel_llm_router.Lease.{CostLease, open_lease, drop_lease}
use keel_llm_router.LengthEstimator.{Decay}
use keel_llm_router.LengthEstimator.Histograms.{IsRounding}
use keel_llm_router.Observe.{Call}
use keel_llm_router.Strategy.Rng.{Rng}
use keel_llm_router.Upstream.Request.{Parts, rebuild_request}
use keel_llm_router.Router.Rule.{Result-cases, begin_rule}
use keel_llm_router.Router.{
  decision_log, RouterState, Outside, Begun, rejected, dispatching, set_backend, reserve, begin,
}

-- A lease that can be opened on the backends, with token counts that are words.
pub record Opening {S : Type 0} (bs : List (Backend S)) : Type 0 where
  pub id : BackendId
  pub backend : Backend S
  pub prompt : ℕ
  pub o_hat : ℕ
  pub kv_model : KvModel
  pub now : ℕ
  pub found : get_elem? bs id ≡ some backend
  pub prompt_fits : prompt < u32_mod
  pub o_hat_fits : o_hat < u32_mod

module _ {S : Type 0} {bs : List (Backend S)} where
  abbrev pub lease_of : Opening bs → CostLease × Backend S
  lease_of o = open_lease o.id o.backend o.prompt o.o_hat o.kv_model o.now

  abbrev pub opened : Opening bs → List (Backend S)
  opened o = set bs o.id (lease_of o).1

  -- The lease was opened, and dropped at once.
  abbrev pub given_back : Opening bs → List (Backend S)
  given_back o = set bs o.id (drop_lease (lease_of o).0 (lease_of o).1)

-- How a request begins: rejected with the backends as they were or a lease given back, or with its
-- lease open.
abbrev pub Begins : {D S B : Type 0} → List (Backend S) → RouterState D S → Begun B → Type 0
Begins bs state (rejected status) =
    (state.snapshot.backends ≡ bs) ⊎ ((o : Opening bs) × (state.snapshot.backends ≡ given_back o))
Begins bs state (dispatching p) =
    (o : Opening bs) × (p.lease ≡ (lease_of o).0) × (state.snapshot.backends ≡ opened o)

module _ {D S : Type 0} ⦃f : Float D⦄ ⦃d : Decay D⦄ {R B : Type 0} ⦃g : Rng R⦄ (out : Outside D B)
    (state : RouterState D S) (rng : R) (parts : Parts) where
  reserve-Begins :
      (state' : RouterState D S) (bytes : B) (features : RequestFeatures) (now : ℕ) (id : BackendId)
      (b : Backend S) (log : List (Call D S))
      → get_elem? state'.snapshot.backends id ≡ some b
      → features.prompt_tokens < u32_mod
      → features.expected_output_tokens < u32_mod
      → let begun = reserve out state' parts bytes features now id b log in
        Begins state'.snapshot.backends begun.0 begun.1
  unfolding reserve set_backend
  reserve-Begins state' bytes features now id b log e fits_p fits_o =
      let o : Opening state'.snapshot.backends = record {
        id = id;
        backend = b;
        prompt = features.prompt_tokens;
        o_hat = features.expected_output_tokens;
        kv_model = state'.kv_model;
        now = now;
        found = e;
        prompt_fits = fits_p;
        o_hat_fits = fits_o;
      } in
      elim (Result-cases (rebuild_request out.is_uri parts bytes b.uri)) [
        | inl (x, ex) ↦ rw (ex, reserve) (inr (o, refl))
        | inr (request, er) ↦ rw (er, reserve) (o, refl, refl)
      ]

  -- Features that were read have token counts that are words.
  build_features-fits :
      (laws : IsRounding D) (bytes : B) (now : ℕ) (features : RequestFeatures)
      → build_features out.json bytes now state.route_hists state.token_counter ≡ ok features
      → (features.prompt_tokens < u32_mod) × (features.expected_output_tokens < u32_mod)
  unfolding build_features
  build_features-fits laws bytes now features e = elim (Option-cases (out.json.from_text bytes)) [
    | inl n ↦ absurd (err-ne-ok (rw (n, build_features) at e))
    | inr (v, ev) ↦
        let charged =
          features_charged laws v now state.route_hists state.token_counter features
            (rw (ev, build_features) at e) in
        (charged.1, charged.3)
  ]

  pub begin-Begins :
      (laws : IsRounding D) (body : Option B) (now : ℕ)
      (begun : RouterState D S × Begun B × List (Call D S))
      → begin out state rng parts body now ≡ some begun
      → Begins state.snapshot.backends begun.0 begun.1
  begin-Begins laws body now begun e =
      begin_rule out state rng parts (λ begun. Begins state.snapshot.backends begun.0 begun.1) body
        now begun (λ strategy status. inl refl)
        (λ strategy bytes asked features id b trace ef eb.
          let (fits_p, fits_o) = build_features-fits laws bytes now features ef in
          reserve-Begins (record state { strategy = strategy }) asked features now id b
            (decision_log out state trace) eb fits_p fits_o)
        e
