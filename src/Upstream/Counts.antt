-- ===== src/Upstream/Counts.antt =====
-- What a relayed stream counts, and that it gives back what it charged.
use keel_llm_router.Base.{
  ℕ, ◌*◌, ◌<◌, ◌≡◌, refl, Bool, true, false, List, [], ◌∷◌, ◌++◌, arith, ◌==◌, if◌then◌else◌, inl,
  inr, Option-cases,
}
use keel_llm_router.Base.Word.{u32_mod, i64_mod, add_u32, add_i64}
use keel_llm_router.Backend.{Backend}
use keel_llm_router.Cost.{KvModel}
use keel_llm_router.Float.{Float}
use keel_llm_router.Json.{Json}
use keel_llm_router.Lease.{open_lease, observe_tokens, release, drop_lease}
use keel_llm_router.Lease.Charge.{
  IsPriced, project_fits, observe_tokens-IsPriced, open_lease-IsPriced,
}
use keel_llm_router.LengthEstimator.{Decay, RouteHistograms}
use keel_llm_router.Sse.{Frame, role_header, content, empty_content, usage, error, done}
use keel_llm_router.Sse.Utf8.{from_utf8}
use keel_llm_router.Upstream.{
  BodyParams, new, Relay, Clock, on_content, on_usage, on_frame, line_frame, on_line, drain_lines,
  on_text, on_data, drop_body,
}

-- The stream so far charged what its lease holds to a backend whose counters were `inflight` and `kv`,
-- and its lease has seen the tokens that it counted.
pub record IsCharging {D S : Type 0} (inflight kv : ℕ) (r : Relay D S) : Type 0 where
  pub priced : IsPriced r.body.lease
  pub counted : r.body.lease.tokens_seen ≡ r.body.content_tokens
  pub slot : r.backend.live.inflight ≡ add_u32 inflight 1
  pub tokens : r.backend.live.kv_projected_tokens ≡ add_i64 kv r.body.lease.charged

module _ {D S : Type 0} ⦃f : Float D⦄ ⦃d : Decay D⦄ (j : Json D (List ℕ)) (inflight kv : ℕ) where
  on_content-IsCharging :
      (clock : Clock D) (r : Relay D S)
      → IsCharging inflight kv r
      → IsCharging inflight kv (on_content clock r)
  unfolding on_content observe_tokens
  on_content-IsCharging clock r h = record {
    priced = observe_tokens-IsPriced r.body.lease r.backend 1 h.priced;
    counted = ground (arith, h.counted);
    slot = ground (arith, h.slot);
    tokens = ground (arith, h.tokens, h.priced.priced);
  }

  on_frame-IsCharging :
      (clock : Clock D) (frame : Frame) (r : Relay D S)
      → IsCharging inflight kv r
      → IsCharging inflight kv (on_frame clock frame r)
  unfolding on_frame on_usage
  on_frame-IsCharging clock role_header r h = h
  on_frame-IsCharging clock (content t) r h = on_content-IsCharging clock r h
  on_frame-IsCharging clock empty_content r h = h
  on_frame-IsCharging clock (usage p c) r h = record {
    priced = h.priced;
    counted = h.counted;
    slot = h.slot;
    tokens = h.tokens;
  }
  on_frame-IsCharging clock (error m) r h = record {
    priced = h.priced;
    counted = h.counted;
    slot = h.slot;
    tokens = h.tokens;
  }
  on_frame-IsCharging clock done r h = record {
    priced = h.priced;
    counted = h.counted;
    slot = h.slot;
    tokens = h.tokens;
  }

  on_line-IsCharging :
      (clock : Clock D) (line : List ℕ) (r : Relay D S)
      → IsCharging inflight kv r
      → IsCharging inflight kv (on_line j clock line r)
  unfolding on_line
  on_line-IsCharging clock line r h = elim (Option-cases (line_frame j line)) [
    | inl e ↦ rw (e, on_line) h
    | inr (frame, e) ↦ rw (e, on_line) (on_frame-IsCharging clock frame r h)
  ]

  drain-IsCharging :
      (clock : Clock D) (cur text : List ℕ) (r : Relay D S)
      → IsCharging inflight kv r
      → IsCharging inflight kv (drain_lines j clock cur text r).1
  unfolding drain_lines
  drain-IsCharging clock cur [] r h = h
  drain-IsCharging clock cur (c ∷ text) r h =
      drain-IsCharging clock (if c == 10 then [] else (cur ++ c ∷ [])) text
        (if c == 10 then on_line j clock (cur ++ c ∷ []) r else r) (line_or (c == 10))
    where
      line_or :
          (b : Bool) → IsCharging inflight kv (if b then on_line j clock (cur ++ c ∷ []) r else r)
      line_or true = on_line-IsCharging clock (cur ++ c ∷ []) r h
      line_or false = h

  on_data-IsCharging :
      (clock : Clock D) (chunk : List ℕ) (r : Relay D S)
      → IsCharging inflight kv r
      → IsCharging inflight kv (on_data j clock chunk r)
  unfolding on_data on_text
  on_data-IsCharging clock chunk r h = elim (Option-cases (from_utf8 chunk)) [
    | inl e ↦ rw (e, on_data) h
    | inr (text, e) ↦
        let k = drain-IsCharging clock [] (r.body.line_buf ++ text) r h in
        rw (e, on_data)
          (record { priced = k.priced; counted = k.counted; slot = k.slot; tokens = k.tokens })
  ]

-- A stream: its chunks, each at its time.
unfoldable pub on_stream :
    {D S : Type 0} ⦃f : Float D⦄ ⦃d : Decay D⦄
    → Json D (List ℕ)
    → List (Clock D × List ℕ)
    → Relay D S
    → Relay D S
on_stream j [] r = r
on_stream j (c ∷ cs) r = on_stream j cs (on_data j c.0 c.1 r)

-- The lease of a request, opened on a backend, and the body that takes it over.
unfoldable pub opened :
    {D S : Type 0}
    → Backend S
    → RouteHistograms D
    → BodyParams
    → ℕ
    → ℕ
    → ℕ
    → KvModel
    → ℕ
    → Relay D S
opened b hists params p prompt o_hat m now =
    let (lease, b') = open_lease p b prompt o_hat m now in
    record {
      body = new (record params { lease = lease });
      backend = b';
      route_hists = hists;
      observed = [];
    }

module _ {D S : Type 0} ⦃f : Float D⦄ ⦃d : Decay D⦄ (j : Json D (List ℕ)) where
  stream-IsCharging :
      (inflight kv : ℕ) (chunks : List (Clock D × List ℕ)) (r : Relay D S)
      → IsCharging inflight kv r
      → IsCharging inflight kv (on_stream j chunks r)
  unfolding on_stream
  stream-IsCharging inflight kv [] r h = h
  stream-IsCharging inflight kv (c ∷ cs) r h =
      stream-IsCharging inflight kv cs (on_data j c.0 c.1 r)
        (on_data-IsCharging j inflight kv c.0 c.1 r h)

  opened-IsCharging :
      (b : Backend S) (hists : RouteHistograms D) (params : BodyParams) (p prompt o_hat : ℕ)
      (m : KvModel) (now : ℕ)
      → prompt < u32_mod
      → o_hat < u32_mod
      → IsCharging b.live.inflight b.live.kv_projected_tokens
          (opened b hists params p prompt o_hat m now)
  unfolding opened new open_lease
  opened-IsCharging b hists params p prompt o_hat m now hp ho = record {
    priced = open_lease-IsPriced p b prompt o_hat m now hp ho;
    counted = refl;
    slot = refl;
    tokens = refl;
  }

  drop_gives_back :
      (inflight kv : ℕ) (r : Relay D S)
      → inflight < u32_mod
      → kv < i64_mod
      → IsCharging inflight kv r
      → let b' = (drop_body r).0 in
        (b'.live.inflight ≡ inflight) × (b'.live.kv_projected_tokens ≡ kv)
  unfolding drop_body drop_lease release
  drop_gives_back inflight kv r hi hk h =
      let l = r.body.lease in
      let fits : l.charged < 2 * u32_mod = rw h.priced.priced (
        project_fits l.kv_model l.prompt_tokens l.o_hat h.priced.prompt_fits h.priced.o_hat_fits) in
      ground (arith, h.slot, h.tokens, h.priced.unreleased, fits)

  -- If the token counts of the request are `u32` and the counters of the backend are words, then whatever
  -- chunks a stream brings, well formed or not, whether it ends in usage, an error or nothing:
  -- the lease has seen exactly the tokens that the body counted, and when the body is dropped the
  -- backend's requests in flight and projected tokens are what they were before the lease was opened.
  pub stream_gives_back :
      (b : Backend S) (hists : RouteHistograms D) (params : BodyParams) (p prompt o_hat : ℕ)
      (m : KvModel) (now : ℕ) (chunks : List (Clock D × List ℕ))
      → prompt < u32_mod
      → o_hat < u32_mod
      → b.live.inflight < u32_mod
      → b.live.kv_projected_tokens < i64_mod
      → let r = on_stream j chunks (opened b hists params p prompt o_hat m now) in
        let b' = (drop_body r).0 in
        (r.body.lease.tokens_seen ≡ r.body.content_tokens)
        × (b'.live.inflight ≡ b.live.inflight)
        × (b'.live.kv_projected_tokens ≡ b.live.kv_projected_tokens)
  stream_gives_back b hists params p prompt o_hat m now chunks hp ho hi hk =
      let start = opened b hists params p prompt o_hat m now in
      let h =
        stream-IsCharging b.live.inflight b.live.kv_projected_tokens chunks start
          (opened-IsCharging b hists params p prompt o_hat m now hp ho) in
      let (slots, tokens) = drop_gives_back _ _ (on_stream j chunks start) hi hk h in
      (h.counted, slots, tokens)
