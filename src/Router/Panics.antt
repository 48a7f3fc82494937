-- ===== src/Router/Panics.antt =====
-- When the handler panics: on one kind of request, and on no other.
use mathlib.Core.Path.{subst}
use keel_llm_router.Base.{
  ℕ, ◌≡◌, ◌↔◌, ◌⊎◌, refl, sym, ap, ◌∙◌, inl, inr, true, Option, none, some, List, [], get_elem?,
  get_elem?-lt, get-set_same, set, is_empty, bind_total, ok, Bool-cases, Option-cases, All-Elem,
}
use keel_llm_router.Backend.{IsWired}
use keel_llm_router.Features.{RequestFeatures}
use keel_llm_router.Float.{Float}
use keel_llm_router.Inbound.{build_features, features_of, ensure_usage_requested}
use keel_llm_router.Inbound.Usage.{IsOdd, ensure_panics_iff}
use keel_llm_router.Json.{Value, Members, null, bool, number, text, array, object, as_object}
use keel_llm_router.Lease.{open_lease}
use keel_llm_router.LengthEstimator.{Decay}
use keel_llm_router.LengthEstimator.Histograms.{IsRounding}
use keel_llm_router.Observe.{Call}
use keel_llm_router.Strategy.Dispatch.{route}
use keel_llm_router.Strategy.Dispatch.Returns.{route_returns}
use keel_llm_router.Strategy.Rng.{Rng, IsFair}
use keel_llm_router.Upstream.Request.{Parts}
use keel_llm_router.Router.{
  RouterState, Outside, Handled, Begun, rejected, dispatching, choose, begin, finish, handle_inner,
  respond, handle, default_trace,
}
use keel_llm_router.Router.Begin.{lease_of, Begins, begin-Begins}
use keel_llm_router.Router.Rule.{Result-cases}

none-ne-some : {A : Type 0} {a : A} → none ≡ some a → ⊥
none-ne-some e = cc

object_cases :
    {D : Type 0} (v : Value D) → ((ms : Members D) × (v ≡ object ms)) ⊎ (as_object v ≡ none)
object_cases null = inr refl
object_cases (bool b) = inr refl
object_cases (number n) = inr refl
object_cases (text t) = inr refl
object_cases (array vs) = inr refl
object_cases (object ms) = inl (ms, refl)

module _ {D S : Type 0} ⦃f : Float D⦄ ⦃d : Decay D⦄ {R B : Type 0} ⦃g : Rng R⦄ (out : Outside D B)
    (state : RouterState D S) (rng : R) (parts : Parts) where
  -- The body is that of a streaming request whose `stream_options` is there and is no object.
  abbrev pub HasOddOptions : Option B → ℕ → Type 0
  HasOddOptions body now =
      (bytes : B) × (obj : Members D) × (features : RequestFeatures) × (body ≡ some bytes)
      × (out.json.from_text bytes ≡ some (object obj))
      × (features_of (object obj) now state.route_hists state.token_counter ≡ ok features)
      × (features.streaming ≡ true)
      × IsOdd obj

  odd_panics :
      (body : Option B) (now : ℕ)
      → HasOddOptions body now
      → begin out state rng parts body now ≡ none
  unfolding begin build_features
  odd_panics body now (bytes, obj, features, eb, et, ef, streams, odd) =
      rw (eb, begin)
        (rw (et, ef) (rw (streams, (ensure_panics_iff out.json bytes obj et).1 odd) refl))

  -- Where asking for usage panics, the body is odd.
  odd_of :
      (v : Value D) (bytes : B) (features : RequestFeatures) (now : ℕ)
      → out.json.from_text bytes ≡ some v
      → features_of v now state.route_hists state.token_counter ≡ ok features
      → ensure_usage_requested out.json bytes features.streaming ≡ none
      → HasOddOptions (some bytes) now
  unfolding ensure_usage_requested
  odd_of v bytes features now ev ef n = elim (Bool-cases features.streaming) [
    | inr still ↦ absurd (none-ne-some {a = bytes} (sym n ∙ rw still refl))
    | inl streams ↦ elim (object_cases v) [
      | inl (obj, eo) ↦
          let et = ev ∙ ap some eo in
          (
            bytes,
            obj,
            features,
            refl,
            et,
            subst (λ u. features_of u now state.route_hists state.token_counter ≡ ok features) eo
                ef,
            streams,
            (ensure_panics_iff out.json bytes obj et).0 (rw streams at n),
          )
      | inr other ↦ absurd (none-ne-some {a = bytes} (sym n ∙ rw (streams, ev) (rw other refl)))
    ]
  ]

  module _ (fair : IsFair R) (wired : IsWired state.snapshot) where
    choose_total :
        (bytes : B) (features : RequestFeatures) (now : ℕ)
        → (begun : RouterState D S × Begun B × List (Call D S)) × (choose out state rng parts bytes
              features now
            ≡ some begun)
    unfolding choose
    choose_total bytes features now = elim (Bool-cases (is_empty state.snapshot.healthy)) [
      | inl t ↦ ((state, rejected 503, []), rw (t, choose) refl)
      | inr n ↦
          let (picked, ep, chosen) =
            route_returns fair state.strategy state.snapshot features rng (some default_trace)
              wired in
          rw (n, choose)
            (bind_total (route state.strategy state.snapshot features rng (some default_trace)) _ ep
              (elim (Option-cases picked.1.chosen) [
                | inl none_there ↦
                    ((record state { strategy = picked.0 }, rejected 503, []), rw none_there refl)
                | inr (id, ei) ↦
                    let (b, eb) =
                      get_elem?-lt state.snapshot.backends id
                        (All-Elem _ id state.snapshot.healthy wired (chosen id ei)) in
                    rw ei (bind_total (get_elem? state.snapshot.backends id) _ eb (_, refl))
              ]))
    ]

    -- A request begins, or it is the one that panics.
    pub begin_cases :
        (body : Option B) (now : ℕ)
        → ((begun : RouterState D S × Begun B × List (Call D S)) × (begin out state rng parts body
                now
              ≡ some begun))
          ⊎ HasOddOptions body now
    unfolding begin build_features ensure_usage_requested
    begin_cases none now = inl ((state, rejected 413, []), refl)
    begin_cases (some bytes) now = elim (Option-cases (out.json.from_text bytes)) [
      | inl n ↦ inl ((state, rejected 400, []), rw (n, begin) refl)
      | inr (v, ev) ↦
          elim (Result-cases (features_of v now state.route_hists state.token_counter)) [
            | inl (x, ex) ↦ inl ((state, rejected 400, []), rw (ev, begin) (rw ex refl))
            | inr (features, ef) ↦
                elim (Option-cases (ensure_usage_requested out.json bytes features.streaming)) [
                  | inl n ↦ inr (odd_of v bytes features now ev ef n)
                  | inr (asked, ea) ↦
                      let (begun, eb) = choose_total asked features now in
                      inl (begun, rw (ev, begin) (rw ef (rw ea eb)))
                ]
          ]
    ]

    finish_total :
        (state' : RouterState D S) (begun : Begun B) (log : List (Call D S))
        → Begins state.snapshot.backends state' begun
        → (h : Handled D S) × (finish out state' begun log ≡ some h)
    unfolding finish open_lease
    finish_total state' (rejected status) log begins = (_, refl)
    finish_total state' (dispatching p) log (o, leased, stored) =
        bind_total (get_elem? state'.snapshot.backends p.lease.backend) _
          (ap (λ bs. get_elem? bs p.lease.backend) stored
            ∙ ap (λ l. get_elem? (set state.snapshot.backends o.id (lease_of o).1) l.backend) leased
            ∙ get-set_same state.snapshot.backends o.id (lease_of o).1 o.backend o.found)
          (_, refl)

    -- With `as u32` that gives words, and a generator that draws what it is given, on a snapshot whose
    -- healthy ids are positions of its backends, with any strategy and any counters: the handler panics
    -- exactly on the body of a streaming request that is well formed but for a `stream_options` which is
    -- there and is no object. Every other body, too long or malformed, gets an answer.
    pub handle_panics_iff :
        (rounds : IsRounding D) (body : Option B) (now : ℕ)
        → (handle out state rng parts body now ≡ none) ↔ HasOddOptions body now
    unfolding handle handle_inner
    handle_panics_iff rounds body now = (
      λ n. elim (begin_cases body now) [
        | inr odd ↦ odd
        | inl (begun, eb) ↦
            let begins = begin-Begins out state rng parts rounds body now begun eb in
            let (h, eh) = finish_total begun.0 begun.1 begun.2 begins in
            absurd (none-ne-some {a = respond h} (sym n ∙ rw eb (rw eh refl)))
      ],
      λ odd. rw (odd_panics body now odd) refl,
    )
