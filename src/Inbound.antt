-- ===== src/Inbound.antt =====
-- crates/router-proxy/src/inbound.rs: what the router reads of a request, and the request for usage that
-- it adds. `read_body` is I/O; its bytes have the type `B`.
pub mod Usage
pub mod Features
use keel_llm_router.Base.{
  ℕ, ◌+◌, ◌%◌, Bool, true, false, not, Option, none, some, String, ltb, ◌==◌, if◌then◌else◌, ◌>>=◌,
  Result, ok, err,
}
use keel_llm_router.Base.Word.{u32_mod, u32_max}
use keel_llm_router.Float.{Float}
use keel_llm_router.Features.{RequestFeatures}
use keel_llm_router.LengthEstimator.{Decay, RouteHistograms, route_key, estimate}
use keel_llm_router.Tokens.{TokenCounter, count, is_exact}
use keel_llm_router.Json.{
  Value, Values, no_values, a_value, Members, no_members, object, bool, Json, get, get_member,
  insert_member, as_str, as_bool, as_array, as_object, as_u64, unwrap_or, code_points,
}

pub data InboundError : Type 0 where
  body_too_large : InboundError
  bad_request : String → InboundError

abbrev pub saturating_add : ℕ → ℕ → ℕ
saturating_add a b = let s = a + b in if ltb u32_max s then u32_max else s

module _ {D : Type 0} ⦃f : Float D⦄ where
  -- The loop over the messages.
  unfoldable pub count_messages : TokenCounter D → Values D → ℕ → ℕ
  count_messages counter no_values total = total
  count_messages counter (a_value m ms) total =
      count_messages counter ms (elim (get m "content" >>= λ c. as_str c) [
        | some c ↦ saturating_add total (count counter (code_points c))
        | none ↦ total
      ])

  unfoldable pub count_prompt_tokens : Value D → TokenCounter D → ℕ
  unfolding count_messages
  count_prompt_tokens v counter = elim (get v "messages" >>= λ m. as_array m) [
    | some messages ↦ count_messages counter messages 0
    | none ↦ elim (get v "prompt" >>= λ p. as_str p) [
      | some prompt ↦ count counter (code_points prompt)
      | none ↦ 0
    ]
  ]

  module _ ⦃d : Decay D⦄ where
    -- The features of a request that was parsed.
    unfoldable pub features_of :
        Value D → ℕ → RouteHistograms D → TokenCounter D → Result InboundError RequestFeatures
    unfolding count_prompt_tokens
    features_of v now hists counter = elim (get v "model" >>= λ m. as_str m) [
      | none ↦ err (bad_request "missing model")
      | some model ↦
          let prompt_tokens = count_prompt_tokens v counter in
          if prompt_tokens == 0
          then err (bad_request "empty prompt")
          else let max_tokens = (do m ← get v "max_tokens"; n ← as_u64 m; some (n % u32_mod)) in
            let streaming = unwrap_or (get v "stream" >>= λ s. as_bool s) false in
            let route = route_key model prompt_tokens in
            ok (record {
              model = model;
              prompt_tokens = prompt_tokens;
              prompt_tokens_exact = is_exact counter;
              expected_output_tokens = estimate hists route max_tokens;
              max_tokens = max_tokens;
              prefix_key = none;
              streaming = streaming;
              arrived_at = now;
            })
    ]

    unfoldable pub build_features :
        {B : Type 0}
        → Json D B
        → B
        → ℕ
        → RouteHistograms D
        → TokenCounter D
        → Result InboundError RequestFeatures
    unfolding features_of
    build_features j bytes now hists counter = elim (j.from_text bytes) [
      | none ↦ err (bad_request "malformed")
      | some v ↦ features_of v now hists counter
    ]

-- `obj.get("stream_options").and_then(as_object).is_some_and(contains_key("include_usage"))`
abbrev pub already_decided : {D : Type 0} → Members D → Bool
already_decided obj = elim (get_member obj "stream_options" >>= λ so. as_object so) [
  | none ↦ false
  | some so ↦ elim (get_member so "include_usage") [ none ↦ false | some u ↦ true ]
]

-- The object with the usage asked for; `none` is the panic of `expect`, on a member that is there and
-- is no object.
unfoldable pub ask_usage : {D : Type 0} → Members D → Option (Members D)
ask_usage obj = do
  so ← as_object (unwrap_or (get_member obj "stream_options") (object no_members))
  some (insert_member obj "stream_options" (object (insert_member so "include_usage" (bool true))))

unfoldable pub ensure_usage_requested : {D B : Type 0} → Json D B → B → Bool → Option B
unfolding ask_usage
ensure_usage_requested j bytes streaming =
    if not streaming then some bytes else elim (j.from_text bytes) [
      | none ↦ some bytes
      | some v ↦ elim (as_object v) [
        | none ↦ some bytes
        | some obj ↦
            if already_decided obj
            then some bytes
            else do asked ← ask_usage obj; some (unwrap_or (j.to_text (object asked)) bytes)
      ]
    ]
