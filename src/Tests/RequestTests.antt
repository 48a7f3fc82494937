-- ===== src/Tests/RequestTests.antt =====
-- Requests, their JSON and what is sent of them: crates/router-proxy/src/inbound.rs and upstream.rs.
use keel_llm_router.Base.{
  ◌<◌, ◌≡◌, ◌⊎◌, refl, Bool, true, false, Option, none, some, [], ◌∷◌, String, ok,
}
use keel_llm_router.Base.Word.{u32_mod}
use keel_llm_router.Features.{RequestFeatures}
use keel_llm_router.Float.Milli.{Milli, fin, milli_float}
use keel_llm_router.Inbound.{
  count_messages, count_prompt_tokens, features_of, ask_usage, ensure_usage_requested,
  already_decided,
}
use keel_llm_router.Inbound.Features.{features_charged}
use keel_llm_router.Inbound.Usage.{Asks, ensure_panics_iff, ensure_decided}
use keel_llm_router.Json.{
  Value, null, bool, Values, no_values, a_value, Members, no_members, a_member, text, array, object,
  Json, code_points,
}
use keel_llm_router.LengthEstimator.{estimate, lookup, prompt_bucket, route_key}
use keel_llm_router.Tokens.{TokenCounter, whitespace, is_blank, words, count, is_exact}
use keel_llm_router.Upstream.Request.{Parts, Outgoing, trim_slashes, rebuild_request}
use keel_llm_router.Tests.{front_rng}
use keel_llm_router.Tests.StreamTests.{milli_decay, milli-IsRounding, hists}

abbrev pub counter : TokenCounter Milli
counter = record { kind = whitespace; chars_per_token = fin 4000 }

abbrev messages : Values Milli
messages =
    a_value (object (a_member "content" (text "hello world") no_members))
      (a_value (object (a_member "content" (text "again") no_members)) no_values)

abbrev pub members : Members Milli
members =
    a_member "model" (text "m")
      (a_member "messages" (array messages) (a_member "stream" (bool true) no_members))

-- JSON that is its own text.
abbrev pub plain : Json Milli (Value Milli)
plain = record { from_text = λ v. some v; to_text = λ v. some v }

-- `"stream_options": null` panics.
abbrev pub odd : Members Milli
odd = a_member "stream_options" null members

null_panics : ensure_usage_requested plain (object odd) true ≡ none
null_panics = (ensure_panics_iff plain (object odd) odd refl).1 (null, refl, refl)

abbrev asked : Members Milli
asked = a_member "model" (text "m") (
    a_member "messages" (array messages) (
      a_member "stream" (bool true) (
        a_member "stream_options" (object (a_member "include_usage" (bool true) no_members))
          no_members)))

asks_usage : ensure_usage_requested plain (object members) true ≡ some (object asked)
unfolding ensure_usage_requested ask_usage
asks_usage = refl

ensure_decided_example :
    (already_decided members ≡ true → object asked ≡ object members)
    × (already_decided members ≡ false
        → (sent : Members Milli) × Asks members sent
          × ((Option.some (object sent) ≡ some (object asked))
              ⊎ ((Option.some (object sent) ≡ none) × (object asked ≡ object members))))
ensure_decided_example =
    ensure_decided plain (object members) members (object asked) refl asks_usage

abbrev pub features : RequestFeatures
features = record {
  model = "m";
  prompt_tokens = 3;
  prompt_tokens_exact = true;
  expected_output_tokens = 128;
  max_tokens = none;
  prefix_key = none;
  streaming = true;
  arrived_at = 9;
}

pub reads_features : features_of (object members) 9 hists counter ≡ ok features
unfolding features_of count_prompt_tokens count_messages code_points count is_blank words estimate
    lookup route_key prompt_bucket is_exact
reads_features = refl

pub odd_features : features_of (object odd) 9 hists counter ≡ ok features
unfolding features_of count_prompt_tokens count_messages code_points count is_blank words estimate
    lookup route_key prompt_bucket is_exact
odd_features = refl

features_charged_example :
    (0 < 3)
    × (3 < u32_mod)
    × (0 < 128)
    × (128 < u32_mod)
    × (128 ≡ estimate hists (route_key "m" 3) none)
features_charged_example =
    features_charged milli-IsRounding (object members) 9 hists counter features reads_features

abbrev pub parts : Parts
parts = record {
  http_method = "POST";
  path_and_query = some "/v1/chat/completions";
  headers = ("host", "me") ∷ ("accept", "*") ∷ ("content-length", "7") ∷ [];
}

abbrev sent : Outgoing (Value Milli)
sent = record {
  http_method = "POST";
  uri = "http://x/v1/chat/completions";
  headers = ("accept", "*") ∷ [];
  body = object members;
}

abbrev pub any_uri : String → Bool
any_uri s = true

rebuilds : rebuild_request any_uri parts (object members) "http://x/" ≡ ok sent
unfolding rebuild_request trim_slashes
rebuilds = refl
