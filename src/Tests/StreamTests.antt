-- ===== src/Tests/StreamTests.antt =====
-- Streams of a backend, in chunks: crates/router-proxy/src/upstream.rs and sse.rs.
use keel_llm_router.Base.{
  Bool, false, ℕ, ◌+◌, ◌%◌, not, ◌&&◌, ◌/◌, ◌^◌, ◌≤◌, ◌<◌, ◌≡◌, ◌≢◌, refl, true, Option, none, some,
  List, [], ◌∷◌, ◌++◌, arith, ltb, ◌==◌, if◌then◌else◌,
}
use keel_llm_router.Base.Word.{u32_mod, u32_max}
use keel_llm_router.Cost.{prompt_plus_output}
use keel_llm_router.Features.{RouteKey}
use keel_llm_router.Float.Milli.{Milli, nan, fin, inf, milli_float}
use keel_llm_router.Json.{
  Value, no_values, a_value, no_members, a_member, text, array, object, Json,
}
use keel_llm_router.Lease.{open_lease}
use keel_llm_router.LengthEstimator.{
  Decay, RouteHistograms, lookup, estimate, observe, prompt_bucket,
}
use keel_llm_router.LengthEstimator.Histograms.{IsRounding, estimate-observe}
use keel_llm_router.LengthEstimator.Bucket.{prompt_bucket_bounds}
use keel_llm_router.Sse.{parse_line, classify, classify_choice}
use keel_llm_router.Sse.Utf8.{from_utf8, decode}
use keel_llm_router.Upstream.{
  Poll, pending, failed, ready, bytes, trailers, BodyParams, Relay, Clock, new, on_data, on_text,
  drain_lines, on_line, on_frame, on_content, line_frame, drop_body,
}
use keel_llm_router.Upstream.Chunks.{on_data-append}
use keel_llm_router.Upstream.Counts.{on_stream, opened, stream_gives_back}
use keel_llm_router.Upstream.Frames.{contents, has_error}
use keel_llm_router.Upstream.Polls.{poll_all, brought}
use keel_llm_router.Upstream.Outcome.{frames_in, verdict, stream_outcome}
use keel_llm_router.Tests.{backend_at}

-- A decay at the resolution of the tests: nothing fades at once, all else is not a number.
instance abbrev pub milli_decay : Decay Milli
milli_decay = record {
  neg = λ x. x;
  exp = elim [ nan ↦ nan | fin n ↦ if n == 0 then fin 1000 else nan | inf ↦ nan ];
  ln_2 = fin 693;
  round_u32 = elim [
    | nan ↦ 0
    | fin n ↦ if ltb ((n + 500) / 1000) u32_mod then (n + 500) / 1000 else u32_max
    | inf ↦ u32_max
  ];
}

pub milli-IsRounding : IsRounding Milli
milli-IsRounding = record {
  round_fits = elim [ nan ↦ omega arith | fin n ↦ ground arith | inf ↦ omega arith ];
  round_of_ℕ = λ n h. ground arith;
}

abbrev key : RouteKey
key = record { model = "m"; bucket = 64 }

abbrev pub hists : RouteHistograms Milli
hists = record { halflife_s = fin 300_000; inner = [] }

estimate-observe_example :
    (lookup hists.inner key ≡ none → estimate (observe hists key 42 (fin 0)) key none ≡ 42)
    × ((other : RouteKey) (max_tokens : Option ℕ)
        → key ≢ other
        → estimate (observe hists key 42 (fin 0)) other max_tokens
          ≡ estimate hists other max_tokens)
estimate-observe_example = estimate-observe milli-IsRounding hists key 42 (fin 0) (omega arith)

prompt_bucket_bounds_example :
    (j : ℕ) × (prompt_bucket 100 ≡ 2 ^ j)
    × (prompt_bucket 100 ≤ 100)
    × (prompt_bucket 100 ≤ 4096)
    × (prompt_bucket 100 < 4096 → 100 < prompt_bucket 100 + prompt_bucket 100)
prompt_bucket_bounds_example = prompt_bucket_bounds 100 (omega arith) (omega arith)

-- A reader of lines that knows one content frame, written "c".
abbrev content_value : Value Milli
content_value = object (
    a_member "choices"
      (array (
        a_value
          (object
            (a_member "delta" (object (a_member "content" (text "hi") no_members)) no_members))
          no_values))
      no_members)

abbrev pub reader : Json Milli (List ℕ)
reader = record {
  from_text = elim [ [] ↦ none | c ∷ cs ↦ if c == 99 then some content_value else none ];
  to_text = λ v. none;
}

abbrev pub params : BodyParams
params = record {
  lease = record {
    backend = 0;
    charged = 0;
    kv_model = prompt_plus_output;
    prompt_tokens = 0;
    o_hat = 0;
    tokens_seen = 0;
    dispatched_at = 0;
    released = true;
  };
  backend_key = "b";
  estimated_output_tokens = 1;
  dispatched_at = 0;
  upstream_status = 200;
  route = key;
  estimated_prompt_tokens = 10;
}

abbrev pub clock : Clock Milli
clock = record { instant = 5; seconds = fin 5000 }

abbrev start : Relay Milli Milli
start = opened (backend_at 0 0 0) hists params 0 10 1 prompt_plus_output 0

-- "data:c", a newline, and the beginning of the next line.
abbrev pub chunk : List ℕ
chunk = 100 ∷ 97 ∷ 116 ∷ 97 ∷ 58 ∷ 99 ∷ 10 ∷ 100 ∷ []

abbrev chunk' : List ℕ
chunk' = 97 ∷ 116 ∷ 97 ∷ 58 ∷ 99 ∷ 10 ∷ []

on_data-append_example :
    on_data reader clock (chunk ++ chunk') start
    ≡ on_data reader clock chunk' (on_data reader clock chunk start)
unfolding from_utf8 decode
on_data-append_example = on_data-append reader clock chunk chunk' chunk chunk' start refl refl

abbrev pub stream : List (Clock Milli × List ℕ)
stream = (clock, chunk) ∷ (clock, chunk') ∷ []

stream_gives_back_example :
    let r = on_stream reader stream start in
    let b' = (drop_body r).0 in
    (r.body.lease.tokens_seen ≡ r.body.content_tokens)
    × (b'.live.inflight ≡ 0)
    × (b'.live.kv_projected_tokens ≡ 0)
stream_gives_back_example =
    stream_gives_back reader (backend_at 0 0 0) hists params 0 10 1 prompt_plus_output 0 stream
      (omega arith) (omega arith) (omega arith) (omega arith)

-- The stream with a wait before it, a chunk that is not UTF-8 in it, and trailers and an error after it.
abbrev polls : List (Clock Milli × Poll Bool)
polls =
    (clock, pending)
    ∷ (clock, ready (bytes chunk))
    ∷ (clock, ready (bytes (chunk ++ 195 ∷ [])))
    ∷ (clock, ready (bytes chunk'))
    ∷ (clock, ready (trailers []))
    ∷ (clock, failed false)
    ∷ []

stream_outcome_example :
    let (r, answered) = poll_all reader polls start in
    let fs = frames_in reader (chunk ++ chunk') in
    (answered ≡ brought polls)
    × (r.body.content_tokens ≡ contents fs % u32_mod)
    × (verdict (drop_body r).1 ≡ some (not (has_error fs) && true))
unfolding from_utf8 decode
stream_outcome_example =
    stream_outcome reader (backend_at 0 0 0) hists params 0 10 1 prompt_plus_output 0 polls

-- A chunk that ends inside a character is not counted at all, though it holds a whole content frame.
split_character_is_dropped :
    (on_data reader clock (chunk ++ 195 ∷ []) start).body.content_tokens ≡ 0
unfolding on_data from_utf8 decode opened open_lease new
split_character_is_dropped = refl

whole_chunk_is_counted : (on_data reader clock chunk start).body.content_tokens ≡ 1
unfolding on_data from_utf8 decode on_text drain_lines on_line line_frame parse_line classify
    classify_choice on_frame on_content opened open_lease new
whole_chunk_is_counted = refl
