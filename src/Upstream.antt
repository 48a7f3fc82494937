-- ===== src/Upstream.antt =====
-- crates/router-proxy/src/upstream.rs: `CountingSseBody`, which relays the stream of a backend, counts
-- its tokens on the lease and releases the lease when it is dropped.
pub mod Chunks
pub mod Counts
pub mod Request
pub mod Seen
pub mod Polls
pub mod Outcome
pub mod Frames
pub mod Quiet
use keel_llm_router.Base.{
  ℕ, zero, suc, ◌+◌, ◌≤◌, Bool, true, false, not, ◌&&◌, ◌||◌, Option, none, some, List, [], ◌∷◌,
  ◌++◌, String, ltb, leb, ◌==◌, if◌then◌else◌, ◌>>=◌,
}
use keel_llm_router.Base.Word.{add_u32}
use keel_llm_router.Backend.{Backend}
use keel_llm_router.Features.{RouteKey}
use keel_llm_router.Float.{Float}
use keel_llm_router.Json.{Json, unwrap_or}
use keel_llm_router.Lease.{CostLease, observe_tokens, drop_lease}
use keel_llm_router.LengthEstimator.{Decay, RouteHistograms, observe}
use keel_llm_router.Observe.{
  Call, request_result, backend_error, prompt_token_ratio, output_length_ratio,
}
use keel_llm_router.Sse.{
  Frame, role_header, content, empty_content, usage, error, done, trim, parse_line, classify,
}
use keel_llm_router.Sse.Utf8.{from_utf8}

pub record CountingSseBody : Type 0 where
  pub lease : CostLease
  pub backend_key : String
  pub line_buf : List ℕ
  pub content_tokens : ℕ
  pub estimated_output_tokens : ℕ
  pub dispatched_at : ℕ
  pub first_token_at : Option ℕ
  pub saw_done_or_error : Bool
  pub upstream_status : ℕ
  pub saw_error_frame : Bool
  pub route : RouteKey
  pub estimated_prompt_tokens : ℕ

pub record BodyParams : Type 0 where
  pub lease : CostLease
  pub backend_key : String
  pub estimated_output_tokens : ℕ
  pub dispatched_at : ℕ
  pub upstream_status : ℕ
  pub route : RouteKey
  pub estimated_prompt_tokens : ℕ

unfoldable pub new : BodyParams → CountingSseBody
new p = record {
  lease = p.lease;
  backend_key = p.backend_key;
  line_buf = [];
  content_tokens = 0;
  estimated_output_tokens = p.estimated_output_tokens;
  dispatched_at = p.dispatched_at;
  first_token_at = none;
  saw_done_or_error = false;
  upstream_status = p.upstream_status;
  saw_error_frame = false;
  route = p.route;
  estimated_prompt_tokens = p.estimated_prompt_tokens;
}

-- The body with what it shares: the backend of its lease, the histograms, and the log of calls so far,
-- the last one first.
pub record Relay (D S : Type 0) : Type 0 where
  pub body : CountingSseBody
  pub backend : Backend S
  pub route_hists : RouteHistograms D
  pub observed : List (Call D S)

-- The clock: an `Instant`, and the seconds since the histograms were made.
pub record Clock (D : Type 0) : Type 0 where
  pub instant : ℕ
  pub seconds : D

-- `str::strip_prefix`
abbrev pub strip_prefix : List ℕ → List ℕ → Option (List ℕ)
strip_prefix [] cs = some cs
strip_prefix (p ∷ ps) [] = none
strip_prefix (p ∷ ps) (c ∷ cs) = let rest = strip_prefix ps cs in if p == c then rest else none

-- "data:"
abbrev pub data_prefix : List ℕ
data_prefix = 100 ∷ 97 ∷ 116 ∷ 97 ∷ 58 ∷ []

-- The frame that a line of the stream holds.
unfoldable pub line_frame : {D : Type 0} → Json D (List ℕ) → List ℕ → Option Frame
line_frame j line =
    let trimmed = trim line in
    parse_line j (trim (unwrap_or (strip_prefix data_prefix trimmed) trimmed)) >>= λ parsed.
    classify parsed

module _ {D S : Type 0} ⦃f : Float D⦄ ⦃d : Decay D⦄ where
  -- `Frame::Content`
  unfoldable pub on_content : Clock D → Relay D S → Relay D S
  on_content clock r =
      let body = r.body in
      let seen = observe_tokens body.lease r.backend 1 in
      let first : Option ℕ = elim body.first_token_at [
        | none ↦ some clock.instant
        | some t ↦ some t
      ] in
      record r {
        body = record body {
          content_tokens = add_u32 body.content_tokens 1;
          lease = seen.0;
          first_token_at = first;
        };
        backend = seen.1;
      }

  -- `Frame::Usage`
  unfoldable pub on_usage : Clock D → ℕ → ℕ → Relay D S → Relay D S
  on_usage clock prompt_tokens completion_tokens r =
      let body = r.body in
      record r {
        observed =
            output_length_ratio body.estimated_output_tokens completion_tokens
            ∷ prompt_token_ratio body.estimated_prompt_tokens prompt_tokens
            ∷ r.observed;
        route_hists =
            if ltb 0 completion_tokens
            then observe r.route_hists body.route completion_tokens clock.seconds
            else r.route_hists;
      }

  unfoldable pub on_frame : Clock D → Frame → Relay D S → Relay D S
  unfolding on_content on_usage
  on_frame clock (content t) r = on_content clock r
  on_frame clock (usage p c) r = on_usage clock p c r
  on_frame clock (error m) r = record r {
    body = record r.body { saw_error_frame = true; saw_done_or_error = true };
  }
  on_frame clock done r = record r { body = record r.body { saw_done_or_error = true } }
  on_frame clock role_header r = r
  on_frame clock empty_content r = r

  -- One line of the stream, its end included.
  unfoldable pub on_line : Json D (List ℕ) → Clock D → List ℕ → Relay D S → Relay D S
  unfolding on_frame
  on_line j clock line r = elim (line_frame j line) [
    | none ↦ r
    | some frame ↦ on_frame clock frame r
  ]

  -- The loop that finds and drains lines. `scanned` is what of the buffer was found to hold no newline;
  -- the result has what is left of the buffer.
  unfoldable pub drain_lines :
      Json D (List ℕ) → Clock D → List ℕ → List ℕ → Relay D S → List ℕ × Relay D S
  unfolding on_line
  drain_lines j clock scanned [] r = (scanned, r)
  drain_lines j clock scanned (c ∷ buf) r =
      let line = scanned ++ c ∷ [] in
      drain_lines j clock (if c == 10 then [] else line) buf
        (if c == 10 then on_line j clock line r else r)

  unfoldable pub on_text : Json D (List ℕ) → Clock D → List ℕ → Relay D S → Relay D S
  unfolding drain_lines
  on_text j clock text r =
      let drained = drain_lines j clock [] (r.body.line_buf ++ text) r in
      record drained.1 { body = record drained.1.body { line_buf = drained.0 } }

  -- A chunk of the stream, which is handed on unchanged.
  unfoldable pub on_data : Json D (List ℕ) → Clock D → List ℕ → Relay D S → Relay D S
  unfolding on_text
  on_data j clock data_bytes r = elim (from_utf8 data_bytes) [
    | none ↦ r
    | some text ↦ on_text j clock text r
  ]

-- What the inner body brings when it is polled, which is also what the body answers: `E` is its error.
pub data BodyFrame : Type 0 where
  bytes : List ℕ → BodyFrame
  trailers : List (String × String) → BodyFrame

pub data Poll (E : Type 0) : Type 0 where
  pending : Poll E
  ended : Poll E
  failed : E → Poll E
  ready : BodyFrame → Poll E

unfoldable pub poll_frame :
    {D S E : Type 0} ⦃f : Float D⦄ ⦃d : Decay D⦄
    → Json D (List ℕ)
    → Clock D
    → Poll E
    → Relay D S
    → Relay D S × Poll E
unfolding on_data
poll_frame j clock (ready (bytes b)) r = (on_data j clock b r, ready (bytes b))
poll_frame j clock (ready (trailers h)) r = (r, ready (trailers h))
poll_frame j clock other r = (r, other)

-- `StatusCode::is_success`
abbrev pub is_success : ℕ → Bool
is_success status = leb 200 status && ltb status 300

-- `PinnedDrop::drop`, after which the fields are dropped, the lease with them.
unfoldable pub drop_body : {D S : Type 0} → Relay D S → Backend S × List (Call D S)
drop_body r =
    let body = r.body in
    let failed = body.saw_error_frame || not (is_success body.upstream_status) in
    let kind = if body.saw_error_frame then "in_band_error" else "http_status" in
    (
      drop_lease body.lease r.backend,
      request_result (not failed)
          ∷ (if failed then backend_error body.backend_key kind ∷ r.observed else r.observed),
    )
