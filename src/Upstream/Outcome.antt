-- ===== src/Upstream/Outcome.antt =====
-- What a stream is counted as, from its text alone.
use mathlib.Core.List.{append_assoc, append-nil}
use mathlib.Core.Path.{subst}
use keel_llm_router.Base.{
  ℕ, ◌%◌, ◌≡◌, refl, sym, ap, ◌∙◌, Bool, not, ◌&&◌, ◌||◌, Option, none, some, List, [], ◌∷◌, ◌++◌,
  arith,
}
use keel_llm_router.Base.Word.{u32_mod}
use keel_llm_router.Backend.{Backend}
use keel_llm_router.Cost.{KvModel}
use keel_llm_router.Float.{Float}
use keel_llm_router.Json.{Json, unwrap_or}
use keel_llm_router.LengthEstimator.{Decay, RouteHistograms}
use keel_llm_router.Observe.{Call, request_result}
use keel_llm_router.Sse.{Frame}
use keel_llm_router.Sse.Utf8.{from_utf8}
use keel_llm_router.Upstream.{
  BodyParams, Relay, Clock, new, drain_lines, on_text, on_data, is_success, drop_body, Poll,
}
use keel_llm_router.Upstream.Chunks.{drain-IsLine}
use keel_llm_router.Upstream.Counts.{on_stream, opened}
use keel_llm_router.Upstream.Polls.{poll_all, chunks_of, brought, polls-stream}
use keel_llm_router.Upstream.Frames.{
  split_lines, frames_of, contents, has_error, split_lines-append, split_lines-IsLine,
  frames_of-append, contents-append, has_error-append, Tallies, drain-Tallies,
}

-- The text of a stream: that of its chunks in order. A chunk that is not well-formed UTF-8 is left out.
abbrev pub text_of : {D : Type 0} → List (Clock D × List ℕ) → List ℕ
text_of [] = []
text_of (c ∷ cs) = unwrap_or (from_utf8 c.1) [] ++ text_of cs

-- The last thing that a log says of a request.
abbrev pub verdict : {D S : Type 0} → List (Call D S) → Option Bool
verdict (request_result b ∷ log) = some b
verdict log = none

-- The frames in the lines of the text that have ended.
abbrev pub frames_in : {D : Type 0} → Json D (List ℕ) → List ℕ → List Frame
frames_in j text = frames_of j (split_lines [] text).0

-- More text, more frames: those of the lines that end in it.
frames_in-append :
    {D : Type 0} (j : Json D (List ℕ)) (text us : List ℕ)
    → frames_in j (text ++ us)
      ≡ frames_in j text ++ frames_of j (split_lines (split_lines [] text).1 us).0
frames_in-append j text us =
    ap (λ p. frames_of j p.0) (split_lines-append [] text us)
    ∙ frames_of-append j (split_lines [] text).0 (split_lines (split_lines [] text).1 us).0

de_morgan : (a b : Bool) → Option.some (not (a || not b)) ≡ some (not a && b)
de_morgan a b = ground arith

module _ {D S : Type 0} ⦃f : Float D⦄ ⦃d : Decay D⦄ (j : Json D (List ℕ)) (status : ℕ) where
  -- The body has read the text: what is left of it is in the buffer, and the rest is counted.
  abbrev HasRead : List ℕ → Relay D S → Type 0
  HasRead text r =
      (r.body.line_buf ≡ (split_lines [] text).1)
      × Tallies j (contents (frames_in j text)) (has_error (frames_in j text)) status r

  on_text-HasRead :
      (clock : Clock D) (text us : List ℕ) (r : Relay D S)
      → HasRead text r
      → HasRead (text ++ us) (on_text j clock us r)
  unfolding on_text
  on_text-HasRead clock text us r (left, tallied) =
      let rest = (split_lines [] text).1 in
      let fs = frames_in j text in
      let more = frames_of j (split_lines rest us).0 in
      let drained : drain_lines j clock [] (r.body.line_buf ++ us) r
          ≡ drain_lines j clock rest us r =
        ap (λ k. drain_lines j clock [] (k ++ us) r) left
        ∙ drain-IsLine j clock [] rest us r (split_lines-IsLine [] text tt) in
      let (buffer, (counted, erred, kept)) =
        drain-Tallies j clock status rest us (contents fs) (has_error fs) r tallied in
      (
        ap (λ p. p.0) drained ∙ buffer ∙ ap (λ p. p.1) (sym (split_lines-append [] text us)),
        (
          ap (λ p. p.1.body.content_tokens) drained
              ∙ counted
              ∙ ap (λ k. k % u32_mod)
                  (sym (ap contents (frames_in-append j text us) ∙ contents-append fs more)),
          ap (λ p. p.1.body.saw_error_frame) drained
              ∙ erred
              ∙ sym (ap has_error (frames_in-append j text us) ∙ has_error-append fs more),
          ap (λ p. p.1.body.upstream_status) drained ∙ kept,
        ),
      )

  data-HasRead :
      (clock : Clock D) (chunk before : List ℕ) (r : Relay D S)
      → HasRead before r
      → HasRead (before ++ unwrap_or (from_utf8 chunk) []) (on_data j clock chunk r)
  unfolding on_data
  data-HasRead clock chunk before r h =
      elim (from_utf8 chunk)
        as (λ m.
          HasRead (before ++ unwrap_or m [])
            (elim m as (λ x. Relay D S) [ none ↦ r | some us ↦ on_text j clock us r ])) [
              | none ↦ subst (λ k. HasRead k r) (sym (append-nil before)) h
              | some us ↦ on_text-HasRead clock before us r h
            ]

  stream-HasRead :
      (chunks : List (Clock D × List ℕ)) (before : List ℕ) (r : Relay D S)
      → HasRead before r
      → HasRead (before ++ text_of chunks) (on_stream j chunks r)
  unfolding on_stream
  stream-HasRead [] before r h = subst (λ k. HasRead k r) (sym (append-nil before)) h
  stream-HasRead (c ∷ cs) before r h =
      subst (λ k. HasRead k (on_stream j cs (on_data j c.0 c.1 r)))
        (append_assoc before (unwrap_or (from_utf8 c.1) []) (text_of cs))
        (stream-HasRead cs (before ++ unwrap_or (from_utf8 c.1) []) (on_data j c.0 c.1 r)
          (data-HasRead c.0 c.1 before r h))

drop-verdict :
    {D S : Type 0} (r : Relay D S)
    → verdict (drop_body r).1
      ≡ some (not (r.body.saw_error_frame || not (is_success r.body.upstream_status)))
unfolding drop_body
drop-verdict r = refl

chunks_outcome :
    {D S : Type 0} ⦃f : Float D⦄ ⦃d : Decay D⦄ (j : Json D (List ℕ)) (b : Backend S)
    (hists : RouteHistograms D) (params : BodyParams) (p prompt o_hat : ℕ) (m : KvModel) (now : ℕ)
    (chunks : List (Clock D × List ℕ))
    → let r = on_stream j chunks (opened b hists params p prompt o_hat m now) in
      let fs = frames_in j (text_of chunks) in
      (r.body.content_tokens ≡ contents fs % u32_mod)
      × (verdict (drop_body r).1 ≡ some (not (has_error fs) && is_success params.upstream_status))
unfolding opened new
chunks_outcome j b hists params p prompt o_hat m now chunks =
    let start = opened b hists params p prompt o_hat m now in
    let (_, (counted, erred, kept)) =
      stream-HasRead j params.upstream_status chunks [] start (refl, (refl, refl, refl)) in
    (
      counted,
      drop-verdict (on_stream j chunks start)
          ∙ ap
              (λ x.
                some (not (x || not (is_success (on_stream j chunks start).body.upstream_status))))
              erred
          ∙ ap (λ x. some (not (has_error (frames_in j (text_of chunks)) || not (is_success x))))
              kept
          ∙ de_morgan (has_error (frames_in j (text_of chunks)))
              (is_success params.upstream_status),
    )

-- Whatever the body of an answer brings when it is polled, data, trailers, an error or nothing yet, is
-- handed on unchanged and in order. And however its data is cut into chunks, with the text of the stream
-- that of the chunks which are well-formed UTF-8 by themselves, one after the other, and the other chunks
-- left out of it: the body counts as many tokens, modulo its word, as there are content frames in the lines
-- of the text that have ended; and when it is dropped the request is reported as done well exactly if none
-- of those lines is an error frame and the status of the answer is a success.
pub stream_outcome :
    {D S E : Type 0} ⦃f : Float D⦄ ⦃d : Decay D⦄ (j : Json D (List ℕ)) (b : Backend S)
    (hists : RouteHistograms D) (params : BodyParams) (p prompt o_hat : ℕ) (m : KvModel) (now : ℕ)
    (polls : List (Clock D × Poll E))
    → let (r, answered) = poll_all j polls (opened b hists params p prompt o_hat m now) in
      let fs = frames_in j (text_of (chunks_of polls)) in
      (answered ≡ brought polls)
      × (r.body.content_tokens ≡ contents fs % u32_mod)
      × (verdict (drop_body r).1 ≡ some (not (has_error fs) && is_success params.upstream_status))
stream_outcome j b hists params p prompt o_hat m now polls =
    let (same, told) = polls-stream j polls (opened b hists params p prompt o_hat m now) in
    let (counted, judged) =
      chunks_outcome j b hists params p prompt o_hat m now (chunks_of polls) in
    (
      told,
      ap (λ r. r.body.content_tokens) same ∙ counted,
      ap (λ r. verdict (drop_body r).1) same ∙ judged,
    )
