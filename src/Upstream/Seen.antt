-- ===== src/Upstream/Seen.antt =====
-- To its lease, a chunk of the stream is a number of tokens, seen one by one.
use keel_llm_router.Base.{
  ℕ, suc, ◌≡◌, ap, Bool, true, false, List, [], ◌∷◌, ◌++◌, ◌==◌, if◌then◌else◌, inl, inr,
  Option-cases,
}
use keel_llm_router.Backend.{Backend}
use keel_llm_router.Float.{Float}
use keel_llm_router.Json.{Json}
use keel_llm_router.Lease.{CostLease, observe_tokens}
use keel_llm_router.Lease.Ledger.Runs.{observe_times}
use keel_llm_router.LengthEstimator.{Decay}
use keel_llm_router.Sse.{Frame, role_header, content, empty_content, usage, error, done}
use keel_llm_router.Sse.Utf8.{from_utf8}
use keel_llm_router.Upstream.{
  Relay, Clock, on_content, on_usage, on_frame, line_frame, on_line, drain_lines, on_text, on_data,
}

module _ {D S : Type 0} ⦃f : Float D⦄ ⦃d : Decay D⦄ (j : Json D (List ℕ)) (clock : Clock D)
    (start : CostLease × Backend S) where
  -- The lease and the backend are those of the start, some tokens later.
  abbrev pub HasSeen : Relay D S → Type 0
  HasSeen r = (n : ℕ) × ((r.body.lease, r.backend) ≡ observe_times n start)

  on_frame-HasSeen : (frame : Frame) (r : Relay D S) → HasSeen r → HasSeen (on_frame clock frame r)
  unfolding on_frame on_content on_usage
  on_frame-HasSeen role_header r h = h
  on_frame-HasSeen (content t) r (n, e) = (suc n, ap (λ p. observe_tokens p.0 p.1 1) e)
  on_frame-HasSeen empty_content r h = h
  on_frame-HasSeen (usage p c) r h = h
  on_frame-HasSeen (error m) r h = h
  on_frame-HasSeen done r h = h

  on_line-HasSeen : (line : List ℕ) (r : Relay D S) → HasSeen r → HasSeen (on_line j clock line r)
  unfolding on_line
  on_line-HasSeen line r h = elim (Option-cases (line_frame j line)) [
    | inl e ↦ rw (e, on_line) h
    | inr (frame, e) ↦ rw (e, on_line) (on_frame-HasSeen frame r h)
  ]

  line_or :
      (b : Bool) (line : List ℕ) (r : Relay D S)
      → HasSeen r
      → HasSeen (if b then on_line j clock line r else r)
  line_or true line r h = on_line-HasSeen line r h
  line_or false line r h = h

  drain-HasSeen :
      (cur text : List ℕ) (r : Relay D S) → HasSeen r → HasSeen (drain_lines j clock cur text r).1
  unfolding drain_lines
  drain-HasSeen cur [] r h = h
  drain-HasSeen cur (c ∷ text) r h =
      drain-HasSeen (if c == 10 then [] else (cur ++ c ∷ [])) text
        (if c == 10 then on_line j clock (cur ++ c ∷ []) r else r)
        (line_or (c == 10) (cur ++ c ∷ []) r h)

  pub on_data-HasSeen :
      (chunk : List ℕ) (r : Relay D S) → HasSeen r → HasSeen (on_data j clock chunk r)
  unfolding on_data on_text
  on_data-HasSeen chunk r h = elim (Option-cases (from_utf8 chunk)) [
    | inl e ↦ rw (e, on_data) h
    | inr (text, e) ↦ rw (e, on_data) (drain-HasSeen [] (r.body.line_buf ++ text) r h)
  ]
