-- ===== src/Upstream/Quiet.antt =====
-- No chunk of a stream counts a request as done.
use keel_llm_router.Base.{
  ℕ, ◌≡◌, refl, ◌∙◌, Bool, true, false, List, [], ◌∷◌, ◌++◌, arith, ◌==◌, if◌then◌else◌, inl, inr,
  Option-cases,
}
use keel_llm_router.Float.{Float}
use keel_llm_router.Json.{Json}
use keel_llm_router.LengthEstimator.{Decay}
use keel_llm_router.Observe.Log.{results}
use keel_llm_router.Sse.{Frame, role_header, content, empty_content, usage, error, done}
use keel_llm_router.Sse.Utf8.{from_utf8}
use keel_llm_router.Upstream.{
  Relay, Clock, on_content, on_usage, on_frame, line_frame, on_line, drain_lines, on_text, on_data,
}

module _ {D S : Type 0} ⦃f : Float D⦄ ⦃d : Decay D⦄ (j : Json D (List ℕ)) (clock : Clock D) where
  abbrev told : Relay D S → ℕ
  told r = results r.observed

  on_frame-results : (frame : Frame) (r : Relay D S) → told (on_frame clock frame r) ≡ told r
  unfolding on_frame on_content on_usage
  on_frame-results role_header r = refl
  on_frame-results (content t) r = refl
  on_frame-results empty_content r = refl
  on_frame-results (usage p c) r = omega arith
  on_frame-results (error m) r = refl
  on_frame-results done r = refl

  on_line-results : (line : List ℕ) (r : Relay D S) → told (on_line j clock line r) ≡ told r
  unfolding on_line
  on_line-results line r = elim (Option-cases (line_frame j line)) [
    | inl e ↦ rw (e, on_line) refl
    | inr (frame, e) ↦ rw (e, on_line) (on_frame-results frame r)
  ]

  line_or :
      (b : Bool) (line : List ℕ) (r : Relay D S)
      → told (if b then on_line j clock line r else r) ≡ told r
  line_or true line r = on_line-results line r
  line_or false line r = refl

  drain-results :
      (cur text : List ℕ) (r : Relay D S) → told (drain_lines j clock cur text r).1 ≡ told r
  unfolding drain_lines
  drain-results cur [] r = refl
  drain-results cur (c ∷ text) r =
      drain-results (if c == 10 then [] else (cur ++ c ∷ [])) text
        (if c == 10 then on_line j clock (cur ++ c ∷ []) r else r)
      ∙ line_or (c == 10) (cur ++ c ∷ []) r

  pub on_data-results : (bytes : List ℕ) (r : Relay D S) → told (on_data j clock bytes r) ≡ told r
  unfolding on_data on_text
  on_data-results bytes r = elim (Option-cases (from_utf8 bytes)) [
    | inl e ↦ rw (e, on_data) refl
    | inr (text, e) ↦ rw (e, on_data) (drain-results [] (r.body.line_buf ++ text) r)
  ]
