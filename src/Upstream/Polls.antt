-- ===== src/Upstream/Polls.antt =====
-- To the body, what it is polled for is the data alone; it hands everything on.
use keel_llm_router.Base.{ℕ, ◌≡◌, refl, ap, List, [], ◌∷◌}
use keel_llm_router.Float.{Float}
use keel_llm_router.Json.{Json}
use keel_llm_router.LengthEstimator.{Decay}
use keel_llm_router.Upstream.{
  Relay, Clock, on_data, poll_frame, Poll, pending, ended, failed, ready, bytes, trailers,
}
use keel_llm_router.Upstream.Counts.{on_stream}

-- The body is polled again and again, each time at its instant; what it answers is in order.
abbrev pub poll_all :
    {D S E : Type 0} ⦃f : Float D⦄ ⦃d : Decay D⦄
    → Json D (List ℕ)
    → List (Clock D × Poll E)
    → Relay D S
    → Relay D S × List (Poll E)
poll_all j [] r = (r, [])
poll_all j (p ∷ ps) r =
    let polled = poll_frame j p.0 p.1 r in
    let rest = poll_all j ps polled.0 in (rest.0, polled.1 ∷ rest.1)

-- The data among what the inner body brings.
abbrev pub chunks_of : {D E : Type 0} → List (Clock D × Poll E) → List (Clock D × List ℕ)
chunks_of [] = []
chunks_of ((clock, ready (bytes b)) ∷ ps) = (clock, b) ∷ chunks_of ps
chunks_of ((clock, ready (trailers h)) ∷ ps) = chunks_of ps
chunks_of ((clock, pending) ∷ ps) = chunks_of ps
chunks_of ((clock, ended) ∷ ps) = chunks_of ps
chunks_of ((clock, failed e) ∷ ps) = chunks_of ps

abbrev pub brought : {D E : Type 0} → List (Clock D × Poll E) → List (Poll E)
brought [] = []
brought (p ∷ ps) = p.1 ∷ brought ps

module _ {D S E : Type 0} ⦃f : Float D⦄ ⦃d : Decay D⦄ (j : Json D (List ℕ)) where
  pub polls-stream :
      (ps : List (Clock D × Poll E)) (r : Relay D S)
      → ((poll_all j ps r).0 ≡ on_stream j (chunks_of ps) r) × ((poll_all j ps r).1 ≡ brought ps)
  unfolding poll_frame on_stream
  polls-stream [] r = (refl, refl)
  polls-stream ((clock, ready (bytes b)) ∷ ps) r =
      let (same, told) = polls-stream ps (on_data j clock b r) in
      (same, ap (λ k. ready (bytes b) ∷ k) told)
  polls-stream ((clock, ready (trailers h)) ∷ ps) r =
      let (same, told) = polls-stream ps r in (same, ap (λ k. ready (trailers h) ∷ k) told)
  polls-stream ((clock, pending) ∷ ps) r =
      let (same, told) = polls-stream ps r in (same, ap (λ k. pending ∷ k) told)
  polls-stream ((clock, ended) ∷ ps) r =
      let (same, told) = polls-stream ps r in (same, ap (λ k. ended ∷ k) told)
  polls-stream ((clock, failed e) ∷ ps) r =
      let (same, told) = polls-stream ps r in (same, ap (λ k. failed e ∷ k) told)
