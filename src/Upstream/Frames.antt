-- ===== src/Upstream/Frames.antt =====
-- What a stream amounts to: the frames in the lines of its text, whatever chunks it comes in.
use keel_llm_router.Base.{
  ℕ, ◌+◌, ◌%◌, ◌≡◌, refl, sym, ap, ◌∙◌, Bool, true, false, ◌||◌, none, some, List, [], ◌∷◌, ◌++◌,
  arith, ◌==◌, if◌then◌else◌, inl, inr, Bool-cases, Option-cases,
}
use keel_llm_router.Base.Word.{u32_mod}
use keel_llm_router.Float.{Float}
use keel_llm_router.Json.{Json}
use keel_llm_router.LengthEstimator.{Decay}
use keel_llm_router.Sse.{Frame, role_header, content, empty_content, usage, error, done}
use keel_llm_router.Upstream.{
  Relay, Clock, on_content, on_usage, on_frame, line_frame, on_line, drain_lines,
}
use keel_llm_router.Upstream.Chunks.{IsLine, IsLine-next}

-- The lines of a text that have ended, their ends included, and what follows the last one.
abbrev pub split_lines : List ℕ → List ℕ → List (List ℕ) × List ℕ
split_lines cur [] = ([], cur)
split_lines cur (c ∷ cs) =
    let line = cur ++ c ∷ [] in
    let (ls, rest) = split_lines (if c == 10 then [] else line) cs in
    ((if c == 10 then line ∷ [] else []) ++ ls, rest)

-- The frames in lines, in their order.
abbrev pub frames_of : {D : Type 0} → Json D (List ℕ) → List (List ℕ) → List Frame
frames_of j [] = []
frames_of j (l ∷ ls) = elim (line_frame j l) [ none ↦ frames_of j ls | some x ↦ x ∷ frames_of j ls ]

abbrev pub is_content : Frame → ℕ
is_content (content t) = 1
is_content x = 0

abbrev pub contents : List Frame → ℕ
contents [] = 0
contents (x ∷ xs) = is_content x + contents xs

abbrev pub is_error : Frame → Bool
is_error (error m) = true
is_error x = false

abbrev pub has_error : List Frame → Bool
has_error [] = false
has_error (x ∷ xs) = is_error x || has_error xs

pub split_lines-append :
    (cur xs ys : List ℕ)
    → let (ls, rest) = split_lines cur xs in
      let (ls', rest') = split_lines rest ys in split_lines cur (xs ++ ys) ≡ (ls ++ ls', rest')
split_lines-append cur [] ys = refl
split_lines-append cur (c ∷ xs) ys = elim (Bool-cases (c == 10)) [
  | inl t ↦ rw t (ap (λ p. ((cur ++ c ∷ []) ∷ p.0, p.1)) (split_lines-append [] xs ys))
  | inr n ↦ rw n (split_lines-append (cur ++ c ∷ []) xs ys)
]

pub split_lines-IsLine : (cur xs : List ℕ) → IsLine cur → IsLine (split_lines cur xs).1
split_lines-IsLine cur [] h = h
split_lines-IsLine cur (c ∷ xs) h =
    split_lines-IsLine (if c == 10 then [] else (cur ++ c ∷ [])) xs (IsLine-next cur c h)

pub contents-append : (xs ys : List Frame) → contents (xs ++ ys) ≡ contents xs + contents ys
contents-append [] ys = omega arith
contents-append (x ∷ xs) ys = omega (arith, contents-append xs ys)

pub has_error-append : (xs ys : List Frame) → has_error (xs ++ ys) ≡ (has_error xs || has_error ys)
has_error-append [] ys = refl
has_error-append (x ∷ xs) ys = ground (arith, has_error-append xs ys)

or_assoc : (a b c : Bool) → ((a || b) || c) ≡ (a || (b || c))
or_assoc a b c = ground arith

module _ {D : Type 0} (j : Json D (List ℕ)) where
  pub frames_of-append :
      (xs ys : List (List ℕ)) → frames_of j (xs ++ ys) ≡ frames_of j xs ++ frames_of j ys
  frames_of-append [] ys = refl
  frames_of-append (x ∷ xs) ys = elim (Option-cases (line_frame j x)) [
    | inl n ↦ rw (n, frames_of) (frames_of-append xs ys)
    | inr (fr, e) ↦ rw (e, frames_of) (ap (λ k. fr ∷ k) (frames_of-append xs ys))
  ]

module _ {D S : Type 0} ⦃f : Float D⦄ ⦃d : Decay D⦄ (j : Json D (List ℕ)) where
  -- What the body has counted, and whether it has seen an error.
  abbrev pub Tallies : ℕ → Bool → ℕ → Relay D S → Type 0
  Tallies n failed status r =
      (r.body.content_tokens ≡ n % u32_mod)
      × (r.body.saw_error_frame ≡ failed)
      × (r.body.upstream_status ≡ status)

  module _ (clock : Clock D) (status : ℕ) where
    on_frame-Tallies :
        (x : Frame) (n : ℕ) (failed : Bool) (r : Relay D S)
        → Tallies n failed status r
        → Tallies (n + is_content x) (failed || is_error x) status (on_frame clock x r)
    unfolding on_frame on_content on_usage
    on_frame-Tallies role_header n failed r h = ground arith
    on_frame-Tallies (content t) n failed r h = ground arith
    on_frame-Tallies empty_content n failed r h = ground arith
    on_frame-Tallies (usage p c) n failed r h = ground arith
    on_frame-Tallies (error m) n failed r h = ground arith
    on_frame-Tallies done n failed r h = ground arith

    on_line-Tallies :
        (line : List ℕ) (n : ℕ) (failed : Bool) (r : Relay D S)
        → Tallies n failed status r
        → let fs = frames_of j (line ∷ []) in
          Tallies (n + contents fs) (failed || has_error fs) status (on_line j clock line r)
    unfolding on_line
    on_line-Tallies line n failed r h = elim (Option-cases (line_frame j line)) [
      | inl e ↦ rw (e, on_line) (ground arith)
      | inr (x, e) ↦ let k = on_frame-Tallies x n failed r h in rw (e, on_line) (ground arith)
    ]

    line_or :
        (b : Bool) (line : List ℕ) (n : ℕ) (failed : Bool) (r : Relay D S)
        → Tallies n failed status r
        → let fs = frames_of j (if b then line ∷ [] else []) in
          Tallies
            (n + contents fs)
            (failed || has_error fs)
            status
            (if b then on_line j clock line r else r)
    line_or true line n failed r h = on_line-Tallies line n failed r h
    line_or false line n failed r h = ground arith

    -- The loop drains the lines that have ended, and tallies their frames.
    pub drain-Tallies :
        (cur text : List ℕ) (n : ℕ) (failed : Bool) (r : Relay D S)
        → Tallies n failed status r
        → let (ls, rest) = split_lines cur text in
          let fs = frames_of j ls in
          let drained = drain_lines j clock cur text r in
          (drained.0 ≡ rest) × Tallies (n + contents fs) (failed || has_error fs) status drained.1
    unfolding drain_lines
    drain-Tallies cur [] n failed r h = (refl, ground arith)
    drain-Tallies cur (c ∷ text) n failed r h =
        let line = cur ++ c ∷ [] in
        let next = if c == 10 then [] else line in
        let here = if c == 10 then line ∷ [] else [] in
        let one = frames_of j here in
        let ls = (split_lines next text).0 in
        let (same, tallied) =
          drain-Tallies next text (n + contents one) (failed || has_error one)
            (if c == 10 then on_line j clock line r else r) (line_or (c == 10) line n failed r h) in
        let joined = frames_of-append j here ls in
        let (counted, erred, kept) = tallied in
        (
          same,
          (
            counted
                ∙ ap (λ k. k % u32_mod) (omega (arith, contents-append one (frames_of j ls)))
                ∙ ap (λ k. (n + contents k) % u32_mod) (sym joined),
            erred
                ∙ or_assoc failed (has_error one) (has_error (frames_of j ls))
                ∙ ap (λ b. failed || b) (sym (has_error-append one (frames_of j ls)))
                ∙ ap (λ k. failed || has_error k) (sym joined),
            kept,
          ),
        )
