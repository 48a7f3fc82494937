-- ===== src/Upstream/Chunks.antt =====
-- How a stream is cut into chunks does not change what is counted of it.
use mathlib.Core.List.{append_assoc, append-nil}
use keel_llm_router.Base.{
  ℕ, ◌≡◌, refl, sym, ap, ◌∙◌, Bool, true, false, some, List, [], ◌∷◌, ◌++◌, ◌==◌, if◌then◌else◌,
  Bool-cases, inl, inr, Option-cases,
}
use keel_llm_router.Float.{Float}
use keel_llm_router.Json.{Json}
use keel_llm_router.LengthEstimator.{Decay}
use keel_llm_router.Sse.{Frame, role_header, content, empty_content, usage, error, done}
use keel_llm_router.Sse.Utf8.{from_utf8, from_utf8-append}
use keel_llm_router.Upstream.{
  Relay, Clock, on_content, on_usage, on_frame, line_frame, on_line, drain_lines, on_text, on_data,
}

-- No newline is in the text.
abbrev pub IsLine : List ℕ → Type 0
IsLine [] = Unit
IsLine (c ∷ cs) = ((c == 10) ≡ false) × IsLine cs

IsLine-append : (cur : List ℕ) (c : ℕ) → IsLine cur → (c == 10) ≡ false → IsLine (cur ++ c ∷ [])
IsLine-append [] c h n = (n, tt)
IsLine-append (x ∷ cur) c h n = (h.0, IsLine-append cur c h.1 n)

pub IsLine-next :
    (cur : List ℕ) (c : ℕ) → IsLine cur → IsLine (if c == 10 then [] else (cur ++ c ∷ []))
IsLine-next cur c h = elim (Bool-cases (c == 10)) [
  | inl t ↦ rw t tt
  | inr n ↦ rw n (IsLine-append cur c h n)
]

module _ {D S : Type 0} ⦃f : Float D⦄ ⦃d : Decay D⦄ (j : Json D (List ℕ)) (clock : Clock D) where
  abbrev with_buf : List ℕ → Relay D S → Relay D S
  with_buf buf r = record r { body = record r.body { line_buf = buf } }

  -- No frame reads or writes the buffer.
  on_frame-with_buf :
      (buf : List ℕ) (frame : Frame) (r : Relay D S)
      → on_frame clock frame (with_buf buf r) ≡ with_buf buf (on_frame clock frame r)
  unfolding on_frame on_content on_usage
  on_frame-with_buf buf role_header r = refl
  on_frame-with_buf buf (content t) r = refl
  on_frame-with_buf buf empty_content r = refl
  on_frame-with_buf buf (usage p c) r = refl
  on_frame-with_buf buf (error m) r = refl
  on_frame-with_buf buf done r = refl

  on_line-with_buf :
      (buf line : List ℕ) (r : Relay D S)
      → on_line j clock line (with_buf buf r) ≡ with_buf buf (on_line j clock line r)
  unfolding on_line
  on_line-with_buf buf line r = elim (Option-cases (line_frame j line)) [
    | inl e ↦ rw (e, on_line) refl
    | inr (frame, e) ↦ rw (e, on_line) (on_frame-with_buf buf frame r)
  ]

  line_or :
      (b : Bool) (buf line : List ℕ) (r : Relay D S)
      → (if b then on_line j clock line (with_buf buf r) else with_buf buf r)
        ≡ with_buf buf (if b then on_line j clock line r else r)
  line_or true buf line r = on_line-with_buf buf line r
  line_or false buf line r = refl

  drain-with_buf :
      (buf cur text : List ℕ) (r : Relay D S)
      → let drained = drain_lines j clock cur text r in
        drain_lines j clock cur text (with_buf buf r) ≡ (drained.0, with_buf buf drained.1)
  unfolding drain_lines
  drain-with_buf buf cur [] r = refl
  drain-with_buf buf cur (c ∷ text) r =
      ap (drain_lines j clock (if c == 10 then [] else (cur ++ c ∷ [])) text)
        (line_or (c == 10) buf (cur ++ c ∷ []) r)
      ∙ drain-with_buf buf (if c == 10 then [] else (cur ++ c ∷ [])) text
          (if c == 10 then on_line j clock (cur ++ c ∷ []) r else r)

  drain-append :
      (cur xs ys : List ℕ) (r : Relay D S)
      → let drained = drain_lines j clock cur xs r in
        drain_lines j clock cur (xs ++ ys) r ≡ drain_lines j clock drained.0 ys drained.1
  unfolding drain_lines
  drain-append cur [] ys r = refl
  drain-append cur (c ∷ xs) ys r =
      drain-append (if c == 10 then [] else (cur ++ c ∷ [])) xs ys
        (if c == 10 then on_line j clock (cur ++ c ∷ []) r else r)

  drain_char :
      (cur : List ℕ) (c : ℕ) (buf : List ℕ) (r : Relay D S)
      → (c == 10) ≡ false
      → drain_lines j clock cur (c ∷ buf) r ≡ drain_lines j clock (cur ++ c ∷ []) buf r
  unfolding drain_lines
  drain_char cur c buf r h = rw (h, drain_lines) refl

  -- A buffer with no newline is scanned without effect.
  pub drain-IsLine :
      (cur line ys : List ℕ) (r : Relay D S)
      → IsLine line
      → drain_lines j clock cur (line ++ ys) r ≡ drain_lines j clock (cur ++ line) ys r
  unfolding drain_lines
  drain-IsLine cur [] ys r h = ap (λ k. drain_lines j clock k ys r) (sym (append-nil cur))
  drain-IsLine cur (c ∷ line) ys r h =
      drain_char cur c (line ++ ys) r h.0
      ∙ drain-IsLine (cur ++ c ∷ []) line ys r h.1
      ∙ ap (λ k. drain_lines j clock k ys r) (append_assoc cur (c ∷ []) line)

  drain_leaves :
      (cur xs : List ℕ) (r : Relay D S) → IsLine cur → IsLine (drain_lines j clock cur xs r).0
  unfolding drain_lines
  drain_leaves cur [] r h = h
  drain_leaves cur (c ∷ xs) r h =
      drain_leaves (if c == 10 then [] else (cur ++ c ∷ [])) xs
        (if c == 10 then on_line j clock (cur ++ c ∷ []) r else r) (IsLine-next cur c h)

  on_text-append :
      (xs ys : List ℕ) (r : Relay D S)
      → on_text j clock (xs ++ ys) r ≡ on_text j clock ys (on_text j clock xs r)
  unfolding on_text
  on_text-append xs ys r =
      let first = drain_lines j clock [] (r.body.line_buf ++ xs) r in
      let settle : List ℕ × Relay D S → Relay D S = λ p. with_buf p.0 p.1 in
      ap (λ text. settle (drain_lines j clock [] text r)) (sym (append_assoc r.body.line_buf xs ys))
      ∙ ap settle (drain-append [] (r.body.line_buf ++ xs) ys r)
      ∙ ap settle
          (sym (drain-IsLine [] first.0 ys first.1 (drain_leaves [] (r.body.line_buf ++ xs) r tt)))
      ∙ ap settle (sym (drain-with_buf first.0 [] (first.0 ++ ys) first.1))

  on_data-text :
      (xs us : List ℕ) (r : Relay D S)
      → from_utf8 xs ≡ some us
      → on_data j clock xs r ≡ on_text j clock us r
  unfolding on_data
  on_data-text xs us r e = rw (e, on_data) refl

  -- At one reading of the clock, two chunks that are each well-formed UTF-8 are counted like the one
  -- chunk that they make, wherever the cut falls, also inside a line: in the end the lease, the backend,
  -- the histograms, the metrics and the buffer are the same.
  pub on_data-append :
      (xs ys us vs : List ℕ) (r : Relay D S)
      → from_utf8 xs ≡ some us
      → from_utf8 ys ≡ some vs
      → on_data j clock (xs ++ ys) r ≡ on_data j clock ys (on_data j clock xs r)
  on_data-append xs ys us vs r e h =
      on_data-text (xs ++ ys) (us ++ vs) r (from_utf8-append xs ys us vs e h)
      ∙ on_text-append us vs r
      ∙ ap (on_text j clock vs) (sym (on_data-text xs us r e))
      ∙ sym (on_data-text ys vs (on_data j clock xs r) h)
