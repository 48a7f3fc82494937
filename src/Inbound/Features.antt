-- ===== src/Inbound/Features.antt =====
-- The features of a request: the prompt is the sum over its messages, and no charge is made of nothing.
use keel_llm_router.Base.{
  ℕ, ◌+◌, ◌%◌, ◌≤◌, ◌<◌, ◌≡◌, refl, inl, inr, sym, ap, ◌∙◌, false, Option, none, some, arith, ltb,
  ◌==◌, if◌then◌else◌, ◌>>=◌, ok, ok-injective, err-ne-ok, Bool-cases, Option-cases,
}
use keel_llm_router.Base.Word.{u32_mod, u32_max}
use keel_llm_router.Float.{Float}
use keel_llm_router.Features.{RequestFeatures}
use keel_llm_router.LengthEstimator.{Decay, RouteHistograms, estimate, route_key}
use keel_llm_router.LengthEstimator.Histograms.{IsRounding, AreTokens, estimate_bounds}
use keel_llm_router.Tokens.{TokenCounter, count}
use keel_llm_router.Tokens.Words.{count-zero_iff}
use keel_llm_router.Json.{
  Value, Values, no_values, a_value, get, as_str, as_u64, as_array, code_points,
}
use keel_llm_router.Inbound.{count_messages, count_prompt_tokens, features_of}

-- The lesser of a number and the greatest word.
abbrev pub capped : ℕ → ℕ
capped n = if ltb u32_max n then u32_max else n

zero_add : (n : ℕ) → 0 + n ≡ n
zero_add n = omega arith

module _ {D : Type 0} ⦃f : Float D⦄ where
  -- The tokens of the content of a message, where it is a text.
  unfoldable pub content_tokens : TokenCounter D → Value D → ℕ
  content_tokens c m = elim (get m "content" >>= λ v. as_str v) [
    | some t ↦ count c (code_points t)
    | none ↦ 0
  ]

  -- The tokens of all messages, with no bound.
  unfoldable pub total_tokens : TokenCounter D → Values D → ℕ
  total_tokens c no_values = 0
  total_tokens c (a_value m ms) = content_tokens c m + total_tokens c ms

  message_step :
      (c : TokenCounter D) (m : Value D) (ms : Values D) (n : ℕ)
      → n ≤ u32_max
      → count_messages c (a_value m ms) n ≡ count_messages c ms (capped (n + content_tokens c m))
  unfolding count_messages content_tokens
  message_step c m ms n h = elim (Option-cases (get m "content" >>= λ v. as_str v)) [
    | inl e ↦ rw (e, content_tokens, capped_same n h) refl
    | inr (t, e) ↦ rw (e, content_tokens) refl
  ]
    where
      capped_same : (k : ℕ) → k ≤ u32_max → capped (k + 0) ≡ k
      capped_same k h = ground arith

  messages_lem :
      (c : TokenCounter D) (ms : Values D) (n : ℕ)
      → n ≤ u32_max
      → count_messages c ms n ≡ capped (n + total_tokens c ms)
  unfolding total_tokens count_messages
  messages_lem c no_values n h = ground arith
  messages_lem c (a_value m ms) n h =
      message_step c m ms n h
      ∙ messages_lem c ms (capped (n + content_tokens c m)) (ground arith)
      ∙ twice n (content_tokens c m) (total_tokens c ms)
    where
      twice : (a b k : ℕ) → capped (capped (a + b) + k) ≡ capped (a + (b + k))
      twice a b k = ground arith

  -- The prompt of a chat is the sum of what its messages count, capped at the greatest word.
  pub count_prompt-chat :
      (c : TokenCounter D) (v : Value D) (ms : Values D)
      → (get v "messages" >>= λ m. as_array m) ≡ some ms
      → count_prompt_tokens v c ≡ capped (total_tokens c ms)
  unfolding count_prompt_tokens
  count_prompt-chat c v ms e =
      rw (e, count_prompt_tokens)
        (messages_lem c ms 0 (omega arith) ∙ ap capped (zero_add (total_tokens c ms)))

  prompt_fits : (c : TokenCounter D) (v : Value D) → count_prompt_tokens v c < u32_mod
  unfolding count_prompt_tokens
  prompt_fits c v = elim (Option-cases (get v "messages" >>= λ m. as_array m)) [
    | inr (ms, e) ↦ rw (count_prompt-chat c v ms e) (ground arith)
    | inl n ↦ elim (Option-cases (get v "prompt" >>= λ p. as_str p)) [
      | inl n' ↦ rw (n, n', count_prompt_tokens) (omega arith)
      | inr (p, e) ↦ rw (n, e, count_prompt_tokens) (count-zero_iff c (code_points p)).0
    ]
  ]

  max_tokens_of : Value D → Option ℕ
  max_tokens_of v = do m ← get v "max_tokens"; n ← as_u64 m; some (n % u32_mod)

  max_tokens_fit : (v : Value D) → AreTokens (max_tokens_of v)
  unfolding max_tokens_of
  max_tokens_fit v = elim (Option-cases (get v "max_tokens")) [
    | inl e ↦ rw e tt
    | inr (m, e) ↦ elim (Option-cases (as_u64 m)) [
      | inl n ↦ rw (e, n) tt
      | inr (k, n) ↦ rw (e, n) (omega arith)
    ]
  ]

  module _ ⦃d : Decay D⦄ (laws : IsRounding D) where
    -- If `as u32` gives words, the features of an accepted request: its prompt and its expected output
    -- are `u32` and not zero, so that under neither projection a lease for it is free; and the output is
    -- estimated for its route.
    pub features_charged :
        (v : Value D) (now : ℕ) (hists : RouteHistograms D) (c : TokenCounter D)
        (r : RequestFeatures)
        → features_of v now hists c ≡ ok r
        → (0 < r.prompt_tokens)
          × (r.prompt_tokens < u32_mod)
          × (0 < r.expected_output_tokens)
          × (r.expected_output_tokens < u32_mod)
          × (r.expected_output_tokens
              ≡ estimate hists (route_key r.model r.prompt_tokens) r.max_tokens)
    unfolding features_of max_tokens_of
    features_charged v now hists c r e = elim (Option-cases (get v "model" >>= λ m. as_str m)) [
      | inl n ↦ absurd (err-ne-ok (rw (n, features_of) at e))
      | inr (model, n) ↦ elim (Bool-cases (count_prompt_tokens v c == 0)) [
        | inl none_there ↦ absurd (err-ne-ok (rw (n, none_there, features_of) at e))
        | inr pos ↦
            let same = ok-injective (rw (n, pos, features_of) at e) in
            let (low, high) =
              estimate_bounds laws hists (route_key model (count_prompt_tokens v c))
                (max_tokens_of v) (max_tokens_fit v) in
            rw (sym same) (not_zero pos, prompt_fits c v, low, high, refl)
      ]
    ]
      where
        not_zero : {n : ℕ} → (n == 0) ≡ false → 0 < n
        not_zero pos = ground (arith, pos)
