-- ===== src/Tokens/Words.antt =====
-- The count of a text: zero only for a blank one, and additive over a separator.
use keel_llm_router.Base.{
  ℕ, ◌+◌, ◌≤◌, ◌<◌, ◌≡◌, ◌↔◌, refl, Bool, true, false, ◌&&◌, List, [], ◌∷◌, ◌++◌, arith, false≢true,
  sym,
}
use keel_llm_router.Base.Word.{u32_mod, u32_max}
use keel_llm_router.Float.{Float}
use keel_llm_router.Tokens.{TokenCounter, whitespace, is_whitespace, is_blank, words, count}

-- A blank text has no words, and any other text has one.
words-blank : (b : Bool) (xs : List ℕ) → is_blank xs ≡ true → words b xs ≡ 0
unfolding is_blank words
words-blank b [] h = refl
words-blank b (x ∷ xs) h = ground (arith, words-blank false xs)

words-pos : (xs : List ℕ) → is_blank xs ≡ false → 0 < words false xs
unfolding is_blank words
words-pos [] h = absurd (false≢true (sym h))
words-pos (x ∷ xs) h = ground (arith, words-pos xs)

words-append :
    (b : Bool) (xs : List ℕ) (s : ℕ) (ys : List ℕ)
    → is_whitespace s ≡ true
    → words b (xs ++ s ∷ ys) ≡ words b xs + words false ys
unfolding words
words-append b [] s ys h = rw h (omega arith)
words-append b (x ∷ xs) s ys h =
    ground (arith, words-append false xs s ys h, words-append true xs s ys h)

is_blank-append :
    (xs : List ℕ) (s : ℕ) (ys : List ℕ)
    → is_whitespace s ≡ true
    → is_blank (xs ++ s ∷ ys) ≡ (is_blank xs && is_blank ys)
unfolding is_blank
is_blank-append [] s ys h = rw h refl
is_blank-append (x ∷ xs) s ys h = rw (is_blank-append xs s ys h) (ground arith)

module _ {D : Type 0} ⦃f : Float D⦄ where
  -- A count is a `u32`, and it is zero exactly for a text that is blank, in either mode.
  pub count-zero_iff :
      (c : TokenCounter D) (text : List ℕ)
      → (count c text < u32_mod) × ((count c text ≡ 0) ↔ (is_blank text ≡ true))
  unfolding count
  count-zero_iff c text = ground arith

  -- By words, two texts joined by a separator count as much as both do, unless the count is clamped.
  pub count-append :
      (c : TokenCounter D) (xs : List ℕ) (s : ℕ) (ys : List ℕ)
      → c.kind ≡ whitespace
      → is_whitespace s ≡ true
      → count c xs + count c ys ≤ u32_max
      → count c (xs ++ s ∷ ys) ≡ count c xs + count c ys
  unfolding count
  count-append c xs s ys k h fits = ground (
    arith,
    words-append false xs s ys h,
    is_blank-append xs s ys h,
    words-pos xs,
    words-pos ys,
    words-blank false xs,
    words-blank false ys,
  )
