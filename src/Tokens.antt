-- ===== src/Tokens.antt =====
-- crates/router-core/src/tokens.rs: how prompt tokens are counted. A text is the list of its code points.
pub mod Words
use keel_llm_router.Base.{
  ℕ, suc, ◌+◌, ◌≤◌, Bool, true, false, ◌&&◌, ◌||◌, List, [], ◌∷◌, ltb, leb, ◌==◌, if◌then◌else◌,
}
use keel_llm_router.Base.Word.{u32_max}
use keel_llm_router.Float.{Float}

pub data TokenCounterKind : Type 0 where
  whitespace chars_per_token : TokenCounterKind

pub record TokenCounter (D : Type 0) : Type 0 where
  pub kind : TokenCounterKind
  pub chars_per_token : D

unfoldable pub new : {D : Type 0} → TokenCounterKind → D → TokenCounter D
new kind per_token = record { kind = kind; chars_per_token = per_token }

unfoldable pub is_exact : {D : Type 0} → TokenCounter D → Bool
is_exact c = elim c.kind [ whitespace ↦ true | chars_per_token ↦ false ]

-- `char::is_whitespace`: the code points with the property White_Space.
abbrev pub is_whitespace : ℕ → Bool
is_whitespace c =
    (leb 9 c && leb c 13)
    || c == 32
    || c == 133
    || c == 160
    || c == 5760
    || (leb 8192 c && leb c 8202)
    || c == 8232
    || c == 8233
    || c == 8239
    || c == 8287
    || c == 12288

-- `text.trim().is_empty()`
unfoldable pub is_blank : List ℕ → Bool
is_blank [] = true
is_blank (c ∷ cs) = is_whitespace c && is_blank cs

-- `split_whitespace().count()`; the flag is whether the last character was part of a word.
unfoldable pub words : Bool → List ℕ → ℕ
words inside [] = 0
words inside (c ∷ cs) =
    if is_whitespace c
    then words false cs
    else if inside
    then words true cs
    else suc (words true cs)

-- The bytes of the text in UTF-8.
abbrev pub utf8_len : ℕ → ℕ
utf8_len c = if ltb c 128 then 1 else if ltb c 2048 then 2 else if ltb c 65536 then 3 else 4

unfoldable pub byte_len : List ℕ → ℕ
byte_len [] = 0
byte_len (c ∷ cs) = utf8_len c + byte_len cs

-- `n.clamp(1, u32::MAX)`
abbrev pub clamp_u32 : ℕ → ℕ
clamp_u32 n = if ltb n 1 then 1 else if ltb u32_max n then u32_max else n

module _ {D : Type 0} ⦃f : Float D⦄ where
  unfoldable pub count : TokenCounter D → List ℕ → ℕ
  unfolding is_blank words byte_len
  count c text =
      if is_blank text
      then 0
      else clamp_u32 (elim c.kind [
        | whitespace ↦ words false text
        | chars_per_token ↦ f.ceil_u64 (f.div (f.of_ℕ (byte_len text)) c.chars_per_token)
      ])
