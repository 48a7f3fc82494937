-- ===== src/Sse/Utf8.antt =====
-- `std::str::from_utf8`, which crates/router-proxy/src/upstream.rs applies to each chunk of the stream:
-- the code points of well-formed bytes.
use mathlib.Core.Option.{some-injective}
use mathlib.Core.List.{append_assoc}
use keel_llm_router.Base.{
  ℕ, zero, suc, ◌+◌, ◌-◌, ◌*◌, Bool, ◌&&◌, Option, none, some, List, [], ◌∷◌, ◌++◌, ltb, leb, ◌==◌,
  if◌then◌else◌, ◌>>=◌, ◌≡◌, >>=-eq-some, ap, sym, ◌∙◌,
}

-- Between characters, or inside one: `more n acc low high` lacks `n + 1` bytes, of which the next is from
-- `low` to `high`.
pub data Progress : Type 0 where
  between : Progress
  more : ℕ → ℕ → ℕ → ℕ → Progress

within : ℕ → ℕ → ℕ → Bool
within low high b = leb low b && leb b high

-- The first byte of a character: what it completes, or what it begins.
abbrev first_byte : ℕ → Option (Progress × List ℕ)
first_byte b =
    if ltb b 128
    then some (between, b ∷ [])
    else if within 194 223 b
    then some (more 0 (b - 192) 128 191, [])
    else if b == 224
    then some (more 1 0 160 191, [])
    else if b == 237
    then some (more 1 13 128 159, [])
    else if within 225 239 b
    then some (more 1 (b - 224) 128 191, [])
    else if b == 240
    then some (more 2 0 144 191, [])
    else if within 241 243 b
    then some (more 2 (b - 240) 128 191, [])
    else if b == 244
    then some (more 2 4 128 143, [])
    else none

abbrev next_byte : Progress → ℕ → Option (Progress × List ℕ)
next_byte between b = first_byte b
next_byte (more n acc low high) b =
    if within low high b
    then (elim n [
      | zero ↦ some (between, (acc * 64 + (b - 128)) ∷ [])
      | suc m ↦ some (more m (acc * 64 + (b - 128)) 128 191, [])
    ])
    else none

unfoldable pub decode : Progress → List ℕ → Option (List ℕ)
unfolding within
decode between [] = some []
decode (more n acc low high) [] = none
decode p (b ∷ bs) = do step ← next_byte p b; rest ← decode step.0 bs; some (step.1 ++ rest)

unfoldable pub from_utf8 : List ℕ → Option (List ℕ)
unfolding decode
from_utf8 bytes = decode between bytes

decode-append :
    (p : Progress) (xs ys us vs : List ℕ)
    → decode p xs ≡ some us
    → from_utf8 ys ≡ some vs
    → decode p (xs ++ ys) ≡ some (us ++ vs)
unfolding decode from_utf8
decode-append between [] ys us vs e h = h ∙ ap (λ ws. some (ws ++ vs)) (some-injective _ _ e)
decode-append (more n acc low high) [] ys us vs e h = cc
decode-append p (b ∷ bs) ys us vs e h =
    let (step, es, e') = >>=-eq-some (next_byte p b) _ e in
    let (rest, er, last) = >>=-eq-some (decode step.0 bs) _ e' in
    rw (es, decode-append step.0 bs ys rest vs er h)
      (ap some (sym (append_assoc step.1 rest vs))
        ∙ ap (λ ws. some (ws ++ vs)) (some-injective _ _ last))

-- Two chunks that are well formed decode to what the chunk of both does.
pub from_utf8-append :
    (xs ys us vs : List ℕ)
    → from_utf8 xs ≡ some us
    → from_utf8 ys ≡ some vs
    → from_utf8 (xs ++ ys) ≡ some (us ++ vs)
unfolding from_utf8
from_utf8-append xs ys us vs e h = decode-append between xs ys us vs e h
