-- ===== src/Base/Texts.antt =====
-- Texts: equality, and the names in a list.
use Prim.Native.String.{String}
use mathlib.Core.Path.{◌≡◌}
use mathlib.Core.Logic.{◌↔◌}
use mathlib.Core.Bool.{Bool, true, false}
use mathlib.Core.List.{List, [], ◌∷◌}
use text.Mathlib.Text.{◌==◌ as same_str}
use text.Mathlib.TextEquality.{eq_iff}
use native.Mathlib.Omega.{arith}
use keel_llm_router.Base.Tests.{if◌then◌else◌}
use keel_llm_router.Base.Lists.{Elem}

infix 50 ◌=s=◌
abbrev pub ◌=s=◌ : String → String → Bool
s =s= t = same_str s t

pub =s=_iff : (s t : String) → ((s =s= t) ≡ true) ↔ (s ≡ t)
=s=_iff s t = eq_iff s t

unfoldable pub contains_text : List String → String → Bool
contains_text [] s = false
contains_text (t ∷ ts) s = if s =s= t then true else contains_text ts s

pub contains_text_iff : (ts : List String) (s : String) → (contains_text ts s ≡ true) ↔ Elem s ts
unfolding contains_text
contains_text_iff [] s = ground arith
contains_text_iff (t ∷ ts) s = ground (arith, =s=_iff s t, contains_text_iff ts s)
