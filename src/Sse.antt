-- ===== src/Sse.antt =====
-- crates/router-proxy/src/sse.rs: one line of the stream, and the frame that it holds. A line is the list
-- of its code points; `serde_json` reads it.
pub mod Utf8
use keel_llm_router.Base.{
  ℕ, ◌%◌, Bool, true, false, ◌&&◌, Option, none, some, List, [], ◌∷◌, ◌++◌, String, ◌==◌, ◌=s=◌,
  if◌then◌else◌, ◌>>=◌, is_empty,
}
use keel_llm_router.Base.Word.{u32_mod}
use keel_llm_router.Tokens.{is_whitespace}
use keel_llm_router.Json.{
  Value, Values, no_values, a_value, Json, get, as_str, as_array, as_u64, unwrap_or,
}

pub data Frame : Type 0 where
  role_header : Frame
  content : String → Frame
  empty_content : Frame
  usage : ℕ → ℕ → Frame
  error : String → Frame
  done : Frame

pub data ParsedLine (D : Type 0) : Type 0 where
  done_line : ParsedLine D
  json_line : Value D → ParsedLine D

abbrev pub trim_start : List ℕ → List ℕ
trim_start [] = []
trim_start (c ∷ cs) = if is_whitespace c then trim_start cs else c ∷ cs

abbrev pub trim_end : List ℕ → List ℕ
trim_end [] = []
trim_end (c ∷ cs) =
    let rest = trim_end cs in if is_empty rest && is_whitespace c then [] else c ∷ rest

abbrev pub trim : List ℕ → List ℕ
trim cs = trim_end (trim_start cs)

abbrev pub same_line : List ℕ → List ℕ → Bool
same_line [] [] = true
same_line [] (d ∷ ds) = false
same_line (c ∷ cs) [] = false
same_line (c ∷ cs) (d ∷ ds) = c == d && same_line cs ds

-- The line that ends a stream, in brackets.
abbrev pub done_text : List ℕ
done_text = 91 ∷ 68 ∷ 79 ∷ 78 ∷ 69 ∷ 93 ∷ []

unfoldable pub parse_line : {D : Type 0} → Json D (List ℕ) → List ℕ → Option (ParsedLine D)
parse_line j text =
    let line = trim text in
    if is_empty line
    then none
    else if same_line line done_text
    then some done_line
    else (do v ← j.from_text line; some (json_line v))

-- A count of the usage: `as u32` of a number, or zero.
abbrev pub usage_field : {D : Type 0} → Option (Value D) → String → ℕ
usage_field u name = unwrap_or (do o ← u; t ← get o name; as_u64 t) 0 % u32_mod

-- The frame of the first choice.
unfoldable pub classify_choice : {D : Type 0} → Value D → Option Frame
classify_choice choice = do
  delta ← get choice "delta"
  elim (get delta "role") [
    | some r ↦ some role_header
    | none ↦ elim (get delta "content" >>= λ c. as_str c) [
      | none ↦ some empty_content
      | some t ↦ if t =s= "" then some empty_content else some (content t)
    ]
  ]

unfoldable pub classify : {D : Type 0} → ParsedLine D → Option Frame
unfolding classify_choice
classify done_line = some done
classify (json_line v) = elim (get v "error") [
  | some e ↦ some (error (unwrap_or (get e "message" >>= λ m. as_str m) "unknown error"))
  | none ↦ do
    c ← get v "choices"
    choices ← as_array c
    elim choices [
      | no_values ↦
          let u = get v "usage" in
          some (usage (usage_field u "prompt_tokens") (usage_field u "completion_tokens"))
      | a_value first rest ↦ classify_choice first
    ]
]
