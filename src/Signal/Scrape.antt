-- ===== src/Signal/Scrape.antt =====
-- crates/router-proxy/src/signal/scrape.rs: the Prometheus text that a backend exposes.
use keel_llm_router.Base.{
  ℕ, ◌+◌, ◌-◌, ◌*◌, Bool, false, ◌&&◌, ◌||◌, Option, none, some, List, [], ◌∷◌, ◌++◌, String, ltb,
  leb, ◌==◌, is_empty, if◌then◌else◌, ◌>>=◌,
}
use keel_llm_router.Base.Word.{u32_mod}
use keel_llm_router.Backend.{ReportedLoad}
use keel_llm_router.Float.{Float}
use keel_llm_router.Json.{code_points}
use keel_llm_router.Sse.{trim, trim_start}
use keel_llm_router.Tokens.{is_whitespace}
use keel_llm_router.Upstream.{strip_prefix}

-- What is used of `f64` besides: `parse`, and the casts to `f32`, `u32` and `u64`, and from `f32`.
pub record Casts (D S : Type 0) : Type 0 where
  pub parse_f64 : List ℕ → Option D
  pub narrow : D → S
  pub widen : S → D
  pub to_u32 : D → ℕ
  pub to_u64 : D → ℕ

pub record CounterSample (D : Type 0) : Type 0 where
  pub prefix_hits : Option D
  pub prefix_queries : Option D

pub record ReportedCapacity : Type 0 where
  pub block_size : ℕ
  pub num_gpu_blocks : ℕ

-- `str::lines`, without the carriage return before the end of a line. `line` is the line so far.
abbrev drop_return : List ℕ → List ℕ
drop_return [] = []
drop_return (c ∷ cs) = if is_empty cs && c == 13 then [] else c ∷ drop_return cs

unfoldable pub lines : List ℕ → List ℕ → List (List ℕ)
lines line [] = if is_empty line then [] else line ∷ []
lines line (c ∷ cs) =
    let rest = lines (if c == 10 then [] else line ++ c ∷ []) cs in
    if c == 10 then drop_return line ∷ rest else rest

-- What stands before and after the first `c`.
unfoldable pub split_at : ℕ → List ℕ → Option (List ℕ × List ℕ)
split_at c [] = none
split_at c (d ∷ ds) =
    let rest = split_at c ds in if d == c then some ([], ds) else (do p ← rest; some (d ∷ p.0, p.1))

-- What stands after the first occurrence of a text.
unfoldable pub after_text : List ℕ → List ℕ → Option (List ℕ)
after_text pattern [] = strip_prefix pattern []
after_text pattern (c ∷ cs) =
    let rest = after_text pattern cs in
    elim (strip_prefix pattern (c ∷ cs)) [ some r ↦ some r | none ↦ rest ]

-- The first line for which there is a result.
abbrev pub first_line : {A : Type 0} → (List ℕ → Option A) → List (List ℕ) → Option A
first_line h [] = none
first_line h (l ∷ ls) = let rest = first_line h ls in elim (h l) [ some a ↦ some a | none ↦ rest ]

abbrev pub starts_with_char : ℕ → List ℕ → Bool
starts_with_char c [] = false
starts_with_char c (d ∷ ds) = d == c

-- A line that is no comment, by what follows a name at its start.
abbrev pub after_name : List ℕ → List ℕ → Option (List ℕ)
after_name name line =
    if starts_with_char 35 (trim_start line) then none else strip_prefix name (trim line)

-- The value on a line, for the name; braces are 123 and 125.
unfoldable pub line_value : {D S : Type 0} → Casts D S → List ℕ → List ℕ → Option D
unfolding split_at
line_value casts name line = do
  rest ← after_name name line
  elim rest [
    | [] ↦ none
    | c ∷ cs ↦
        if c == 123 || is_whitespace c
        then (elim (split_at 123 (c ∷ cs)) [
          | none ↦ casts.parse_f64 (trim (c ∷ cs))
          | some labelled ↦ split_at 125 labelled.1 >>= λ closed. casts.parse_f64 (trim closed.1)
        ])
        else none
  ]

unfoldable pub metric_value : {D S : Type 0} → Casts D S → List ℕ → List ℕ → Option D
unfolding lines line_value
metric_value casts text name = first_line (line_value casts name) (lines [] text)

unfoldable pub counter_value : {D S : Type 0} → Casts D S → List ℕ → List ℕ → Option D
unfolding metric_value
counter_value casts text base = elim (metric_value casts text base) [
  | some v ↦ some v
  | none ↦ metric_value casts text (base ++ code_points "_total")
]

-- The quoted text at the start; the quotes are 34 and 39.
abbrev pub quoted : List ℕ → Option (List ℕ)
quoted [] = none
quoted (q ∷ cs) = if q == 34 || q == 39 then (do p ← split_at q cs; some p.0) else none

unfoldable pub line_label : List ℕ → List ℕ → List ℕ → Option (List ℕ)
unfolding split_at after_text
line_label metric label line = do
  rest ← after_name metric line
  labelled ← split_at 123 rest
  block ← split_at 125 labelled.1
  found ← after_text (label ++ 61 ∷ []) block.0
  quoted found

unfoldable pub info_label : List ℕ → List ℕ → List ℕ → Option (List ℕ)
unfolding lines line_label
info_label text metric label = first_line (line_label metric label) (lines [] text)

-- `str::parse::<u32>`: digits after an optional `+`, without overflow.
abbrev is_digit : ℕ → Bool
is_digit c = leb 48 c && leb c 57

unfoldable pub digits : ℕ → List ℕ → Option ℕ
digits n [] = some n
digits n (c ∷ cs) =
    let m = n * 10 + (c - 48) in
    let rest = digits m cs in if is_digit c && ltb m u32_mod then rest else none

abbrev pub parse_u32 : List ℕ → Option ℕ
parse_u32 [] = none
parse_u32 (c ∷ cs) =
    if c == 43 then (if is_empty cs then none else digits 0 cs) else digits 0 (c ∷ cs)

unfoldable pub parse_capacity : List ℕ → Option ReportedCapacity
unfolding info_label digits
parse_capacity text = do
  let info = code_points "vllm:cache_config_info"
  block_size_str ← info_label text info (code_points "block_size")
  num_gpu_blocks_str ← info_label text info (code_points "num_gpu_blocks")
  block_size ← parse_u32 block_size_str
  num_gpu_blocks ← parse_u32 num_gpu_blocks_str
  some (record { block_size = block_size; num_gpu_blocks = num_gpu_blocks })

module _ {D S : Type 0} ⦃f : Float D⦄ (casts : Casts D S) where
  -- The share of hits among the queries since the last scrape.
  unfoldable pub hit_rate : Option (CounterSample D) → Option D → Option D → Option S
  hit_rate prev current_hits current_queries = do
    prev_sample ← prev
    cur_hits ← current_hits
    cur_queries ← current_queries
    prev_hits ← prev_sample.prefix_hits
    prev_queries ← prev_sample.prefix_queries
    let delta_queries = f.sub cur_queries prev_queries
    if f.lt f.nought delta_queries
        then some (casts.narrow (f.div (f.sub cur_hits prev_hits) delta_queries))
        else none

  unfoldable pub parse_reported :
      List ℕ → ℕ → Option (CounterSample D) → ReportedLoad S × CounterSample D
  unfolding hit_rate metric_value counter_value
  parse_reported text now prev =
      let value = λ (name : String). metric_value casts text (code_points name) in
      let counter = λ (name : String). counter_value casts text (code_points name) in
      let current_hits = counter "vllm:prefix_cache_hits" in
      let current_queries = counter "vllm:prefix_cache_queries" in
      (
        record {
          observed_at = now;
          kv_usage_perc = value "vllm:kv_cache_usage_perc" >>= λ v. some (casts.narrow v);
          num_running = value "vllm:num_requests_running" >>= λ v. some (casts.to_u32 v);
          num_waiting = value "vllm:num_requests_waiting" >>= λ v. some (casts.to_u32 v);
          preemptions = counter "vllm:num_preemptions" >>= λ v. some (casts.to_u64 v);
          prefix_hit_rate = hit_rate prev current_hits current_queries;
        },
        record { prefix_hits = current_hits; prefix_queries = current_queries },
      )
