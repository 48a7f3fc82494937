-- ===== src/Observe/Mean.antt =====
-- When the warning of a token count that does not match is given, over a log of calls one after another.
use mathlib.Core.Path.{subst}
use keel_llm_router.Base.{
  ℕ, ◌≤◌, ◌<◌, ◌^◌, ◌+◌, ◌≡◌, ◌↔◌, ◌⊎◌, refl, sym, ap, true, List, String, [], ◌∷◌, ◌++◌, arith,
  length, ◌==◌, if◌then◌else◌, inl, inr,
}
use keel_llm_router.Float.{Float}
use keel_llm_router.Observe.{
  Call, request_result, backend_error, inflight, occupancy, occupancy_tick, kv_projected,
  decision_duration, router_overhead, prompt_token_ratio, output_length_ratio, scrape_result,
  scraped_metrics, projection_drift, saturated_dispatch, decision_trace, Warning,
  token_count_mismatch, drift, Statics, fresh, Monitor, sample, is_mismatch,
  record_prompt_token_ratio, record_projection_drift, perform, perform_all,
}

-- Before any call.
abbrev pub started : {D : Type 0} → Monitor D
started = record { tokens = fresh; drifts = fresh; metrics = []; warnings = [] }

-- How many of the warnings are of the token count.
abbrev pub mismatches : {D : Type 0} → List (Warning D) → ℕ
mismatches [] = 0
mismatches (token_count_mismatch mean n ∷ ws) = 1 + mismatches ws
mismatches (drift mean n warn_ratio key ∷ ws) = mismatches ws

module _ {D : Type 0} ⦃f : Float D⦄ where
  -- The ratios that a log reports, the last one first. A count of zero reports none.
  abbrev pub ratio_of : {S : Type 0} → Call D S → List D → List D
  ratio_of (prompt_token_ratio estimated reported) rest =
      if reported == 0 then rest else (f.div (f.of_ℕ estimated) (f.of_ℕ reported) ∷ rest)
  ratio_of call rest = rest

  abbrev pub ratios : {S : Type 0} → List (Call D S) → List D
  ratios [] = []
  ratios (c ∷ log) = ratio_of c (ratios log)

  -- The sum of the ratios, each rounded to thousandths.
  abbrev pub total : List D → ℕ
  total [] = 0
  total (r ∷ rs) = total rs + f.round_u64 (f.mul r (f.of_ℕ 1000))

  -- There are at least 50 ratios, and their mean, of the ratios rounded to thousandths, is further than 0.1
  -- from one.
  abbrev pub IsOffAt : List D → Type 0
  IsOffAt rs =
      (50 ≤ length rs)
      × (f.lt (f.thousandths 100) (
            f.abs
              (f.sub (f.div (f.div (f.of_ℕ (total rs)) (f.of_ℕ 1000)) (f.of_ℕ (length rs))) f.unit))
          ≡ true)

  -- At some call there were enough samples, and their mean was off.
  abbrev pub WasOff : List D → Type 0
  WasOff rs = (later : List D) × (earlier : List D) × (rs ≡ later ++ earlier) × IsOffAt earlier

  -- The statics after the ratios, one call after another.
  abbrev after : List D → Statics
  after [] = fresh
  after (r ∷ rs) = (sample is_mismatch r (after rs)).0

  after_counts :
      (rs : List D)
      → length rs < 2 ^ 64
      → total rs < 2 ^ 64
      → ((after rs).samples ≡ length rs) × ((after rs).sum_milli ≡ total rs)
  unfolding sample fresh
  after_counts [] h small = (refl, refl)
  after_counts (r ∷ rs) h small = ground (arith, after_counts rs (omega arith) (omega arith))

  -- The flag after one more ratio.
  after_warned :
      (r : D) (rs : List D)
      → length rs + 1 < 2 ^ 64
      → total (r ∷ rs) < 2 ^ 64
      → ((after (r ∷ rs)).warned ≡ true) ↔ (((after rs).warned ≡ true) ⊎ IsOffAt (r ∷ rs))
  unfolding sample is_mismatch
  after_warned r rs h small = ground (arith, after_counts rs (omega arith) (omega arith))

  -- A longer list was off where its tail was, or where it is off as a whole.
  WasOff-cons : (r : D) (rs : List D) → WasOff (r ∷ rs) ↔ (WasOff rs ⊎ IsOffAt (r ∷ rs))
  WasOff-cons r rs = (into, back)
    where
      into : WasOff (r ∷ rs) → WasOff rs ⊎ IsOffAt (r ∷ rs)
      into ([], earlier, e, off) = inr (subst IsOffAt (sym e) off)
      into (x ∷ later, earlier, e, off) =
          inl (later, earlier, ap (elim [ [] ↦ [] | y ∷ ys ↦ ys ]) e, off)

      back : WasOff rs ⊎ IsOffAt (r ∷ rs) → WasOff (r ∷ rs)
      back (inl (later, earlier, e, off)) = (r ∷ later, earlier, ap (λ k. r ∷ k) e, off)
      back (inr off) = ([], r ∷ rs, refl, off)

  after-WasOff :
      (rs : List D)
      → length rs < 2 ^ 64
      → total rs < 2 ^ 64
      → ((after rs).warned ≡ true) ↔ WasOff rs
  unfolding fresh
  after-WasOff [] h small =
      (λ e. cc, λ (later, earlier, e, off). absurd (none_early later earlier e off.0))
    where
      none_early : (later earlier : List D) → [] ≡ later ++ earlier → ¬ (50 ≤ length earlier)
      none_early [] [] e h = omega arith
      none_early [] (x ∷ xs) e h = cc
      none_early (x ∷ xs) earlier e h = cc
  after-WasOff (r ∷ rs) h small =
      let (older, newer) = after-WasOff rs (omega arith) (omega arith) in
      let (out, back) = after_warned r rs (omega arith) small in
      let (split, join) = WasOff-cons r rs in
      (
        λ e. join (elim (out e) [ inl w ↦ inl (older w) | inr now ↦ inr now ]),
        λ w. back (elim (split w) [ inl was ↦ inl (newer was) | inr now ↦ inr now ]),
      )

  -- The statics of the token warning follow the ratios, and the warnings follow the flag.
  abbrev Follows : List D → Monitor D → Type 0
  Follows rs m =
      (m.tokens ≡ after rs) × (mismatches m.warnings ≡ (if (after rs).warned then 1 else 0))

  ratio-Follows :
      (estimated reported : ℕ) (rs : List D) (m : Monitor D)
      → Follows rs m
      → Follows
          (if reported == 0 then rs else (f.div (f.of_ℕ estimated) (f.of_ℕ reported) ∷ rs))
          (record_prompt_token_ratio estimated reported m)
  unfolding record_prompt_token_ratio sample
  ratio-Follows estimated reported rs m h = ground arith

  drift-Follows :
      (key : String) (ratio warn_ratio : D) (rs : List D) (m : Monitor D)
      → Follows rs m
      → Follows rs (record_projection_drift key ratio warn_ratio m)
  unfolding record_projection_drift
  drift-Follows key ratio warn_ratio rs m h = ground arith

  perform-Follows :
      {S : Type 0} (widen : S → D) (c : Call D S) (rs : List D) (m : Monitor D)
      → Follows rs m
      → Follows (ratio_of c rs) (perform widen c m)
  unfolding perform
  perform-Follows widen (prompt_token_ratio estimated reported) rs m h =
      ratio-Follows estimated reported rs m h
  perform-Follows widen (projection_drift key ratio warn_ratio) rs m h =
      drift-Follows key ratio warn_ratio rs m h
  perform-Follows widen (request_result b) rs m h = h
  perform-Follows widen (backend_error key kind) rs m h = h
  perform-Follows widen (inflight key n) rs m h = h
  perform-Follows widen (occupancy key u) rs m h = h
  perform-Follows widen (occupancy_tick key b) rs m h = h
  perform-Follows widen (kv_projected key n) rs m h = h
  perform-Follows widen (decision_duration s x) rs m h = h
  perform-Follows widen (router_overhead x) rs m h = h
  perform-Follows widen (output_length_ratio e a) rs m h = h
  perform-Follows widen (scrape_result key r x) rs m h = h
  perform-Follows widen (scraped_metrics key r now) rs m h = h
  perform-Follows widen saturated_dispatch rs m h = h
  perform-Follows widen (decision_trace t) rs m h = h

  perform_all-Follows :
      {S : Type 0} (widen : S → D) (log : List (Call D S))
      → Follows (ratios log) (perform_all widen log started)
  unfolding perform_all fresh
  perform_all-Follows widen [] = (refl, refl)
  perform_all-Follows widen (c ∷ log) =
      perform-Follows widen c (ratios log) (perform_all widen log started)
        (perform_all-Follows widen log)

  -- Over any log of calls of the record routines with fewer than 2 ^ 64 reported prompt counts, whose
  -- ratios, each rounded to thousandths, sum to less than 2 ^ 64 thousandths: the mismatch of the token
  -- counts is warned of at most once; and it is warned of exactly when, at some call, there were at least
  -- 50 ratios up to it and the mean of those, each rounded to thousandths before it is summed, was further
  -- than 0.1 from one, as the float operations compute the mean and its distance.
  pub mismatch_iff_off :
      {S : Type 0} (widen : S → D) (log : List (Call D S))
      → length (ratios log) < 2 ^ 64
      → total (ratios log) < 2 ^ 64
      → let n = mismatches (perform_all widen log started).warnings in
        (n ≤ 1) × ((n ≡ 1) ↔ WasOff (ratios log))
  mismatch_iff_off widen log few small =
      let counted = (perform_all-Follows widen log).1 in
      let (out, back) = after-WasOff (ratios log) few small in
      let flag = (after (ratios log)).warned in
      let set_iff : (mismatches (perform_all widen log started).warnings ≡ 1) ↔ (flag ≡ true) =
        ground (arith, counted) in
      (ground (arith, counted), (λ e. out (set_iff.0 e), λ w. set_iff.1 (back w)))
