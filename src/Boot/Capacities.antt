-- ===== src/Boot/Capacities.antt =====
-- crates/router-bin/src/main.rs: `validate_backend_capacities`, which compares what each backend reports at
-- the start with what is configured for it. The product of the report is a `u32`, which wraps.
use mathlib.Core.Option.{some-injective}
use keel_llm_router.Base.{
  ℕ, ◌*◌, ◌%◌, ◌≡◌, ◌↔◌, refl, inl, inr, Bool, true, false, not, ◌||◌, none, some, List, [], ◌∷◌,
  arith, Result, ok, err, ◌==◌, All, Option-cases, ok-injective, sym, ap, ◌∙◌,
}
use keel_llm_router.Base.Word.{u32_mod}
use keel_llm_router.Backend.{Backend}
use keel_llm_router.Signal.{ScrapeError}
use keel_llm_router.Signal.Scrape.{ReportedCapacity, parse_capacity}

none-ne-some : {A : Type 0} {a : A} → none ≡ some a → ⊥
none-ne-some e = cc

module _ {S : Type 0} where
  -- A backend that was not reached, or reports no capacity, is passed over.
  unfoldable pub mismatches : Backend S → Result ScrapeError (List ℕ) → Bool
  mismatches backend (err e) = false
  mismatches backend (ok text) = elim (parse_capacity text) [
    | none ↦ false
    | some cap ↦
        not ((cap.block_size * cap.num_gpu_blocks) % u32_mod == backend.caps.kv_capacity_tokens)
  ]

  -- The loop over the backends, and whether the router may start.
  unfoldable pub any_mismatch : List (Backend S × Result ScrapeError (List ℕ)) → Bool → Bool
  unfolding mismatches
  any_mismatch [] found = found
  any_mismatch (b ∷ bs) found = any_mismatch bs (found || mismatches b.0 b.1)

  unfoldable pub validate_backend_capacities : List (Backend S × Result ScrapeError (List ℕ)) → Bool
  unfolding any_mismatch
  validate_backend_capacities backends = not (any_mismatch backends false)

  -- If the metrics of the backend were fetched and name a capacity, it is the one that is configured.
  abbrev pub Agrees : Backend S × Result ScrapeError (List ℕ) → Type 0
  Agrees (b, scraped) =
      (text : List ℕ) (cap : ReportedCapacity)
      → scraped ≡ ok text
      → parse_capacity text ≡ some cap
      → (cap.block_size * cap.num_gpu_blocks) % u32_mod ≡ b.caps.kv_capacity_tokens

  Agrees-iff :
      (b : Backend S) (scraped : Result ScrapeError (List ℕ))
      → (mismatches b scraped ≡ false) ↔ Agrees (b, scraped)
  unfolding mismatches
  Agrees-iff b (err e) = ((λ h text cap n. cc), λ h. refl)
  Agrees-iff b (ok t) = elim (Option-cases (parse_capacity t)) [
    | inl e ↦ (
      λ h text cap same p.
          absurd (none-ne-some (sym e ∙ ap parse_capacity (ok-injective same) ∙ p)),
      λ h. rw (e, mismatches) refl,
    )
    | inr (c, e) ↦ (
      λ h text cap same p.
          rw (sym (some-injective _ _ (sym e ∙ ap parse_capacity (ok-injective same) ∙ p)))
            (equal_of c (rw (e, mismatches) at h)),
      λ h. rw (e, mismatches) (equal_to c (h t c refl e)),
    )
  ]
    where
      equal_of :
          (c : ReportedCapacity)
          → not ((c.block_size * c.num_gpu_blocks) % u32_mod == b.caps.kv_capacity_tokens) ≡ false
          → (c.block_size * c.num_gpu_blocks) % u32_mod ≡ b.caps.kv_capacity_tokens
      equal_of c h = ground (arith, h)

      equal_to :
          (c : ReportedCapacity)
          → (c.block_size * c.num_gpu_blocks) % u32_mod ≡ b.caps.kv_capacity_tokens
          → not ((c.block_size * c.num_gpu_blocks) % u32_mod == b.caps.kv_capacity_tokens) ≡ false
      equal_to c h = ground (arith, h)

  found_iff :
      (bs : List (Backend S × Result ScrapeError (List ℕ))) (found : Bool)
      → (any_mismatch bs found ≡ false) ↔ ((found ≡ false) × All Agrees bs)
  unfolding any_mismatch
  found_iff [] found = ground arith
  found_iff (b ∷ bs) found =
      ground (arith, Agrees-iff b.0 b.1, found_iff bs (found || mismatches b.0 b.1))

  -- `validate_backend_capacities` lets the start go on exactly if every backend that was reached and names
  -- its capacity has that capacity configured, as a product that wraps at 2 ^ 32.
  pub capacities_iff :
      (bs : List (Backend S × Result ScrapeError (List ℕ)))
      → (validate_backend_capacities bs ≡ true) ↔ All Agrees bs
  unfolding validate_backend_capacities
  capacities_iff bs = ground (arith, found_iff bs false)
