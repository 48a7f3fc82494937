-- ===== src/Features.antt =====
-- crates/router-core/src/features.rs: what a routing decision knows of a request. An `Instant` is a
-- number of nanoseconds.
use keel_llm_router.Base.{ℕ, Bool, Option, String}

pub record RequestFeatures : Type 0 where
  pub model : String
  pub prompt_tokens : ℕ
  pub prompt_tokens_exact : Bool
  pub expected_output_tokens : ℕ
  pub max_tokens : Option ℕ
  pub prefix_key : Option ℕ
  pub streaming : Bool
  pub arrived_at : ℕ

pub record RouteKey : Type 0 where
  pub model : String
  pub bucket : ℕ
