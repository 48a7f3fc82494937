-- ===== src/Cost.antt =====
-- crates/router-core/src/cost.rs: what a request is charged, how full a backend is, and the score that
-- the pressure strategy minimises.
pub mod Score
use keel_llm_router.Base.{ℕ, ◌+◌, if◌then◌else◌}
use keel_llm_router.Base.Word.{add_i64, max_zero}
use keel_llm_router.Float.{Float, fmax}
use keel_llm_router.Backend.{Backend}

abbrev pub recharge_step : ℕ
recharge_step = 50

pub data KvModel : Type 0 where
  prompt_only prompt_plus_output : KvModel

unfoldable pub project : KvModel → ℕ → ℕ → ℕ
project prompt_only prompt_tokens o_hat = prompt_tokens
project prompt_plus_output prompt_tokens o_hat = add_i64 prompt_tokens o_hat

module _ {D : Type 0} ⦃f : Float D⦄ where
  abbrev pub default_theta : D
  default_theta = f.thousandths 550

  abbrev pub default_penalty : D
  default_penalty = f.thousandths 10_000

  abbrev pub default_sigma : D
  default_sigma = f.thousandths 950

  unfoldable pub occupancy : {S : Type 0} → Backend S → D
  occupancy b =
      let slots = f.div (f.of_ℕ b.live.inflight) (f.of_ℕ b.caps.max_num_seqs) in
      let mem =
        f.div (f.of_ℕ (max_zero b.live.kv_projected_tokens)) (f.of_ℕ b.caps.kv_capacity_tokens) in
      fmax slots mem

  unfoldable pub pressure_score : D → D → D → D
  pressure_score u theta penalty =
      let over = f.div (f.sub u theta) (f.sub f.unit theta) in
      if f.lt u theta then u else f.add u (f.mul (f.mul penalty over) over)
