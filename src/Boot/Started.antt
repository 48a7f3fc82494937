-- ===== src/Boot/Started.antt =====
-- A configuration that passed validation names a strategy, and its snapshot is ready for one.
use keel_llm_router.Base.{
  ℕ, zero, suc, ◌+◌, ◌^◌, ◌≤◌, ◌<◌, ◌≡◌, refl, inl, inr, ap, ◌∙◌, Option, some, List, [], ◌∷◌, map,
  String, arith, length, get_elem?, All, Elem,
}
use keel_llm_router.Base.Word.{u32_mod}
use keel_llm_router.Float.{Float}
use keel_llm_router.Backend.{Backend, Snapshot, IsWired, default_counters}
use keel_llm_router.Config.{RawConfig, RawBackend, Config}
use keel_llm_router.Config.Validate.{known_strategies, settled}
use keel_llm_router.Config.Sound.{HasRoom, IsValid}
use keel_llm_router.Cost.Score.{IsSized}
use keel_llm_router.Lease.Ledger.Balance.{IsIdle}
use keel_llm_router.Strategy.Dispatch.{RoutingStrategy}
use keel_llm_router.Boot.{backend_from, backends_from, start_snapshot, strategy_for}

-- The capacities are words, as the types of the fields say.
abbrev pub AreWords : {S : Type 0} → RawBackend S → Type 0
AreWords b = (b.kv_tokens < u32_mod) × (b.max_num_seqs < u32_mod)

-- The backend is configured and idle.
abbrev pub IsFresh : {S : Type 0} → Backend S → Type 0
IsFresh b = IsSized b × IsIdle b

module _ {S : Type 0} where
  backend_from-IsFresh :
      (i : ℕ) (b : RawBackend S) → HasRoom b → AreWords b → IsFresh (backend_from i b)
  unfolding backend_from default_counters
  backend_from-IsFresh i b room words = ground arith

  backends_from-IsFresh :
      (i : ℕ) (bs : List (RawBackend S))
      → All HasRoom bs
      → All AreWords bs
      → All IsFresh (backends_from i bs)
  unfolding backends_from
  backends_from-IsFresh i [] rooms words = tt
  backends_from-IsFresh i (b ∷ bs) rooms words =
      (backend_from-IsFresh i b rooms.0 words.0, backends_from-IsFresh (suc i) bs rooms.1 words.1)

  pub length-backends_from :
      (i : ℕ) (bs : List (RawBackend S)) → length (backends_from i bs) ≡ length bs
  unfolding backends_from
  length-backends_from i [] = refl
  length-backends_from i (b ∷ bs) = ap suc (length-backends_from (suc i) bs)

  -- The ids are the positions, as long as they are words of 16 bits.
  ids_inside :
      (n i : ℕ) (bs : List (RawBackend S))
      → i + length bs ≤ n
      → n ≤ 2 ^ 16
      → All (λ id. id < n) (map (λ (b : Backend S). b.id) (backends_from i bs))
  unfolding backends_from backend_from
  ids_inside n i [] h fits = tt
  ids_inside n i (b ∷ bs) h fits = (omega arith, ids_inside n (suc i) bs (omega arith) fits)

  id_at :
      (i j : ℕ) (bs : List (RawBackend S))
      → j < length bs
      → i + length bs ≤ 2 ^ 16
      → get_elem? (map (λ (b : Backend S). b.id) (backends_from i bs)) j ≡ some (i + j)
  unfolding backends_from backend_from
  id_at i j [] h fits = elim h [ ]
  id_at i zero (b ∷ bs) h fits = ap some (omega arith)
  id_at i (suc j) (b ∷ bs) h fits =
      id_at (suc i) j bs (omega arith) (omega arith) ∙ ap some (omega arith)

module _ {D S : Type 0} ⦃f : Float D⦄ where
  -- What `strategy_for` reads of the configuration, apart from the name.
  strategy_named : String → Config D S → Option (RoutingStrategy D)
  strategy_named name cfg = strategy_for (record cfg { strategy = name })

  named_started :
      (name : String) (cfg : Config D S)
      → Elem name known_strategies
      → (s : RoutingStrategy D) × (strategy_named name cfg ≡ some s)
  unfolding strategy_named strategy_for
  named_started name cfg (inl e) = rw e (_, refl)
  named_started name cfg (inr (inl e)) = rw e (_, refl)
  named_started name cfg (inr (inr (inl e))) = rw e (_, refl)
  named_started name cfg (inr (inr (inr (inl e)))) = rw e (_, refl)
  named_started name cfg (inr (inr (inr (inr (inl e))))) = rw e (_, refl)
  named_started name cfg (inr (inr (inr (inr (inr (inl e)))))) = rw e (_, refl)
  named_started name cfg (inr (inr (inr (inr (inr (inr m)))))) = absurd m

  abbrev pub IsReadyFor : RawConfig D S → Snapshot S → Type 0
  IsReadyFor raw snap =
      IsWired snap
      × ((j : ℕ) → j < length raw.backends → get_elem? snap.healthy j ≡ some j)
      × All IsFresh snap.backends

  -- The snapshot of a configuration that passed validation.
  pub started :
      (raw : RawConfig D S)
      → IsValid raw
      → All AreWords raw.backends
      → length raw.backends ≤ 2 ^ 16
      → IsReadyFor raw (start_snapshot (settled raw))
  unfolding start_snapshot settled
  started raw valid words fits = (
    rw (length-backends_from 0 raw.backends)
        (ids_inside (length raw.backends) 0 raw.backends (omega arith) fits),
    (λ j h. id_at 0 j raw.backends h (omega arith) ∙ ap some (omega arith)),
    backends_from-IsFresh 0 raw.backends valid.rooms words,
  )

  -- A configuration that is valid names a strategy that `main` knows.
  strategy_started :
      (raw : RawConfig D S)
      → IsValid raw
      → (s : RoutingStrategy D) × (strategy_for (settled raw) ≡ some s)
  unfolding strategy_named settled
  strategy_started raw valid = named_started raw.routing.strategy (settled raw) valid.routed.known
