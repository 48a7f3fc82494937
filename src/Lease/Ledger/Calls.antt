-- ===== src/Lease/Ledger/Calls.antt =====
-- Each call of a lease keeps the counters of its backend in step with the open leases.
use mathlib.Core.Path.{subst}
use keel_llm_router.Base.{
  ℕ, ◌%◌, ◌<◌, ◌≡◌, ◌≢◌, inl, inr, some, List, [], ◌∷◌, arith, length, length-set, lt_of_get_elem?,
  sym, ◌∙◌, get_elem?, set, erase_idx, set_cases, All, All-get, All-set, All-erase_idx,
}
use keel_llm_router.Base.Word.{u32_mod, i64_mod}
use keel_llm_router.Backend.{Backend}
use keel_llm_router.Lease.{CostLease, open_lease, observe_tokens, release, drop_lease}
use keel_llm_router.Cost.{KvModel}
use keel_llm_router.Lease.Charge.{
  IsPriced, project_fits, open_lease-IsPriced, observe_tokens-IsPriced, observe_tokens_delta,
}
use keel_llm_router.Lease.Ledger.{Fleet, count, charges}
use keel_llm_router.Lease.Ledger.Count.{
  count-set, charges-set, count-erase_idx, charges-erase_idx, count_apart, count_here, count_cons,
}

module _ {S : Type 0} where
  abbrev CountsAt : ℕ → Backend S → List CostLease → Type 0
  CountsAt p b ls =
      (b.live.inflight ≡ count p ls % u32_mod)
      × (b.live.kv_projected_tokens ≡ charges p ls % i64_mod)

  abbrev Counts : List (Backend S) → List CostLease → Type 0
  Counts bs ls = (p : ℕ) (b : Backend S) → get_elem? bs p ≡ some b → CountsAt p b ls

  abbrev pub IsPlaced : List (Backend S) → CostLease → Type 0
  IsPlaced bs l = l.backend < length bs

  -- Each counter is the count, or the sum of the charges, of the leases that are open on its backend,
  -- up to the width of the word.
  pub record IsBalanced (s : Fleet S) : Type 0 where
    pub counts : Counts s.backends s.leases
    pub priced : All IsPriced s.leases
    pub placed : All (IsPlaced s.backends) s.leases

  Counts-set :
      (bs : List (Backend S)) (ls ls' : List CostLease) (q : ℕ) (b' : Backend S)
      → Counts bs ls
      → ((p : ℕ) → q ≢ p → (count p ls' ≡ count p ls) × (charges p ls' ≡ charges p ls))
      → CountsAt q b' ls'
      → Counts (set bs q b') ls'
  Counts-set bs ls ls' q b' old apart here p c e = elim (set_cases bs q p b' c e) [
    | inl (same, is) ↦ rw (is, ← same) here
    | inr (other, e') ↦ ground (arith, old p c e', apart p other)
  ]

  IsPlaced-set :
      (bs : List (Backend S)) (q : ℕ) (b' : Backend S) (ls : List CostLease)
      → All (IsPlaced bs) ls
      → All (IsPlaced (set bs q b')) ls
  IsPlaced-set bs q b' [] h = tt
  IsPlaced-set bs q b' (l ∷ ls) h = (rw (length-set bs q b') h.0, IsPlaced-set bs q b' ls h.1)

  -- The three calls, on the backend of the lease.
  open_CountsAt :
      (q : ℕ) (b : Backend S) (prompt o_hat : ℕ) (m : KvModel) (now : ℕ) (ls : List CostLease)
      → CountsAt q b ls
      → CountsAt q
          (open_lease q b prompt o_hat m now).1
          ((open_lease q b prompt o_hat m now).0 ∷ ls)
  unfolding open_lease count charges
  open_CountsAt q b prompt o_hat m now ls h = ground arith

  observe_CountsAt :
      (i n : ℕ) (l : CostLease) (b : Backend S) (ls : List CostLease)
      → get_elem? ls i ≡ some l
      → IsPriced l
      → CountsAt l.backend b ls
      → CountsAt l.backend (observe_tokens l b n).1 (set ls i (observe_tokens l b n).0)
  observe_CountsAt i n l b ls e h c =
      let l' = (observe_tokens l b n).0 in
      let (same, inflight, fits, delta) = observe_tokens_delta l b n h (omega arith) in
      omega (
        arith,
        c,
        inflight,
        fits,
        delta,
        count-set l.backend i ls l l' e same,
        charges-set l.backend i ls l l' e same,
        (count_here l).1,
        subst (λ p. charges p (l' ∷ []) ≡ l'.charged) same (count_here l').1,
      )

  drop_CountsAt :
      (i : ℕ) (l : CostLease) (b : Backend S) (ls : List CostLease)
      → get_elem? ls i ≡ some l
      → IsPriced l
      → CountsAt l.backend b ls
      → CountsAt l.backend (drop_lease l b) (erase_idx ls i)
  unfolding drop_lease
  drop_CountsAt i l b ls e h c =
      rw (h.unreleased, release)
        (omega (
          arith,
          c,
          project_fits l.kv_model l.prompt_tokens l.o_hat h.prompt_fits h.o_hat_fits,
          h.priced,
          count-erase_idx l.backend i ls l e,
          charges-erase_idx l.backend i ls l e,
          count_here l,
        ))

  pub open-IsBalanced :
      (s : Fleet S) (p prompt o_hat : ℕ) (m : KvModel) (now : ℕ) (b : Backend S)
      → prompt < u32_mod
      → o_hat < u32_mod
      → get_elem? s.backends p ≡ some b
      → IsBalanced s
      → let opened = open_lease p b prompt o_hat m now in
        IsBalanced (record s { backends = set s.backends p opened.1; leases = opened.0 ∷ s.leases })
  unfolding open_lease
  open-IsBalanced s p prompt o_hat m now b hp ho e v =
      let opened = open_lease p b prompt o_hat m now in
      record {
        counts =
            Counts-set s.backends s.leases (opened.0 ∷ s.leases) p opened.1 v.counts
              (λ q h. count_cons q opened.0 s.leases h)
              (open_CountsAt p b prompt o_hat m now s.leases (v.counts p b e));
        priced = (open_lease-IsPriced p b prompt o_hat m now hp ho, v.priced);
        placed = (
          rw (length-set s.backends p opened.1) (lt_of_get_elem? s.backends p b e),
          IsPlaced-set s.backends p opened.1 s.leases v.placed,
        );
      }

  pub observe-IsBalanced :
      (s : Fleet S) (i n : ℕ) (l : CostLease) (b : Backend S)
      → get_elem? s.leases i ≡ some l
      → get_elem? s.backends l.backend ≡ some b
      → IsBalanced s
      → let seen = observe_tokens l b n in
        IsBalanced
          (record s { backends = set s.backends l.backend seen.1; leases = set s.leases i seen.0 })
  observe-IsBalanced s i n l b el eb v =
      let priced = All-get IsPriced s.leases i v.priced el in
      let here = v.counts l.backend b eb in
      let same = (observe_tokens_delta l b n priced (omega arith)).0 in
      let l' = (observe_tokens l b n).0 in
      let b' = (observe_tokens l b n).1 in
      record {
        counts =
            Counts-set s.backends s.leases (set s.leases i l') l.backend b' v.counts
              (λ q h. omega (
                arith,
                count-set q i s.leases l l' el same,
                charges-set q i s.leases l l' el same,
                count_apart q l h,
                count_apart q l' (λ e. h (sym same ∙ e)),
              ))
              (observe_CountsAt i n l b s.leases el priced here);
        priced = All-set IsPriced s.leases i l' v.priced (observe_tokens-IsPriced l b n priced);
        placed = IsPlaced-set s.backends l.backend b' (set s.leases i l') (
            All-set (IsPlaced s.backends) s.leases i l' v.placed
              (rw same (lt_of_get_elem? s.backends l.backend b eb)));
      }

  pub drop-IsBalanced :
      (s : Fleet S) (i : ℕ) (l : CostLease) (b : Backend S)
      → get_elem? s.leases i ≡ some l
      → get_elem? s.backends l.backend ≡ some b
      → IsBalanced s
      → IsBalanced (record s {
        backends = set s.backends l.backend (drop_lease l b);
        leases = erase_idx s.leases i;
      })
  drop-IsBalanced s i l b el eb v =
      let priced = All-get IsPriced s.leases i v.priced el in
      record {
        counts =
            Counts-set s.backends s.leases (erase_idx s.leases i) l.backend (drop_lease l b)
              v.counts
              (λ q h. omega (
                arith,
                count-erase_idx q i s.leases l el,
                charges-erase_idx q i s.leases l el,
                count_apart q l h,
              ))
              (drop_CountsAt i l b s.leases el priced (v.counts l.backend b eb));
        priced = All-erase_idx IsPriced s.leases i v.priced;
        placed =
            IsPlaced-set s.backends l.backend (drop_lease l b) (erase_idx s.leases i)
              (All-erase_idx (IsPlaced s.backends) s.leases i v.placed);
      }
