-- ===== src/Lease/Ledger/Count.antt =====
-- How the counts of the open leases change as the list of leases does.
use keel_llm_router.Base.{
  ℕ, zero, suc, ◌+◌, ◌≡◌, ◌≢◌, refl, some, List, [], ◌∷◌, arith, get_elem?, set, erase_idx,
}
use keel_llm_router.Lease.{CostLease}
use keel_llm_router.Lease.Ledger.{count, charges}

-- One lease's share of what is counted at `p`.
pub count-set :
    (p i : ℕ) (ls : List CostLease) (l l' : CostLease)
    → get_elem? ls i ≡ some l
    → l'.backend ≡ l.backend
    → count p (set ls i l') ≡ count p ls
unfolding count
count-set p i [] l l' e h = cc
count-set p zero (x ∷ ls) l l' e h = ground arith
count-set p (suc i) (x ∷ ls) l l' e h = ground (arith, count-set p i ls l l' e h)

pub charges-set :
    (p i : ℕ) (ls : List CostLease) (l l' : CostLease)
    → get_elem? ls i ≡ some l
    → l'.backend ≡ l.backend
    → charges p (set ls i l') + charges p (l ∷ []) ≡ charges p ls + charges p (l' ∷ [])
unfolding charges
charges-set p i [] l l' e h = cc
charges-set p zero (x ∷ ls) l l' e h = ground arith
charges-set p (suc i) (x ∷ ls) l l' e h = ground (arith, charges-set p i ls l l' e h)

pub count-erase_idx :
    (p i : ℕ) (ls : List CostLease) (l : CostLease)
    → get_elem? ls i ≡ some l
    → count p ls ≡ count p (l ∷ []) + count p (erase_idx ls i)
unfolding count
count-erase_idx p i [] l e = cc
count-erase_idx p zero (x ∷ ls) l e = ground arith
count-erase_idx p (suc i) (x ∷ ls) l e = ground (arith, count-erase_idx p i ls l e)

pub charges-erase_idx :
    (p i : ℕ) (ls : List CostLease) (l : CostLease)
    → get_elem? ls i ≡ some l
    → charges p ls ≡ charges p (l ∷ []) + charges p (erase_idx ls i)
unfolding charges
charges-erase_idx p i [] l e = cc
charges-erase_idx p zero (x ∷ ls) l e = ground arith
charges-erase_idx p (suc i) (x ∷ ls) l e = ground (arith, charges-erase_idx p i ls l e)

pub count_apart :
    (p : ℕ) (l : CostLease) → l.backend ≢ p → (count p (l ∷ []) ≡ 0) × (charges p (l ∷ []) ≡ 0)
unfolding count charges
count_apart p l h = ground arith

pub count_here :
    (l : CostLease) → (count l.backend (l ∷ []) ≡ 1) × (charges l.backend (l ∷ []) ≡ l.charged)
unfolding count charges
count_here l = ground arith

pub count_cons :
    (p : ℕ) (l : CostLease) (ls : List CostLease)
    → l.backend ≢ p
    → (count p (l ∷ ls) ≡ count p ls) × (charges p (l ∷ ls) ≡ charges p ls)
unfolding count charges
count_cons p l ls h = ground arith

pub no_count : (p : ℕ) (ls : List CostLease) → count p ls ≡ 0 → charges p ls ≡ 0
unfolding count charges
no_count p [] h = refl
no_count p (l ∷ ls) h = ground (arith, no_count p ls)
