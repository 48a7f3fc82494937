-- ===== src/Observe/Once.antt =====
-- The statics of `record_prompt_token_ratio` and `record_projection_drift` under threads: each atomic
-- operation is a turn of its own, and a schedule says who takes the next one.
use keel_llm_router.Base.{
  ℕ, ◌≤◌, ◌≡◌, ◌↔◌, refl, Bool, true, ◌||◌, Option, none, some, List, [], ◌∷◌, arith, length, ltb,
  if◌then◌else◌, get_elem?, set, ◌>>=◌, All, All-get, All-set, >>=-eq-some, sym,
}
use mathlib.Core.Option.{some-injective}
use keel_llm_router.Float.{Float}
use keel_llm_router.Observe.{Statics, fresh, min_samples, add_u64, milli_of, mean_of, sample}

-- Where a call stands: before each atomic operation with what it has read so far, or at its end.
pub data Pc (D : Type 0) : Type 0 where
  at_samples : ℕ → Pc D
  at_sum : ℕ → ℕ → Pc D
  at_load : ℕ → ℕ → Pc D
  at_exchange : D → ℕ → Pc D
  returned : Pc D

pub record Threads (D : Type 0) : Type 0 where
  pub statics : Statics
  pub pcs : List (Pc D)
  pub given : List (D × ℕ)

-- A call starts, or the i-th call takes its next turn.
pub data Turn (D : Type 0) : Type 0 where
  calls : D → Turn D
  turns : ℕ → Turn D

module _ {D : Type 0} ⦃f : Float D⦄ (is_off : D → Bool) where
  -- `fetch_add`, `fetch_add`, `load` with the test of the mean, and `compare_exchange`.
  unfoldable pub turn : Pc D → Statics → Pc D × Statics × Option (D × ℕ)
  turn (at_samples milli) s =
      let n = add_u64 s.samples 1 in (at_sum milli n, record s { samples = n }, none)
  turn (at_sum milli n) s =
      let sum = add_u64 s.sum_milli milli in (at_load n sum, record s { sum_milli = sum }, none)
  turn (at_load n sum) s =
      if ltb n min_samples || s.warned
      then (returned, s, none)
      else (if is_off (mean_of sum n) then at_exchange (mean_of sum n) n else returned, s, none)
  turn (at_exchange mean n) s =
      if s.warned
      then (returned, s, none)
      else (returned, record s { warned = true }, some (mean, n))
  turn returned s = (returned, s, none)

  abbrev give : Option (D × ℕ) → List (D × ℕ) → List (D × ℕ)
  give none given = given
  give (some w) given = w ∷ given

  -- `none` is a turn of a call that is not there.
  unfoldable pub step : Threads D → Turn D → Option (Threads D)
  unfolding turn
  step t (calls ratio) = some (record t { pcs = at_samples (milli_of ratio) ∷ t.pcs })
  step t (turns i) = do
    pc ← get_elem? t.pcs i
    let moved = turn pc t.statics
    some (record t { statics = moved.1; pcs = set t.pcs i moved.0; given = give moved.2 t.given })

  unfoldable pub run : Threads D → List (Turn D) → Option (Threads D)
  unfolding step
  run t [] = some t
  run t (x ∷ xs) = step t x >>= λ u. run u xs

  abbrev pub start : Threads D
  start = record { statics = fresh; pcs = []; given = [] }

  -- A warning is justified by a mean that is off over enough samples.
  abbrev pub IsJustified : D × ℕ → Type 0
  IsJustified w = (is_off w.0 ≡ true) × (min_samples ≤ w.1)

  abbrev IsSound : Pc D → Type 0
  IsSound (at_samples milli) = Unit
  IsSound (at_sum milli n) = Unit
  IsSound (at_load n sum) = Unit
  IsSound (at_exchange mean n) = IsJustified (mean, n)
  IsSound returned = Unit

  record IsOnce (t : Threads D) : Type 0 where
    counted : length t.given ≡ (if t.statics.warned then 1 else 0)
    justified : All IsJustified t.given
    sound : All IsSound t.pcs

  abbrev Moves : Statics → List (D × ℕ) → Pc D × Statics × Option (D × ℕ) → Type 0
  Moves s given (pc, s', w) =
      (length (give w given) ≡ (if s'.warned then 1 else 0))
      × All IsJustified (give w given)
      × IsSound pc

  turn-Moves :
      (pc : Pc D) (s : Statics) (given : List (D × ℕ))
      → IsSound pc
      → length given ≡ (if s.warned then 1 else 0)
      → All IsJustified given
      → Moves s given (turn pc s)
  unfolding turn
  turn-Moves (at_samples milli) s given sound c j = (c, j, tt)
  turn-Moves (at_sum milli n) s given sound c j = (c, j, tt)
  turn-Moves (at_load n sum) s given sound c j = ground arith
  turn-Moves (at_exchange mean n) s given sound c j = ground arith
  turn-Moves returned s given sound c j = (c, j, tt)

  step-IsOnce : (t u : Threads D) (x : Turn D) → IsOnce t → step t x ≡ some u → IsOnce u
  unfolding step
  step-IsOnce t u (calls ratio) h e =
      rw (sym (some-injective _ _ e))
        (record { counted = h.counted; justified = h.justified; sound = (tt, h.sound) })
  step-IsOnce t u (turns i) h e =
      let (pc, ep, last) = >>=-eq-some (get_elem? t.pcs i) _ e in
      let moved =
        turn-Moves pc t.statics t.given (All-get IsSound t.pcs i h.sound ep) h.counted
          h.justified in
      rw (sym (some-injective _ _ last)) (record {
        counted = moved.0;
        justified = moved.1;
        sound = All-set IsSound t.pcs i _ h.sound moved.2;
      })

  run-IsOnce : (t u : Threads D) (xs : List (Turn D)) → IsOnce t → run t xs ≡ some u → IsOnce u
  unfolding run
  run-IsOnce t u [] h e = rw (sym (some-injective _ _ e)) h
  run-IsOnce t u (x ∷ xs) h e =
      let (v, ev, rest) = >>=-eq-some (step t x) _ e in
      run-IsOnce v u xs (step-IsOnce t v x h ev) rest

  -- However the atomic operations of any number of calls interleave: at most one warning is given, it
  -- is given exactly when the flag is set, and it names a mean that is off over at least 50 samples.
  pub run_warns_once :
      (xs : List (Turn D)) (t : Threads D)
      → run start xs ≡ some t
      → (length t.given ≤ 1)
        × ((length t.given ≡ 1) ↔ (t.statics.warned ≡ true))
        × All IsJustified t.given
  unfolding fresh
  run_warns_once xs t e =
      let h = run-IsOnce start t xs (record { counted = refl; justified = tt; sound = tt }) e in
      (ground (arith, h.counted), ground (arith, h.counted), h.justified)

  -- A call whose four turns nothing comes between does what `sample` does.
  pub turns-eq-sample :
      (ratio : D) (s : Statics)
      → let first = turn (at_samples (milli_of ratio)) s in
        let second = turn first.0 first.1 in
        let third = turn second.0 second.1 in
        let last = turn third.0 third.1 in
        (last.0 ≡ returned) × ((last.1, last.2) ≡ sample is_off ratio s)
  unfolding turn sample
  turns-eq-sample ratio s = ground arith
