-- ===== src/Inbound/Usage.antt =====
-- What `ensure_usage_requested` sends: the decision of the client, or a request for usage.
use mathlib.Core.Option.{some-injective}
use mathlib.Core.Path.{subst}
use keel_llm_router.Base.{
  ◌≡◌, ◌≢◌, ◌↔◌, ◌⊎◌, ◌>>=◌, ap, inl, inr, sym, ◌∙◌, true, false, none, some, String, arith,
  =s=_iff, >>=-eq-some, Bool-cases, Option-cases, false≢true,
}
use keel_llm_router.Json.{
  Value, Members, no_members, a_member, object, bool, Json, get_member, insert_member, as_object,
  unwrap_or,
}
use keel_llm_router.Inbound.{already_decided, ask_usage, ensure_usage_requested}

-- The options of the client: the members of its `stream_options`, none if it is absent or no object.
abbrev pub options_of : {D : Type 0} → Members D → Members D
options_of obj = unwrap_or (get_member obj "stream_options" >>= λ so. as_object so) no_members

-- The object asks for usage, and is otherwise as the other one: its options are an object that has the
-- value true for `include_usage` and the other options as they were, and no other member has changed.
abbrev pub Asks : {D : Type 0} → Members D → Members D → Type 0
Asks {D} obj asked =
    (so : Members D) × (get_member asked "stream_options" ≡ some (object so))
    × (get_member so "include_usage" ≡ some (bool true))
    × ((other : String)
        → "include_usage" ≢ other
        → get_member so other ≡ get_member (options_of obj) other)
    × ((other : String) → "stream_options" ≢ other → get_member asked other ≡ get_member obj other)

module _ {D : Type 0} where
  get-insert_same :
      (ms : Members D) (key : String) (v : Value D)
      → get_member (insert_member ms key v) key ≡ some v
  get-insert_same no_members key v = ground (arith, =s=_iff key key)
  get-insert_same (a_member k u ms) key v = ground (arith, get-insert_same ms key v)

  get-insert_other :
      (ms : Members D) (key other : String) (v : Value D)
      → key ≢ other
      → get_member (insert_member ms key v) other ≡ get_member ms other
  get-insert_other no_members key other v h = ground (arith, =s=_iff key other)
  get-insert_other (a_member k u ms) key other v h =
      ground (
        arith,
        =s=_iff key other,
        =s=_iff k key,
        =s=_iff k other,
        get-insert_other ms key other v h,
      )

-- The member is there and is no object.
abbrev pub IsOdd : {D : Type 0} → Members D → Type 0
IsOdd {D} obj = (so : Value D) × (get_member obj "stream_options" ≡ some so) × (as_object so ≡ none)

module _ {D : Type 0} (obj : Members D) where
  IsOdd-ask : IsOdd obj ↔ ((already_decided obj ≡ false) × (ask_usage obj ≡ none))
  unfolding ask_usage
  IsOdd-ask = elim (Option-cases (get_member obj "stream_options")) [
    | inl e ↦ ground (arith, e)
    | inr (so, e) ↦ elim (Option-cases (as_object so)) [
      | inl n ↦ ground (arith, e, n)
      | inr (ms, m) ↦ ground (arith, e, m)
    ]
  ]

  -- Options that are there and are an object, or are absent, are the ones that are written back.
  options_lem :
      (so : Members D)
      → as_object (unwrap_or (get_member obj "stream_options") (object no_members)) ≡ some so
      → options_of obj ≡ so
  options_lem so e = elim (Option-cases (get_member obj "stream_options")) [
    | inl n ↦ ground (arith, n, e)
    | inr (v, m) ↦ ground (arith, m, e)
  ]

  asked_lem : (asked : Members D) → ask_usage obj ≡ some asked → Asks obj asked
  unfolding ask_usage
  asked_lem asked e =
      let (so, es, last) =
        >>=-eq-some (as_object (unwrap_or (get_member obj "stream_options") (object no_members))) _
          e in
      let written = insert_member so "include_usage" (bool true) in
      let same = some-injective _ _ last in
      subst (Asks obj) same (
        written,
        get-insert_same obj "stream_options" (object written),
        get-insert_same so "include_usage" (bool true),
        λ other h.
            get-insert_other so "include_usage" other (bool true) h
            ∙ ap (λ k. get_member k other) (sym (options_lem so es)),
        λ other h. get-insert_other obj "stream_options" other (object written) h,
      )

module _ {D B : Type 0} (j : Json D B) where
  -- On the text of an object a streaming request panics exactly if `stream_options` is there and is not
  -- an object, for instance null.
  pub ensure_panics_iff :
      (bytes : B) (obj : Members D)
      → j.from_text bytes ≡ some (object obj)
      → (ensure_usage_requested j bytes true ≡ none) ↔ IsOdd obj
  unfolding ensure_usage_requested ask_usage
  ensure_panics_iff bytes obj e = ground (arith, IsOdd-ask obj)

  -- What is sent on for a streaming request with the text of an object, if it does not panic: if the
  -- client decided on usage, with `include_usage` in a `stream_options` that is an object, the text itself;
  -- else what `serde_json` writes for an object that asks for usage, in which every other option and every
  -- member but `stream_options` is unchanged, and the text itself if that cannot be written.
  pub ensure_decided :
      (bytes : B) (obj : Members D) (out : B)
      → j.from_text bytes ≡ some (object obj)
      → ensure_usage_requested j bytes true ≡ some out
      → (already_decided obj ≡ true → out ≡ bytes)
        × (already_decided obj ≡ false
            → (asked : Members D) × Asks obj asked
              × ((j.to_text (object asked) ≡ some out)
                  ⊎ ((j.to_text (object asked) ≡ none) × (out ≡ bytes))))
  unfolding ensure_usage_requested
  ensure_decided bytes obj out e eo = elim (Bool-cases (already_decided obj)) [
    | inl t ↦
        let same : bytes ≡ out = some-injective _ _ (rw (e, t) at eo) in
        ((λ _. sym same), λ n. absurd (false≢true (sym n ∙ t)))
    | inr n ↦
        let (asked, ea, last) = >>=-eq-some (ask_usage obj) _ (rw (e, n) at eo) in
        (
          λ t. absurd (false≢true (sym n ∙ t)),
          λ _. (
            asked,
            asked_lem obj asked ea,
            elim (Option-cases (j.to_text (object asked))) [
              | inl none_written ↦ inr (none_written, ground (arith, none_written, last))
              | inr (b, written) ↦ inl (ground (arith, written, last))
            ],
          ),
        )
  ]
