-- ===== src/Filters/Validation.antt =====
-- Which custom filters validate_custom_filters accepts.
use kupio_backend.Base.{
  ℕ, ◌≡◌, refl, ap, ⊤, Bool, true, false, ◌&&◌, not, Option, none, some, List, [], ◌∷◌, is_none,
  inl, inr, ◌⊎◌, Bool-cases, Option-cases,
}
use kupio_backend.Base.Lists.{All, All-mono, All-of-some_row, some_row_none, some_row}
use kupio_backend.Models.Filters.{
  FilterDefinition, FilterOptions, FilterType, text, number, boolean, choice, range,
}
use kupio_backend.Core.Action.{Result, ok, err, lift, DbSession}
use kupio_backend.Filters.{JsonValues, values_of, definitions_of, get_by_category_id}
use kupio_backend.Filters.Checks.{
  is_number, with_default, min_of, max_of, validate_filter_value, by_slug, has_key, validate_item,
  validate_items, validate_against, validate_custom_filters, refuse_if, negate, and_then, below,
  above, filters_or_empty, validate_some,
}

module _ (json : JsonValues) where
  abbrev IsAtLeast : ℕ → Option ℕ → Type 0
  IsAtLeast value none = ⊤
  IsAtLeast value (some bound) = json.less value bound ≡ ok false

  abbrev IsAtMost : ℕ → Option ℕ → Type 0
  IsAtMost value none = ⊤
  IsAtMost value (some bound) = json.less bound value ≡ ok false

  -- What a value of each type must be
  abbrev pub Fits : FilterType → Option FilterOptions → ℕ → Type 0
  Fits text options value = json.is_str value ≡ true
  Fits number options value = is_number json value ≡ true
  Fits boolean options value = json.is_bool value ≡ true
  Fits choice options value = json.is_in value (with_default json (values_of options)) ≡ ok true
  Fits range options value =
      (is_number json value ≡ true)
      × IsAtLeast value (min_of options)
      × IsAtMost value (max_of options)

  and_then-ok : (a b : Result ⊤) → and_then json a b ≡ ok tt → (a ≡ ok tt) × (b ≡ ok tt)
  and_then-ok (ok u) b h = (refl, h)
  and_then-ok (err e) b h = cc

  refuse_if-ok : (r : Result Bool) → refuse_if json r ≡ ok tt → r ≡ ok false
  refuse_if-ok (ok true) h = cc
  refuse_if-ok (ok false) h = refl
  refuse_if-ok (err e) h = cc

  negate-ok : (r : Result Bool) → negate json r ≡ ok false → r ≡ ok true
  negate-ok (ok true) h = refl
  negate-ok (ok false) h = cc
  negate-ok (err e) h = cc

  not-ok : (b : Bool) → refuse_if json (ok (not b)) ≡ ok tt → b ≡ true
  not-ok true h = refl
  not-ok false h = cc

  below-ok : (value : ℕ) (bound : Option ℕ) → below json value bound ≡ ok tt → IsAtLeast value bound
  below-ok value none h = tt
  below-ok value (some bound) h = refuse_if-ok (json.less value bound) h

  above-ok : (value : ℕ) (bound : Option ℕ) → above json value bound ≡ ok tt → IsAtMost value bound
  above-ok value none h = tt
  above-ok value (some bound) h = refuse_if-ok (json.less bound value) h

  validate_filter_value-Fits :
      (t : FilterType) (options : Option FilterOptions) (value : ℕ)
      → validate_filter_value json t options value ≡ ok tt
      → Fits t options value
  unfolding validate_filter_value
  validate_filter_value-Fits text options value h = not-ok (json.is_str value) h
  validate_filter_value-Fits number options value h = not-ok (is_number json value) h
  validate_filter_value-Fits boolean options value h = not-ok (json.is_bool value) h
  validate_filter_value-Fits choice options value h =
      negate-ok (json.is_in value (with_default json (values_of options))) (refuse_if-ok _ h)
  validate_filter_value-Fits range options value h =
      let (typed, rest) = and_then-ok (refuse_if json (ok (not (is_number json value)))) _ h in
      let (low, high) = and_then-ok (below json value (min_of options)) _ rest in
      (
        not-ok (is_number json value) typed,
        below-ok value (min_of options) low,
        above-ok value (max_of options) high,
      )

  below-holds :
      (value : ℕ) (bound : Option ℕ) → IsAtLeast value bound → below json value bound ≡ ok tt
  below-holds value none h = refl
  below-holds value (some bound) h = rw h refl

  above-holds :
      (value : ℕ) (bound : Option ℕ) → IsAtMost value bound → above json value bound ≡ ok tt
  above-holds value none h = refl
  above-holds value (some bound) h = rw h refl

  Fits-validate_filter_value :
      (t : FilterType) (options : Option FilterOptions) (value : ℕ)
      → Fits t options value
      → validate_filter_value json t options value ≡ ok tt
  unfolding validate_filter_value
  Fits-validate_filter_value text options value h = rw h refl
  Fits-validate_filter_value number options value h = rw h refl
  Fits-validate_filter_value boolean options value h = rw h refl
  Fits-validate_filter_value choice options value h = rw h refl
  Fits-validate_filter_value range options value (typed, low, high) =
      rw (typed, below-holds value (min_of options) low, above-holds value (max_of options) high)
        refl

  -- A filter of a definition with its slug, and of a value that fits it
  abbrev pub IsItem : List FilterDefinition → ℕ × ℕ → Type 0
  IsItem definitions kv =
      (d : FilterDefinition) × (by_slug json kv.0 definitions ≡ some d)
      × Fits d.filter_type d.options kv.1

  -- Every filter is defined and fits, and every required one is there.
  pub record IsValid (definitions : List FilterDefinition) (filters : List (ℕ × ℕ)) : Type 0 where
    pub items : All (IsItem definitions) filters
    pub complete : All (λ d. d.is_required ≡ true → has_key json d.slug filters ≡ true) definitions

  items-ok :
      (definitions : List FilterDefinition) (filters : List (ℕ × ℕ))
      → some_row (λ kv. is_none (by_slug json kv.0 definitions)) filters ≡ false
      → validate_items json definitions filters ≡ ok tt
      → All (IsItem definitions) filters
  unfolding validate_items some_row
  items-ok definitions [] known h = tt
  items-ok definitions ((slug, value) ∷ rest) known h =
      let (here, later) =
        and_then-ok (validate_item json (by_slug json slug definitions) value) _ h in
      elim (Option-cases (by_slug json slug definitions)) [
        | inl missing ↦ absurd (let k = rw missing at known in cc)
        | inr (d, found) ↦ (
          (d, found, validate_filter_value-Fits d.filter_type d.options value (rw found at here)),
          items-ok definitions rest (let k = rw found at known in k) later,
        )
      ]

  holds-items :
      (definitions : List FilterDefinition) (filters : List (ℕ × ℕ))
      → All (IsItem definitions) filters
      → (some_row (λ kv. is_none (by_slug json kv.0 definitions)) filters ≡ false)
        × (validate_items json definitions filters ≡ ok tt)
  unfolding validate_items some_row
  holds-items definitions [] h = (refl, refl)
  holds-items definitions ((slug, value) ∷ rest) ((d, found, fits), later) =
      let (known, checked) = holds-items definitions rest later in
      let here = Fits-validate_filter_value d.filter_type d.options value fits in
      (rw found known, rw (found, here) checked)

  complete-ok :
      (filters : List (ℕ × ℕ)) (ds : List FilterDefinition)
      → some_row (λ d. d.is_required && not (has_key json d.slug filters)) ds ≡ false
      → All (λ d. d.is_required ≡ true → has_key json d.slug filters ≡ true) ds
  complete-ok filters ds h =
      All-mono ds
        (λ d (fine : (d.is_required && not (has_key json d.slug filters)) ≡ false) needed.
          not-ok (has_key json d.slug filters)
            (rw needed at (ap (λ b. refuse_if json (ok b)) fine)))
        (All-of-some_row _ ds h)

  complete-holds :
      (filters : List (ℕ × ℕ)) (ds : List FilterDefinition)
      → All (λ d. d.is_required ≡ true → has_key json d.slug filters ≡ true) ds
      → some_row (λ d. d.is_required && not (has_key json d.slug filters)) ds ≡ false
  complete-holds filters ds h = some_row_none _ ds (
      All-mono ds
        (λ d (given : d.is_required ≡ true → has_key json d.slug filters ≡ true).
          elim (Bool-cases d.is_required) [
            | inl needed ↦ rw (needed, given needed) refl
            | inr optional ↦ rw optional refl
          ])
        h)

  against-IsValid :
      (ds : List FilterDefinition) (filters : List (ℕ × ℕ))
      → (validate_against json ds filters ≡ ok tt → IsValid ds filters)
        × (IsValid ds filters → validate_against json ds filters ≡ ok tt)
  unfolding validate_against
  against-IsValid ds filters = (
    λ h.
        let (known, rest) =
          and_then-ok
            (refuse_if json (ok (some_row (λ kv. is_none (by_slug json kv.0 ds)) filters))) _ h in
        let (required, checked) =
          and_then-ok
            (refuse_if json
              (ok (some_row (λ d. d.is_required && not (has_key json d.slug filters)) ds)))
            _ rest in
        let known' : some_row (λ kv. is_none (by_slug json kv.0 ds)) filters ≡ false =
          unwrap (refuse_if-ok (ok _) known) in
        record {
          items = items-ok ds filters known' checked;
          complete = complete-ok filters ds (unwrap (refuse_if-ok (ok _) required));
        },
    λ valid.
        let (known, checked) = holds-items ds filters valid.items in
        rw (known, complete-holds filters ds valid.complete) checked,
  )
    where
      unwrap : {b : Bool} → ok b ≡ ok false → b ≡ false
      unwrap h = cc

  -- A category without definitions accepts any custom filters; otherwise filters are accepted exactly if
  -- each has a definition of the category whose type and options its value fits, within the bounds of
  -- a range and among the values of a choice, and each required one is there. Nothing changes.
  pub validate_custom_filters-IsValid :
      (category_id : ℕ) (filters : Option (List (ℕ × ℕ))) (s : DbSession)
      → (validate_custom_filters json category_id filters s ≡ (ok tt, s)
          → (definitions_of category_id s.working ≡ [])
            ⊎ IsValid (definitions_of category_id s.working) (filters_or_empty json filters))
        × ((definitions_of category_id s.working ≡ [])
              ⊎ IsValid (definitions_of category_id s.working) (filters_or_empty json filters)
            → validate_custom_filters json category_id filters s ≡ (ok tt, s))
        × ((validate_custom_filters json category_id filters s).1 ≡ s)
  unfolding validate_custom_filters get_by_category_id
  validate_custom_filters-IsValid category_id filters s =
      on_list (definitions_of category_id s.working)
    where
      on_list :
          (ds : List FilterDefinition)
          → (lift (validate_some json ds filters) s ≡ lift (ok tt) s
              → (ds ≡ []) ⊎ IsValid ds (filters_or_empty json filters))
            × ((ds ≡ []) ⊎ IsValid ds (filters_or_empty json filters)
                → lift (validate_some json ds filters) s ≡ lift (ok tt) s)
            × (s ≡ s)
      on_list [] = (λ h. inl refl, λ h. refl, refl)
      on_list (d ∷ ds) = (
        λ h. inr ((against-IsValid (d ∷ ds) (filters_or_empty json filters)).0 (ap (λ q. q.0) h)),
        λ h. elim h [
          | inl nothing ↦ absurd (cc)
          | inr valid ↦
              ap (λ r. (r, s)) ((against-IsValid (d ∷ ds) (filters_or_empty json filters)).1 valid)
        ],
        refl,
      )
