-- ===== src/Filters/Checks.antt =====
-- validate_custom_filters of src/domains/filter_definitions/service.py, and utils.py
use kupio_backend.Base.{
  ℕ, ⊤, Bool, true, false, ◌&&◌, not, Option, none, some, List, [], ◌∷◌, ◌==◌, is_none,
  if◌then◌else◌,
}
use kupio_backend.Base.Lists.{some_row}
use kupio_backend.Models.Filters.{
  FilterDefinition, FilterOptions, FilterType, text, number, boolean, choice, range,
}
use kupio_backend.Core.Errors.{invalid_custom_filters}
use kupio_backend.Core.Action.{Result, ok, err, Action, ◌>>=◌, lift}
use kupio_backend.Filters.{JsonValues, values_of, get_by_category_id}

abbrev pub min_of : Option FilterOptions → Option ℕ
min_of none = none
min_of (some o) = o.min

abbrev pub max_of : Option FilterOptions → Option ℕ
max_of none = none
max_of (some o) = o.max

module _ (json : JsonValues) where
  abbrev pub refuse_if : Result Bool → Result ⊤
  refuse_if (ok true) = err invalid_custom_filters
  refuse_if (ok false) = ok tt
  refuse_if (err e) = err e

  abbrev pub negate : Result Bool → Result Bool
  negate (ok b) = ok (not b)
  negate (err e) = err e

  abbrev pub and_then : Result ⊤ → Result ⊤ → Result ⊤
  and_then (ok u) next = next
  and_then (err e) next = err e

  -- `if "min" in bounds and value < bounds["min"]: raise …`
  abbrev pub below : ℕ → Option ℕ → Result ⊤
  below value none = ok tt
  below value (some bound) = refuse_if (json.less value bound)

  abbrev pub above : ℕ → Option ℕ → Result ⊤
  above value none = ok tt
  above value (some bound) = refuse_if (json.less bound value)

  abbrev pub is_number : ℕ → Bool
  is_number value = json.is_int_or_float value && not (json.is_bool value)

  abbrev pub with_default : Option ℕ → ℕ
  with_default none = json.empty_list
  with_default (some v) = v

  unfoldable pub validate_filter_value : FilterType → Option FilterOptions → ℕ → Result ⊤
  validate_filter_value text options value = refuse_if (ok (not (json.is_str value)))
  validate_filter_value number options value = refuse_if (ok (not (is_number value)))
  validate_filter_value boolean options value = refuse_if (ok (not (json.is_bool value)))
  validate_filter_value choice options value =
      refuse_if (negate (json.is_in value (with_default (values_of options))))
  validate_filter_value range options value =
      and_then (refuse_if (ok (not (is_number value))))
        (and_then (below value (min_of options)) (above value (max_of options)))

  -- `definitions_by_slug`: of two definitions with one slug the later stays.
  abbrev pub by_slug : ℕ → List FilterDefinition → Option FilterDefinition
  by_slug slug [] = none
  by_slug slug (d ∷ ds) = or_this (by_slug slug ds)
    where
      or_this : Option FilterDefinition → Option FilterDefinition
      or_this (some later) = some later
      or_this none = if d.slug == slug then some d else none

  abbrev pub has_key : ℕ → List (ℕ × ℕ) → Bool
  has_key slug filters = some_row (λ kv. kv.0 == slug) filters

  abbrev pub validate_item : Option FilterDefinition → ℕ → Result ⊤
  validate_item none value = ok tt
  validate_item (some d) value = validate_filter_value d.filter_type d.options value

  unfoldable pub validate_items : List FilterDefinition → List (ℕ × ℕ) → Result ⊤
  validate_items definitions [] = ok tt
  validate_items definitions ((slug, value) ∷ rest) =
      and_then (validate_item (by_slug slug definitions) value) (validate_items definitions rest)

  -- What follows `if not definitions: return`
  unfoldable pub validate_against : List FilterDefinition → List (ℕ × ℕ) → Result ⊤
  unfolding validate_items
  validate_against definitions filters =
      and_then (refuse_if (ok (some_row (λ kv. is_none (by_slug kv.0 definitions)) filters))) (
        and_then
          (refuse_if
            (ok (some_row (λ d. d.is_required && not (has_key d.slug filters)) definitions)))
          (validate_items definitions filters))

  abbrev pub filters_or_empty : Option (List (ℕ × ℕ)) → List (ℕ × ℕ)
  filters_or_empty none = []
  filters_or_empty (some filters) = filters

  abbrev pub validate_some : List FilterDefinition → Option (List (ℕ × ℕ)) → Result ⊤
  validate_some [] filters = ok tt
  validate_some (d ∷ ds) filters = validate_against (d ∷ ds) (filters_or_empty filters)

  unfoldable pub validate_custom_filters : ℕ → Option (List (ℕ × ℕ)) → Action ⊤
  unfolding get_by_category_id validate_against
  validate_custom_filters category_id custom_filters = do
    definitions ← get_by_category_id category_id
    lift (validate_some definitions custom_filters)
