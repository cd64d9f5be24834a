-- ===== src/Filters.antt =====
-- src/domains/filter_definitions/service.py and repository.py
pub mod Checks
pub mod Validation
pub mod Choices
mod Tests
use kupio_backend.Base.{
  ℕ, ⊤, Bool, true, false, ◌&&◌, ◌||◌, not, Option, none, some, List, [], ◌∷◌, ◌==◌, ltb, is_none,
  is_some, if◌then◌else◌,
}
use kupio_backend.Base.Lists.{select, some_row}
use kupio_backend.Base.Sorted.{order_by}
use kupio_backend.Models.{Database}
use kupio_backend.Models.Categories.{Category}
use kupio_backend.Models.Filters.{
  FilterDefinition, FilterOptions, FilterType, text, number, boolean, choice, range,
}
use kupio_backend.Core.Errors.{
  filter_definition_not_found, duplicate_filter_slug, invalid_custom_filters,
}
use kupio_backend.Core.Action.{
  Result, ok, err, Action, DbSession, ◌>>=◌, ◌>>◌, pure, lift, raise, raise_if, or_raise, in_uow,
}
use kupio_backend.Core.Repository
use kupio_backend.Core.Repository.{Model}

-- What the code asks of JSON values; a comparison or a membership test may raise.
pub record JsonValues : Type 0 where
  pub is_str : ℕ → Bool
  pub is_int_or_float : ℕ → Bool
  pub is_bool : ℕ → Bool
  pub is_list : ℕ → Bool
  pub truthy : ℕ → Bool
  -- `[]`
  pub empty_list : ℕ
  -- `value in options` and `a < b`
  pub is_in : ℕ → ℕ → Result Bool
  pub less : ℕ → ℕ → Result Bool

-- Unique are the primary key, and in a category the slug and the display order.
abbrev pub filter_definitions : Model FilterDefinition
filter_definitions = record {
  rows = λ db. db.filter_definitions;
  with_rows = λ ds db. record db { filter_definitions = ds };
  is_deleted = λ _. false;
  delete_at = λ _ d. d;
  conflicts = λ a b.
      a.id == b.id
      || (a.category_id == b.category_id
          && (a.slug == b.slug || a.display_order == b.display_order));
}

unfoldable pub get_by_id : ℕ → Action (Option FilterDefinition)
get_by_id filter_id = Repository.get filter_definitions (λ d. d.id == filter_id)

abbrev pub shown_before : FilterDefinition → FilterDefinition → Bool
shown_before a b = ltb a.display_order b.display_order

abbrev pub definitions_of : ℕ → Database → List FilterDefinition
definitions_of category_id db =
    order_by shown_before (select (λ d. d.category_id == category_id) db.filter_definitions)

unfoldable pub get_by_category_id : ℕ → Action (List FilterDefinition)
get_by_category_id category_id s = (ok (definitions_of category_id s.working), s)

unfoldable pub get_by_category_and_slug : (category_id slug : ℕ) → Action (Option FilterDefinition)
get_by_category_and_slug category_id slug =
    Repository.get filter_definitions (λ d. d.category_id == category_id && d.slug == slug)

unfoldable pub create : FilterDefinition → Action FilterDefinition
create definition = Repository.add filter_definitions definition

unfoldable pub delete_by_id : ℕ → Action Bool
delete_by_id filter_id = Repository.delete filter_definitions (λ d. d.id == filter_id)

-- The fields of `FilterDefinitionUpdateRequest`; none is one that was not sent. `options` may be sent as
-- null. A slug that is sent as null would set the column to NULL, which the database refuses.
pub record FilterUpdate : Type 0 where
  pub slug : Option ℕ
  pub label : Option ℕ
  pub filter_type : Option FilterType
  pub options : Option (Option FilterOptions)
  pub is_required : Option Bool
  pub display_order : Option ℕ

abbrev pub or_old : {A : Type 0} → Option A → A → A
or_old none old = old
or_old (some new) old = new

abbrev pub set_columns : FilterUpdate → FilterDefinition → FilterDefinition
set_columns updates d = record d {
  slug = or_old updates.slug d.slug;
  label = or_old updates.label d.label;
  filter_type = or_old updates.filter_type d.filter_type;
  options = or_old updates.options d.options;
  is_required = or_old updates.is_required d.is_required;
  display_order = or_old updates.display_order d.display_order;
}

unfoldable pub update_by_id : ℕ → FilterUpdate → Action (Option FilterDefinition)
update_by_id filter_id updates =
    Repository.update_checked filter_definitions (λ d. d.id == filter_id) (set_columns updates)

unfoldable pub get_definitions_for_category : Category → Action (List FilterDefinition)
unfolding get_by_category_id
get_definitions_for_category category = get_by_category_id category.id

unfoldable pub get_definition : (category_id filter_id : ℕ) → Action FilterDefinition
unfolding get_by_id
get_definition category_id filter_id = do
  found ← get_by_id filter_id
  definition ← or_raise found filter_definition_not_found
  raise_if (not (definition.category_id == category_id)) filter_definition_not_found
  pure definition

unfoldable pub create_definition : FilterDefinition → Action FilterDefinition
unfolding get_by_category_and_slug create
create_definition definition = do
  taken ← get_by_category_and_slug definition.category_id definition.slug
  raise_if (is_some taken) duplicate_filter_slug
  in_uow (create definition)

unfoldable pub delete_definition : ℕ → Action Bool
unfolding delete_by_id
delete_definition filter_id = in_uow (delete_by_id filter_id)

-- `{}` is falsy, a dict with any key is not.
abbrev pub is_empty : FilterOptions → Bool
is_empty o = is_none o.values && is_none o.min && is_none o.max && not o.others

-- `filter_data.options or definition.options`
abbrev pub options_or : Option (Option FilterOptions) → Option FilterOptions → Option FilterOptions
options_or none old = old
options_or (some none) old = old
options_or (some (some o)) old = if is_empty o then old else some o

abbrev pub values_of : Option FilterOptions → Option ℕ
values_of none = none
values_of (some o) = o.values

abbrev pub is_choice : FilterType → Bool
is_choice choice = true
is_choice _ = false

module _ (json : JsonValues) where
  -- Whether `validate_select_options` returns
  abbrev pub are_select_options : Option FilterOptions → Bool
  are_select_options options = is_list_of (values_of options)
    where
      is_list_of : Option ℕ → Bool
      is_list_of none = false
      is_list_of (some v) = json.truthy v && json.is_list v

  -- The schema's validator, which looks at the request alone; a request that fails it is not handled.
  abbrev pub validate_options : FilterUpdate → Bool
  validate_options updates = checked updates.filter_type updates.options
    where
      checked : Option FilterType → Option (Option FilterOptions) → Bool
      checked (some choice) (some (some o)) = are_select_options (some o)
      checked _ _ = true

  abbrev slug_taken : FilterDefinition → Option ℕ → Action Bool
  slug_taken definition none = pure false
  slug_taken definition (some new_slug) =
      if new_slug == definition.slug
      then pure false
      else (get_by_category_and_slug definition.category_id new_slug >>= λ found.
          pure (is_some found))

  unfoldable pub update_definition :
      FilterDefinition → FilterUpdate → Action (Option FilterDefinition)
  unfolding get_by_category_and_slug update_by_id
  update_definition definition filter_data = do
    taken ← slug_taken definition filter_data.slug
    raise_if taken duplicate_filter_slug
    raise_if
        (is_choice (or_old filter_data.filter_type definition.filter_type)
          && not (are_select_options (options_or filter_data.options definition.options)))
        invalid_custom_filters
    in_uow (update_by_id definition.id filter_data)
