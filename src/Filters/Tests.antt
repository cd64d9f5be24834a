-- ===== src/Filters/Tests.antt =====
-- A category of phones with a choice of memory and a range of sizes. Numbers below 100 stand for
-- themselves, 500 for a list that holds 101, 600 for the empty list, and the others for texts.
use kupio_backend.Base.{
  ℕ, ◌≡◌, refl, true, false, ◌&&◌, not, Option, none, some, List, [], ◌∷◌, arith, ◌==◌, ltb, leb,
  ◌⊎◌,
}
use kupio_backend.Base.Lists.{select, some_row, update_where}
use kupio_backend.Base.Sorted.{order_by, insert_row}
use kupio_backend.Models.{Database, empty}
use kupio_backend.Models.Filters.{FilterDefinition, choice, range}
use kupio_backend.Core.Errors.{invalid_custom_filters}
use kupio_backend.Core.Action.{ok, err, opened}
use kupio_backend.Filters.{
  JsonValues, definitions_of, get_by_category_id, update_definition, validate_options, set_columns,
}
use kupio_backend.Filters.Checks.{
  validate_custom_filters, validate_against, validate_items, validate_filter_value,
}
use kupio_backend.Filters.Validation.{IsValid, validate_custom_filters-IsValid}
use kupio_backend.Filters.Choices.{cleared, emptied, update_definition-cleared}

abbrev json : JsonValues
json = record {
  is_str = λ v. leb 100 v && not (leb 500 v);
  is_int_or_float = λ v. ltb v 100;
  is_bool = λ v. false;
  is_list = λ v. leb 500 v;
  truthy = λ v. not (v == 600);
  empty_list = 600;
  is_in = λ v options. ok (options == 500 && v == 101);
  less = λ a b. ok (ltb a b);
}

abbrev memory : FilterDefinition
memory = record {
  id = 1;
  category_id = 4;
  slug = 70;
  label = 71;
  filter_type = choice;
  options = some record { values = some 500; min = none; max = none; others = false };
  is_required = true;
  display_order = 0;
}

abbrev size : FilterDefinition
size = record memory {
  id = 2;
  slug = 80;
  filter_type = range;
  options = some record { values = none; min = some 3; max = some 9; others = false };
  is_required = false;
  display_order = 1;
}

abbrev shelf : Database
shelf = record empty { filter_definitions = memory ∷ size ∷ [] }

abbrev wish : List (ℕ × ℕ)
wish = (70, 101) ∷ (80, 6) ∷ []

accepted : validate_custom_filters json 4 (some wish) (opened shelf) ≡ (ok tt, opened shelf)
unfolding validate_custom_filters get_by_category_id validate_against validate_items
    validate_filter_value order_by insert_row select some_row
accepted = refl

wish-IsValid : IsValid json (memory ∷ size ∷ []) wish
unfolding some_row
wish-IsValid = record {
  items = ((memory, refl, refl), ((size, refl, (refl, refl, refl)), tt));
  complete = ((λ h. refl), ((λ h. refl), tt));
}

validate_custom_filters-IsValid_example :
    (validate_custom_filters json 4 (some wish) (opened shelf) ≡ (ok tt, opened shelf)
      → (definitions_of 4 shelf ≡ []) ⊎ IsValid json (definitions_of 4 shelf) wish)
    × ((definitions_of 4 shelf ≡ []) ⊎ IsValid json (definitions_of 4 shelf) wish
        → validate_custom_filters json 4 (some wish) (opened shelf) ≡ (ok tt, opened shelf))
    × ((validate_custom_filters json 4 (some wish) (opened shelf)).1 ≡ opened shelf)
validate_custom_filters-IsValid_example =
    validate_custom_filters-IsValid json 4 (some wish) (opened shelf)

update_definition-cleared_example :
    (validate_options json cleared ≡ true)
    × ((update_definition json memory cleared (opened shelf)).1
        ≡ opened (emptied json memory shelf))
    × ((o : Option FilterDefinition) × ((update_definition json memory cleared (opened shelf)).0
          ≡ ok o))
    × (((value : ℕ) → json.is_in value json.empty_list ≡ ok false)
        → (value : ℕ)
        → validate_filter_value json choice (set_columns cleared memory).options value
          ≡ err invalid_custom_filters)
unfolding update_where some_row
update_definition-cleared_example =
    update_definition-cleared json memory shelf refl refl ((omega arith, tt), (tt, tt)) refl
