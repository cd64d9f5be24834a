-- ===== src/Filters/Choices.antt =====
-- update_definition: a choice that loses its values.
use kupio_backend.Base.{ℕ, ◌≡◌, refl, true, false, Option, none, some, arith, ◌==◌}
use kupio_backend.Base.Lists.{UniqueBy, update_where}
use kupio_backend.Models.{Database}
use kupio_backend.Models.Filters.{FilterDefinition, choice}
use kupio_backend.Core.Errors.{invalid_custom_filters}
use kupio_backend.Core.Action.{ok, err, opened, in_uow}
use kupio_backend.Core.Repository
use kupio_backend.Core.Repository.{has_clash}
use kupio_backend.Core.Repository.Single.{scalar-select}
use kupio_backend.Filters.{
  JsonValues, FilterUpdate, filter_definitions, update_definition, update_by_id, are_select_options,
  set_columns, validate_options,
}
use kupio_backend.Filters.Checks.{validate_filter_value}

-- A request that sends only `"options": {}`
abbrev pub cleared : FilterUpdate
cleared = record {
  slug = none;
  label = none;
  filter_type = none;
  options = some (some record { values = none; min = none; max = none; others = false });
  is_required = none;
  display_order = none;
}

module _ (json : JsonValues) (d : FilterDefinition) (db : Database) where
  abbrev pub emptied : Database
  emptied = record db {
    filter_definitions =
        update_where (λ x. x.id == d.id) (set_columns cleared) db.filter_definitions;
  }

  -- A request that sends only empty options for a choice with values passes the schema's validator and
  -- the service, and leaves the choice without values, where ids are unique and no two definitions
  -- clash. From then on every value is refused, where nothing is in the empty list.
  pub update_definition-cleared :
      d.filter_type ≡ choice
      → are_select_options json d.options ≡ true
      → UniqueBy (λ x. x.id) db.filter_definitions
      → has_clash filter_definitions emptied.filter_definitions ≡ false
      → (validate_options json cleared ≡ true)
        × ((update_definition json d cleared (opened db)).1 ≡ opened emptied)
        × ((o : Option FilterDefinition) × ((update_definition json d cleared (opened db)).0
              ≡ ok o))
        × (((value : ℕ) → json.is_in value json.empty_list ≡ ok false)
            → (value : ℕ)
            → validate_filter_value json choice (set_columns cleared d).options value
              ≡ err invalid_custom_filters)
  unfolding update_definition update_by_id Repository.update_checked Repository.update in_uow
      validate_filter_value
  update_definition-cleared is_choice valid unique no_clash =
      let (o, single) =
        scalar-select (λ x. x.id) (λ x. x.id == d.id) d.id (λ x here. ground arith)
          filter_definitions (set_columns cleared) db.filter_definitions unique in
      (
        refl,
        rw (is_choice, valid, no_clash, single) refl,
        (o, rw (is_choice, valid, no_clash, single) refl),
        λ absent value. rw (absent value) refl,
      )
