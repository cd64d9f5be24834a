-- ===== src/Models/Filters.antt =====
-- src/domains/filter_definitions/models.py and enums.py. JSON values are numbers that stand for them.
use kupio_backend.Base.{ℕ, Option, Bool}

pub data FilterType : Type 0 where
  text number boolean choice range : FilterType

-- The keys of the `options` that the code reads, and whether there are others
pub record FilterOptions : Type 0 where
  pub values : Option ℕ
  pub min : Option ℕ
  pub max : Option ℕ
  pub others : Bool

pub record FilterDefinition : Type 0 where
  pub id : ℕ
  pub category_id : ℕ
  pub slug : ℕ
  pub label : ℕ
  pub filter_type : FilterType
  pub options : Option FilterOptions
  pub is_required : Bool
  pub display_order : ℕ
