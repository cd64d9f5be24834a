-- ===== src/Categories/Tests.antt =====
-- Three categories in a line, and the theorems on them
use kupio_backend.Base.{◌≡◌, refl, none, some, [], ◌∷◌, arith}
use kupio_backend.Base.Lists.{select, update_where, some_row}
use kupio_backend.Models.{Database, empty}
use kupio_backend.Models.Categories.{Category}
use kupio_backend.Core.Errors.{circular_category_reference}
use kupio_backend.Core.Action.{ok, err, opened, in_uow}
use kupio_backend.Core.Repository
use kupio_backend.Categories.{
  create_category, create, row_with, update_category, new_depth, check_circular, check_parent,
  get_by_id, get_ancestor_ids, ancestor_ids, CategoryUpdate,
}
use kupio_backend.Categories.Forest.{IsRanked, IsForest}
use kupio_backend.Categories.Update.{update_category-IsForest, update_category-depth}

abbrev goods : Category
goods = record { id = 1; name = 10; icon = none; depth = 0; parent_id = none; deleted_at = none }

abbrev phones : Category
phones = record { id = 2; name = 20; icon = none; depth = 1; parent_id = some 1; deleted_at = none }

abbrev cases : Category
cases = record { id = 3; name = 30; icon = none; depth = 2; parent_id = some 2; deleted_at = none }

abbrev shop : Database
shop = record empty { categories = goods ∷ phones ∷ cases ∷ [] }

shop-IsRanked : IsRanked (λ x. x) shop.categories
shop-IsRanked = (tt, (omega arith, (omega arith, tt)))

abbrev rename : CategoryUpdate
rename = record { name = some 21; icon = none; parent_id = none }

abbrev to_goods : CategoryUpdate
to_goods = record { name = none; icon = none; parent_id = some (some 1) }

abbrev under_itself : CategoryUpdate
under_itself = record { name = none; icon = none; parent_id = some (some 3) }

-- Phones can't go under their own cases.
no_cycle : (update_category 9 under_itself phones (opened shop)).0 ≡ err circular_category_reference
unfolding update_category new_depth check_circular get_ancestor_ids ancestor_ids select some_row
no_cycle = refl

cases_move :
    (update_category 9 to_goods cases (opened shop)).0
    ≡ ok (some (record cases { parent_id = some 1; depth = 1 }))
unfolding update_category new_depth check_circular check_parent get_by_id get_ancestor_ids
    ancestor_ids select some_row Repository.get Repository.update_checked Repository.update
    update_where in_uow
cases_move = refl

update_category-IsForest_example :
    IsForest (update_category 9 to_goods cases (opened shop)).1.committed.categories
update_category-IsForest_example =
    update_category-IsForest 9 cases shop (λ x. x) shop-IsRanked
      (omega arith, (omega arith, (omega arith, tt)))
      ((omega arith, (omega arith, tt)), ((omega arith, tt), (tt, tt))) (unfold select in refl)
      to_goods

renamed :
    (update_category 9 rename phones (opened shop)).0
    ≡ ok (some (record phones { name = 21; depth = 0 }))
unfolding update_category new_depth check_circular check_parent select some_row
    Repository.update_checked Repository.update update_where in_uow
renamed = refl

update_category-depth_example :
    (c : Category) × (row_with 2
        (update_category 9 rename phones (opened shop)).1.committed.categories
      ≡ some c)
    × (c.depth ≡ 0)
    × (c.parent_id ≡ some 1)
update_category-depth_example =
    update_category-depth 9 phones shop rename 1 (some (record phones { name = 21; depth = 0 }))
      refl refl (unfold select in refl) renamed

chargers_added :
    (create_category 4 40 none (some 3) (opened shop)).0
    ≡ ok (record {
      id = 4;
      name = 40;
      icon = none;
      depth = 3;
      parent_id = some 3;
      deleted_at = none;
    })
unfolding create_category check_parent create get_by_id Repository.get Repository.add in_uow select
    some_row
chargers_added = refl
