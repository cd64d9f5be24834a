-- ===== src/Categories.antt =====
-- src/domains/categories/service.py and repository.py: the tree of categories. The recursive query for
-- ancestors follows parents as often as its first argument says: a height that no chain of
-- parents reaches gives all of them, and the database would not end on a cycle.
pub mod Forest
pub mod Moves
pub mod Update
pub mod Creation
mod Tests
use Prim.Native.Nat.{zero, suc}
use kupio_backend.Base.{
  ℕ, ◌+◌, ⊤, Bool, true, false, ◌||◌, not, Option, none, some, List, [], ◌∷◌, ◌==◌, is_none,
  is_some, holds, if◌then◌else◌,
}
use kupio_backend.Base.Lists.{head?, select, some_row}
use kupio_backend.Models.{Database}
use kupio_backend.Models.Categories.{Category}
use kupio_backend.Models.Categories
use kupio_backend.Core.Errors.{
  category_not_found, invalid_parent_provided, circular_category_reference,
}
use kupio_backend.Core.Action.{Action, ok, ◌>>=◌, ◌>>◌, pure, raise, raise_if, or_raise, in_uow}
use kupio_backend.Core.Repository
use kupio_backend.Core.Repository.{Model}

-- The primary key and the name are unique.
abbrev pub categories : Model Category
categories = record {
  rows = λ db. db.categories;
  with_rows = λ cs db. record db { categories = cs };
  is_deleted = Categories.is_deleted;
  delete_at = λ now c. record c { deleted_at = some now };
  conflicts = λ a b. a.id == b.id || a.name == b.name;
}

unfoldable pub create : ℕ → ℕ → Option ℕ → Option ℕ → ℕ → Action Category
create id name parent_id icon depth = Repository.add categories (record {
  id = id;
  name = name;
  icon = icon;
  depth = depth;
  parent_id = parent_id;
  deleted_at = none;
})

unfoldable pub get_by_id : ℕ → Action (Option Category)
get_by_id category_id = Repository.get categories (λ c. c.id == category_id)

-- The row of an id, deleted or not, as the recursive query joins it
abbrev pub row_with : ℕ → List Category → Option Category
row_with category_id cs = head? (select (λ c. c.id == category_id) cs)

-- The ids that the recursive query collects: the category's own and those of its ancestors
abbrev pub with_parents : (ℕ → List ℕ) → Option ℕ → List ℕ
with_parents up none = []
with_parents up (some parent_id) = up parent_id

abbrev pub with_ancestors : (ℕ → List ℕ) → Option Category → List ℕ
with_ancestors up none = []
with_ancestors up (some c) = c.id ∷ with_parents up c.parent_id

unfoldable pub ancestor_ids : ℕ → List Category → ℕ → List ℕ
ancestor_ids zero cs category_id = []
ancestor_ids (suc height) cs category_id =
    with_ancestors (ancestor_ids height cs) (row_with category_id cs)

unfoldable pub get_ancestor_ids : ℕ → ℕ → Action (List ℕ)
unfolding ancestor_ids
get_ancestor_ids height category_id s =
    (ok (ancestor_ids height s.working.categories category_id), s)

unfoldable pub get_category : ℕ → Action Category
unfolding get_by_id
get_category category_id = do category ← get_by_id category_id; or_raise category category_not_found

-- `_check_parent`
unfoldable pub check_parent : Option ℕ → Action (Option Category)
check_parent none = pure none
check_parent (some parent_id) = do
  parent ← get_by_id parent_id
  raise_if (is_none parent) invalid_parent_provided
  pure parent

abbrev pub depth_under : Option Category → ℕ
depth_under none = 0
depth_under (some parent_category) = parent_category.depth + 1

unfoldable pub create_category : ℕ → ℕ → Option ℕ → Option ℕ → Action Category
unfolding check_parent create
create_category id name icon parent_id = do
  parent_category ← check_parent parent_id
  in_uow (create id name parent_id icon (depth_under parent_category))

-- A request to update: a field that was not sent is none. `parent_id` is read as None then, and
-- `model_dump(exclude_unset=True)` leaves it out of the columns to set.
pub record CategoryUpdate : Type 0 where
  pub name : Option ℕ
  pub icon : Option (Option ℕ)
  pub parent_id : Option (Option ℕ)

abbrev pub or_old {ℓ} : {A : Type ℓ} → Option A → A → A
or_old none old = old
or_old (some new) old = new

abbrev pub same_parent : Option ℕ → Option ℕ → Bool
same_parent none b = is_none b
same_parent (some a) b = holds b a

-- The first guards of `update_category`, for a parent that is to change
unfoldable pub check_circular : ℕ → Category → Option ℕ → Action ⊤
unfolding get_ancestor_ids
check_circular height category none = pure tt
check_circular height category (some parent_id) = do
  raise_if (parent_id == category.id) circular_category_reference
  ids ← get_ancestor_ids height parent_id
  raise_if (some_row (λ i. i == category.id) ids) circular_category_reference

-- The depth that `update_category` sets
unfoldable pub new_depth : ℕ → Category → Option ℕ → Action ℕ
unfolding check_circular check_parent
new_depth height category parent_id =
    if same_parent parent_id category.parent_id
    then pure category.depth
    else (check_circular height category parent_id
        >> (check_parent parent_id >>= λ parent_category. pure (depth_under parent_category)))

abbrev pub set_columns : CategoryUpdate → ℕ → Category → Category
set_columns sent depth c = record c {
  name = or_old sent.name c.name;
  icon = or_old sent.icon c.icon;
  parent_id = or_old sent.parent_id c.parent_id;
  depth = depth;
}

unfoldable pub update_category : ℕ → CategoryUpdate → Category → Action (Option Category)
unfolding new_depth
update_category height sent category = do
  depth ← new_depth height category (or_old sent.parent_id none)
  in_uow (Repository.update_checked categories (λ c. c.id == category.id) (set_columns sent depth))
