-- ===== src/Categories/Update.antt =====
-- update_category keeps the categories a forest, and what it does to the depth.
use kupio_backend.Base.{
  ℕ, ◌<◌, ◌≡◌, refl, sym, ◌∙◌, ap, inl, inr, ◌⊎◌, true, false, Option, none, some, List, arith,
  ◌==◌, Bool-cases, Option-cases,
}
use kupio_backend.Base.Lists.{
  head?-select-update_where, All, UniqueBy, head?, select, update_where, some_row,
}
use kupio_backend.Models.{Database}
use kupio_backend.Models.Categories.{Category}
use kupio_backend.Core.Action.{ok, opened, in_uow}
use kupio_backend.Core.Transactions.{in_uow-holds, aexit-ok, read-holds}
use kupio_backend.Core.Repository
use kupio_backend.Core.Repository.{fits}
use kupio_backend.Categories.{
  ancestor_ids, row_with, update_category, new_depth, check_circular, check_parent, get_by_id,
  get_ancestor_ids, set_columns, CategoryUpdate, or_old, same_parent, categories,
}
use kupio_backend.Categories.Forest.{IsRanked, IsForest}
use kupio_backend.Categories.Moves.{moved, moved-IsRanked, kept-IsRanked}

abbrev pub parent_row : ℕ → Database → Option Category
parent_row p db = head? (select (fits categories (λ c. c.id == p)) db.categories)

module _ (height : ℕ) (category : Category) (db : Database) where
  new_depth-reads :
      (parent_id : Option ℕ) → (new_depth height category parent_id (opened db)).1 ≡ opened db
  unfolding new_depth check_circular check_parent get_by_id get_ancestor_ids Repository.get
  new_depth-reads none = ground arith
  new_depth-reads (some p) = elim (Bool-cases (same_parent (some p) category.parent_id)) [
    | inl same ↦ rw same refl
    | inr new ↦ rw new (elim (Bool-cases (p == category.id)) [
      | inl itself ↦ rw itself refl
      | inr other ↦
          rw other
            (elim (Bool-cases
              (some_row (λ i. i == category.id) (ancestor_ids height db.categories p))) [
                | inl below ↦ rw below refl
                | inr apart ↦ rw apart (elim (Option-cases (parent_row p db)) [
                  | inl missing ↦ rw missing refl
                  | inr (c, found) ↦ rw found refl
                ])
              ])
    ])
  ]

  -- A new parent that is accepted is none, or is not under the category.
  new_depth-free :
      (parent_id : Option ℕ) (d : ℕ)
      → (new_depth height category parent_id (opened db)).0 ≡ ok d
      → same_parent parent_id category.parent_id ≡ false
      → (parent_id ≡ none)
        ⊎ ((p : ℕ) × (parent_id ≡ some p)
            × (some_row (λ i. i == category.id) (ancestor_ids height db.categories p) ≡ false))
  unfolding new_depth check_circular check_parent get_by_id get_ancestor_ids Repository.get
  new_depth-free none d h new = inl refl
  new_depth-free (some p) d h new =
      elim (Bool-cases (some_row (λ i. i == category.id) (ancestor_ids height db.categories p))) [
        | inr apart ↦ inr (p, refl, apart)
        | inl below ↦ absurd (ground arith)
      ]

  same_parent-same : (a b : Option ℕ) → same_parent a b ≡ true → a ≡ b
  same_parent-same none none h = refl
  same_parent-same none (some b) h = cc
  same_parent-same (some a) none h = cc
  same_parent-same (some a) (some b) h = ground arith

  abbrev updated : CategoryUpdate → ℕ → List Category
  updated sent d = update_where (λ c. c.id == category.id) (set_columns sent d) db.categories

  checked-local :
      (sent : CategoryUpdate) (d : ℕ)
      → (Repository.update_checked categories
          (λ c. c.id == category.id)
          (set_columns sent d)
          (opened db)).1.committed
        ≡ db
  unfolding Repository.update_checked Repository.update
  checked-local sent d = ground arith

  checked-state :
      (sent : CategoryUpdate) (d : ℕ) (o : Option Category)
      → (Repository.update_checked categories
          (λ c. c.id == category.id)
          (set_columns sent d)
          (opened db)).0
        ≡ ok o
      → (Repository.update_checked categories
          (λ c. c.id == category.id)
          (set_columns sent d)
          (opened db)).1.working.categories
        ≡ updated sent d
  unfolding Repository.update_checked Repository.update
  checked-state sent d o h = ground arith

  unset-root :
      (sent : CategoryUpdate) (p : ℕ)
      → sent.parent_id ≡ none
      → category.parent_id ≡ some p
      → update_category height sent category (opened db)
        ≡ in_uow
            (Repository.update_checked categories (λ c. c.id == category.id) (set_columns sent 0))
            (opened db)
  unfolding update_category new_depth check_circular check_parent
  unset-root sent p unset nested = rw unset (rw nested refl)

  updated-row :
      (sent : CategoryUpdate) (d : ℕ)
      → row_with category.id db.categories ≡ some category
      → row_with category.id (updated sent d) ≡ some (set_columns sent d category)
  updated-row sent d there =
      head?-select-update_where (λ c. c.id == category.id) (λ c. c.id == category.id)
        (set_columns sent d) db.categories (λ c. refl)
      ∙ rw there (ground arith)

  -- A category with a parent that is renamed, or given another icon, without a `parent_id` in the
  -- request keeps its parent and gets the depth of a root.
  pub update_category-depth :
      (sent : CategoryUpdate) (p : ℕ) (o : Option Category)
      → sent.parent_id ≡ none
      → category.parent_id ≡ some p
      → row_with category.id db.categories ≡ some category
      → (update_category height sent category (opened db)).0 ≡ ok o
      → (c : Category) × (row_with category.id
            (update_category height sent category (opened db)).1.committed.categories
          ≡ some c)
        × (c.depth ≡ 0)
        × (c.parent_id ≡ some p)
  unfolding in_uow
  update_category-depth sent p o unset nested there h =
      let e = unset-root sent p unset nested in
      let body =
        Repository.update_checked categories (λ c. c.id == category.id) (set_columns sent 0)
          (opened db) in
      let (went, final) = aexit-ok body o (ap (λ q. q.0) (sym e) ∙ h) in
      let state = checked-state sent 0 o went in
      let rows =
        ap (λ q. row_with category.id q.1.committed.categories) (e ∙ final)
        ∙ ap (λ cs. row_with category.id cs) state in
      (set_columns sent 0 category, rows ∙ updated-row sent 0 there, refl, rw unset nested)

  module _ (rank : ℕ → ℕ) (ranked : IsRanked rank db.categories)
      (low : All (λ c. rank c.id < height) db.categories)
      (unique : UniqueBy (λ c. c.id) db.categories)
      (there : row_with category.id db.categories ≡ some category) where
    one_row :
        (c : Category) → row_with c.id db.categories ≡ some c → c.id ≡ category.id → c ≡ category
    one_row c found same =
        let both : some c ≡ some category =
          sym found ∙ ap (λ k. row_with k db.categories) same ∙ there in
        ground arith

    updated-IsForest :
        (name : Option ℕ) (icon : Option (Option ℕ)) (parent : Option (Option ℕ)) (d : ℕ)
        → (new_depth height category (or_old parent none) (opened db)).0 ≡ ok d
        → IsForest (updated (record { name = name; icon = icon; parent_id = parent }) d)
    updated-IsForest name icon none d h = (
      rank,
      kept-IsRanked rank height db.categories ranked category.id _
          (λ c found same. (refl, inr refl)) unique,
    )
    updated-IsForest name icon (some parent_id) d h =
        elim (Bool-cases (same_parent parent_id category.parent_id)) [
          | inl stays ↦ (
            rank,
            kept-IsRanked rank height db.categories ranked category.id _
                (λ c found same.
                  let one : c ≡ category = one_row c found same in
                  (
                    refl,
                    inr (
                        same_parent-same parent_id category.parent_id stays
                        ∙ sym (ap (λ x. x.parent_id) one)),
                  ))
                unique,
          )
          | inr new ↦ elim (new_depth-free parent_id d h new) [
            | inl root ↦ (
              rank,
              kept-IsRanked rank height db.categories ranked category.id _
                  (λ c found same. (refl, inl root)) unique,
            )
            | inr (p, is_p, apart) ↦ (
              moved rank height db.categories ranked category.id p,
              moved-IsRanked rank height db.categories ranked category.id p _ (λ c. (refl, is_p))
                  unique low apart,
            )
          ]
        ]

    -- Whatever is sent to update a category that is in the table, and however the request ends, the
    -- categories have no cycle of parents afterwards if they had none before, with unique ids, and
    -- `height` above every rank.
    pub update_category-IsForest :
        (sent : CategoryUpdate)
        → IsForest (update_category height sent category (opened db)).1.committed.categories
    unfolding update_category
    update_category-IsForest sent =
        read-holds (λ d. IsForest d.categories)
          (new_depth height category (or_old sent.parent_id none)) _ db
          (new_depth-reads (or_old sent.parent_id none)) (rank, ranked)
          (λ d h.
            in_uow-holds (λ x. IsForest x.categories)
              (Repository.update_checked categories (λ c. c.id == category.id) (set_columns sent d))
              db (checked-local sent d) (rank, ranked)
              (λ o went.
                rw (checked-state sent d o went)
                  (updated-IsForest sent.name sent.icon sent.parent_id d h)))
