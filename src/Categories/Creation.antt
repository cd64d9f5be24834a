-- ===== src/Categories/Creation.antt =====
-- create_category keeps the categories a forest.
use Prim.Native.Nat.{suc}
use kupio_backend.Base.{
  ℕ, ◌≡◌, ◌≢◌, refl, sym, inl, inr, false, Option, none, some, [], ◌∷◌, ◌++◌, arith, ◌==◌, holds,
  Bool-cases, Option-cases, if◌then◌else◌, is_none,
}
use kupio_backend.Base.Lists.{
  All-both, All, All-mono, All-append, All-of-some_row, some_row, head?-select,
}
use kupio_backend.Models.{Database}
use kupio_backend.Models.Categories.{Category}
use kupio_backend.Core.Errors.{Error}
use kupio_backend.Core.Action.{Result, DbSession, ok, err, opened, in_uow}
use kupio_backend.Core.Repository
use kupio_backend.Core.Repository.{fits}
use kupio_backend.Categories.{
  create_category, create, check_parent, get_by_id, categories, depth_under,
}
use kupio_backend.Categories.Forest.{Rises, IsForest}
use kupio_backend.Categories.Update.{parent_row}

-- The new parent, if there is one, is a category that is not deleted.
abbrev IsThere : Option ℕ → Option Category → Database → Type 0
IsThere none o db = o ≡ none
IsThere (some p) o db = (o ≡ parent_row p db) × (is_none o ≡ false)

module _ (id name : ℕ) (icon : Option ℕ) (db : Database) where
  abbrev pub new_category : Option ℕ → Option Category → Category
  new_category parent_id parent = record {
    id = id;
    name = name;
    icon = icon;
    depth = depth_under parent;
    parent_id = parent_id;
    deleted_at = none;
  }

  abbrev with_new : Category → Database
  with_new c = record db { categories = db.categories ++ c ∷ [] }

  -- Every way in which the request ends
  create_category-cases :
      (P : Result Category × DbSession → Type 0) (parent_id : Option ℕ)
      → ((e : Error) → P (err e, opened db))
      → ((parent : Option Category)
          → IsThere parent_id parent db
          → some_row (categories.conflicts (new_category parent_id parent)) db.categories ≡ false
          → P (
            ok (new_category parent_id parent),
            opened (with_new (new_category parent_id parent)),
          ))
      → P (create_category id name icon parent_id (opened db))
  unfolding create_category check_parent create get_by_id Repository.get Repository.add in_uow
  create_category-cases P none failed went =
      elim (Bool-cases (some_row (categories.conflicts (new_category none none)) db.categories)) [
        | inl clash ↦ rw clash (failed _)
        | inr free ↦ rw free (went none refl free)
      ]
  create_category-cases P (some p) failed went = elim (Option-cases (parent_row p db)) [
    | inl missing ↦ rw missing (failed _)
    | inr (c, found) ↦
        rw found
          (elim (Bool-cases
            (some_row (categories.conflicts (new_category (some p) (some c))) db.categories)) [
              | inl clash ↦ rw clash (failed _)
              | inr free ↦ rw free (went (some c) (sym found, refl) free)
            ])
  ]

  -- The rank with the new category above its parent
  abbrev extended : (ℕ → ℕ) → ℕ → ℕ → ℕ
  extended rank p x = if x == id then suc (rank p) else rank x

  extended-Rises :
      (rank : ℕ → ℕ) (p : ℕ) (o : Option ℕ) (x : ℕ)
      → x ≢ id
      → holds o id ≡ false
      → Rises rank o (rank x)
      → Rises (extended rank p) o (extended rank p x)
  extended-Rises rank p none x other apart h = tt
  extended-Rises rank p (some q) x other apart h = ground (arith, h)

  abbrev parent_or : Option ℕ → ℕ
  parent_or none = 0
  parent_or (some p) = p

  new-Rises :
      (rank : ℕ → ℕ) (parent_id : Option ℕ) (parent : Option Category)
      → IsThere parent_id parent db
      → All (λ c. c.id ≢ id) db.categories
      → Rises
          (extended rank (parent_or parent_id))
          parent_id
          (extended rank (parent_or parent_id) id)
  new-Rises rank none parent there fresh = tt
  new-Rises rank (some p) none there fresh = absurd (ground (arith, there.1))
  new-Rises rank (some p) (some c) there fresh =
      let (other, test) =
        head?-select (λ x. x.id ≢ id) (fits categories (λ x. x.id == p)) db.categories c fresh
          (sym there.0) in
      ground arith

  -- However the creation of a category ends, the categories have no cycle of parents afterwards if
  -- they had none before and no category had the new id as its parent.
  pub create_category-IsForest :
      (parent_id : Option ℕ)
      → All (λ c. holds c.parent_id id ≡ false) db.categories
      → IsForest db.categories
      → IsForest (create_category id name icon parent_id (opened db)).1.committed.categories
  create_category-IsForest parent_id unborn forest =
      create_category-cases (λ q. IsForest q.1.committed.categories) parent_id (λ e. forest)
        (λ parent there free.
          let (rank, ranked) = forest in
          let fresh =
            All-mono db.categories (λ c k. ground arith) (All-of-some_row _ db.categories free) in
          (
            extended rank (parent_or parent_id),
            All-append _ db.categories (new_category parent_id parent ∷ [])
                (All-mono db.categories
                  (λ c k.
                    let (old, rest) = k in
                    let (apart, up) = rest in
                    extended-Rises rank (parent_or parent_id) c.parent_id c.id old apart up)
                  (All-both _ _ db.categories fresh (All-both _ _ db.categories unborn ranked)))
                (new-Rises rank parent_id parent there fresh, tt),
          ))
