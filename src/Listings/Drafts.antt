-- ===== src/Listings/Drafts.antt =====
-- What create_listing accepts and stores, and that a status may follow any other.
use mathlib.Core.Option
use kupio_backend.Base.{
  ℕ, ◌≡◌, refl, ap, ◌∙◌, ⊤, ◌⊎◌, true, false, Option, some, [], ◌∷◌, ◌++◌, arith, ◌==◌,
  if◌then◌else◌, inl, inr, Bool-cases, Option-cases,
}
use kupio_backend.Base.Lists.{
  All, All-mono, All-of-some_row, head?, head?-select-update_where, select, some_row, update_where,
}
use kupio_backend.Base.Joins.{select_last}
use kupio_backend.Models.{Database}
use kupio_backend.Models.Users.{User}
use kupio_backend.Models.Categories.{Category}
use kupio_backend.Models.Listings.{Listing, ListingStatus, inactive}
use kupio_backend.Core.Errors.{Error}
use kupio_backend.Core.Action.{Result, ok, err, opened, DbSession, in_uow}
use kupio_backend.Core.Transactions.{read-cases}
use kupio_backend.Core.Repository
use kupio_backend.Core.Repository.{fits}
use kupio_backend.Categories.{get_category, categories}
use kupio_backend.Categories
use kupio_backend.Filters.{JsonValues, definitions_of}
use kupio_backend.Filters.Checks.{validate_custom_filters, filters_or_empty}
use kupio_backend.Filters.Validation.{IsValid, validate_custom_filters-IsValid}
use kupio_backend.Listings
use kupio_backend.Listings.{listings}
use kupio_backend.Listings.Owner.{
  ListingRequest, create_listing, new_listing, create, update_listing_status, update_by_id,
  set_status,
}

get_category-reads :
    (category_id : ℕ) (db : Database) → (get_category category_id (opened db)).1 ≡ opened db
unfolding get_category Categories.get_by_id Repository.get
get_category-reads category_id db =
    elim (Option-cases
      (head? (select (fits categories (λ c. c.id == category_id)) db.categories))) [
        | inl missing ↦ rw missing refl
        | inr (c, found) ↦ rw found refl
      ]

both : (q : Result ⊤ × DbSession) (r : Result ⊤) (s : DbSession) → q.0 ≡ r → q.1 ≡ s → q ≡ (r, s)
both (r', s') r s same_result same_session = rw (same_result, same_session) refl

module _ (json : JsonValues) (id now : ℕ) (current_user : User) (data_ : ListingRequest)
    (db : Database) where
  abbrev pub created : Listing
  created = new_listing id now current_user.id data_ inactive

  -- What a listing that was accepted tells: its category is there and is not deleted, its custom filters
  -- are valid for it, it belongs to the user and is inactive, and it is all that was added.
  pub record IsCreated (r : Option Listing) (db' : Database) : Type 0 where
    pub category : Category
    pub known : (get_category data_.category_id (opened db)).0 ≡ ok category
    pub filters :
        (definitions_of data_.category_id db ≡ [])
        ⊎ IsValid json
            (definitions_of data_.category_id db)
            (filters_or_empty json data_.custom_filters)
    pub value : r ≡ some created
    pub added : db' ≡ record db { listings = db.listings ++ created ∷ [] }

  abbrev stored : DbSession
  stored = opened (record db { listings = db.listings ++ created ∷ [] })

  store-cases :
      (P : Result (Option Listing) × DbSession → Type 0)
      → ((e : Error) → P (err e, opened db))
      → P (ok (some created), stored)
      → P (in_uow (create created) (opened db))
  unfolding in_uow create Repository.add Listings.get_by_id Repository.get
  store-cases P failed went =
      elim (Bool-cases (some_row (listings.conflicts created) db.listings)) [
        | inl clash ↦ rw clash (failed _)
        | inr free ↦
            let apart : All (λ l. fits listings (λ l. l.id == id) l ≡ false) db.listings =
              All-mono db.listings (λ l (fine : (id == l.id) ≡ false). ground arith)
                (All-of-some_row (listings.conflicts created) db.listings free) in
            let found =
              select_last (fits listings (λ l. l.id == id)) db.listings created apart
                (ground arith) in
            rw (free, found) went
      ]

  create_listing-cases :
      (P : Result (Option Listing) × DbSession → Type 0)
      → ((e : Error) → P (err e, opened db))
      → ((c : Category)
          → (get_category data_.category_id (opened db)).0 ≡ ok c
          → validate_custom_filters json data_.category_id data_.custom_filters (opened db)
            ≡ (ok tt, opened db)
          → P (ok (some created), stored))
      → P (create_listing json id now current_user data_ (opened db))
  unfolding create_listing
  create_listing-cases P failed went =
      let reads =
        (validate_custom_filters-IsValid json data_.category_id data_.custom_filters
          (opened db)).2 in
      read-cases P (get_category data_.category_id) _ db (get_category-reads data_.category_id db)
        failed
        (λ c known.
          read-cases P (validate_custom_filters json data_.category_id data_.custom_filters) _ db
            reads failed (λ u valid. store-cases P failed (went c known (both _ _ _ valid reads))))

  -- A listing that is created has a category that is not deleted and custom filters that are valid for
  -- it, belongs to the user and is inactive, and is all that is added; a request that is refused, with
  -- any error, changes nothing.
  pub create_listing-IsCreated :
      ((r : Option Listing)
        → (create_listing json id now current_user data_ (opened db)).0 ≡ ok r
        → IsCreated r (create_listing json id now current_user data_ (opened db)).1.committed)
      × ((e : Error)
          → (create_listing json id now current_user data_ (opened db)).0 ≡ err e
          → (create_listing json id now current_user data_ (opened db)).1 ≡ opened db)
  create_listing-IsCreated = (
    λ r.
        create_listing-cases (λ q. q.0 ≡ ok r → IsCreated r q.1.committed) (λ e h. cc)
          (λ c known valid h. record {
            category = c;
            known = known;
            filters =
                (validate_custom_filters-IsValid json data_.category_id data_.custom_filters
                    (opened db)).0
                  valid;
            value = cc;
            added = refl;
          }),
    λ e.
        create_listing-cases (λ q. q.0 ≡ err e → q.1 ≡ opened db) (λ e' h. refl)
          (λ c known valid h. cc),
  )

-- A listing that is not deleted goes from its status to any other, also where the lifecycle has no such
-- step, and all else stays as it is.
pub update_listing_status-any :
    (listing : Listing) (new_status : ListingStatus) (db : Database)
    → head? (select (fits listings (λ l. l.id == listing.id)) db.listings) ≡ some listing
    → update_listing_status listing.id new_status (opened db) ≡ (
      ok (some (set_status new_status listing)),
      opened (record db {
        listings = update_where (λ l. l.id == listing.id) (set_status new_status) db.listings;
      }),
    )
unfolding update_listing_status update_by_id in_uow Repository.update_only Listings.get_by_id
    Repository.get
update_listing_status-any listing new_status db found =
    let same =
      head?-select-update_where (fits listings (λ l. l.id == listing.id)) (λ l. l.id == listing.id)
        (set_status new_status) db.listings (λ l. refl) in
    let here : (listing.id == listing.id) ≡ true = ground arith in
    rw
      (
        same
            ∙ ap (Option.map (λ l. if l.id == listing.id then set_status new_status l else l))
                found,
        here,
      )
      refl
