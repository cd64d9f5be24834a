-- ===== src/Listings/Views.antt =====
-- get_listing_for_response of src/domains/listings/service.py and ListingViewsRepository: what a visitor
-- of a listing sees and what is counted.
use kupio_backend.Base.{
  ℕ, ◌+◌, ◌≡◌, refl, ap, ◌∙◌, ⊤, Bool, true, false, ◌&&◌, ◌||◌, not, Option, none, some, List, [],
  ◌∷◌, ◌++◌, arith, ◌==◌, if◌then◌else◌, inl, inr, Bool-cases,
}
use kupio_backend.Base.Lists.{length, head?, select, some_row, length-append, select-append}
use kupio_backend.Models.{Database}
use kupio_backend.Models.Users.{User}
use kupio_backend.Models.Listings.{Listing, ListingView, is_active}
use kupio_backend.Models.Promotions.{ListingPromotion}
use kupio_backend.Core.Errors.{listing_not_found}
use kupio_backend.Core.Action.{ok, opened, Action, ◌>>=◌, ◌>>◌, pure, or_raise, in_uow}
use kupio_backend.Core.Repository
use kupio_backend.Core.Repository.{Model, fits}
use kupio_backend.Listings.{listings, get_by_id}
use kupio_backend.Promotions.{get_active_for_listing, is_live}

abbrev pub listing_views : Model ListingView
listing_views = record {
  rows = λ db. db.listing_views;
  with_rows = λ vs db. record db { listing_views = vs };
  is_deleted = λ _. false;
  delete_at = λ _ v. v;
  conflicts = λ a b. a.id == b.id;
}

unfoldable pub count_by_listing_id : ℕ → Action ℕ
count_by_listing_id listing_id s =
    (ok (length (select (λ v. v.listing_id == listing_id) s.working.listing_views)), s)

unfoldable pub create_view : (id listing_id : ℕ) → Option ℕ → Action ListingView
create_view id listing_id viewer_user_id =
    Repository.add listing_views
      record { id = id; listing_id = listing_id; viewer_user_id = viewer_user_id }

abbrev pub is_viewer : Listing → Option User → Bool
is_viewer listing none = true
is_viewer listing (some current_user) = not (current_user.id == listing.user_id)

abbrev pub should_count_seen : Listing → Option User → Bool → Bool
should_count_seen listing current_user count_seen =
    if not count_seen || not (is_active listing.status)
    then false
    else is_viewer listing current_user

-- The relationship `listing.user`, deleted or not
abbrev pub owner_of : Listing → Database → Option User
owner_of listing db = head? (select (λ u. u.id == listing.user_id) db.users)

-- `a or b` where b is an attribute of the owner
abbrev pub or_owner : Option ℕ → Option ℕ → Option ℕ
or_owner (some own) of_owner = some own
or_owner none of_owner = of_owner

abbrev pub field_of : (User → Option ℕ) → Option User → Option ℕ
field_of f none = none
field_of f (some u) = f u

-- `phone` and `contact_name` of the response
abbrev pub contact : Listing → Option User → Option User → Option ℕ × Option ℕ
contact listing owner none = (none, none)
contact listing owner (some current_user) = if listing.is_calls_disabled then (none, none) else (
  or_owner listing.phone (field_of (λ u. u.phone) owner),
  or_owner listing.contact_name (field_of (λ u. u.display_name) owner),
)

pub record ListingDetailResponse : Type 0 where
  pub listing : Listing
  pub active_promotions : List ListingPromotion
  pub seen_count : ℕ
  pub phone : Option ℕ
  pub contact_name : Option ℕ

abbrev pub id_of : Option User → Option ℕ
id_of none = none
id_of (some u) = some u.id

-- `if self._should_count_seen(…): async with self.uow: …`
unfoldable pub count_view : (view_id : ℕ) → Listing → Option User → Bool → Action ⊤
unfolding create_view
count_view view_id listing current_user count_seen =
    if should_count_seen listing current_user count_seen
    then in_uow (create_view view_id listing.id (id_of current_user)) >> pure tt
    else pure tt

unfoldable pub get_listing_for_response :
    (view_id now listing_id : ℕ) → Option User → Bool → Action ListingDetailResponse
unfolding get_by_id count_view count_by_listing_id get_active_for_listing
get_listing_for_response view_id now listing_id current_user count_seen = do
  found ← get_by_id listing_id
  listing ← or_raise found listing_not_found
  count_view view_id listing current_user count_seen
  seen ← count_by_listing_id listing.id
  promotions ← get_active_for_listing now listing.id
  show listing promotions seen
  where
    show : Listing → List ListingPromotion → ℕ → Action ListingDetailResponse
    show listing promotions seen s =
        let (phone, contact_name) = contact listing (owner_of listing s.working) current_user in
        (
          ok record {
            listing = listing;
            active_promotions = promotions;
            seen_count = seen;
            phone = phone;
            contact_name = contact_name;
          },
          s,
        )

module _ (view_id now listing_id : ℕ) (current_user : Option User) (count_seen : Bool)
    (db : Database) where
  abbrev pub viewed : Listing → Database
  viewed listing =
      if should_count_seen listing current_user count_seen
      then record db {
        listing_views =
            db.listing_views
            ++ record { id = view_id; listing_id = listing.id; viewer_user_id = id_of current_user }
              ∷ [];
      }
      else db

  abbrev pub response : Listing → ListingDetailResponse
  response listing = record {
    listing = listing;
    active_promotions =
        select (λ p. p.listing_id == listing.id && is_live now p) db.listing_promotions;
    seen_count =
        length (select (λ v. v.listing_id == listing.id) db.listing_views)
        + (if should_count_seen listing current_user count_seen then 1 else 0);
    phone = (contact listing (owner_of listing db) current_user).0;
    contact_name = (contact listing (owner_of listing db) current_user).1;
  }

  one_more :
      (listing : Listing)
      → length (
          select
            (λ v. v.listing_id == listing.id)
            (db.listing_views
              ++ record {
                id = view_id;
                listing_id = listing.id;
                viewer_user_id = id_of current_user;
              }
                ∷ []))
        ≡ length (select (λ v. v.listing_id == listing.id) db.listing_views) + 1
  unfolding select
  one_more listing =
      let same : (listing.id == listing.id) ≡ true = ground arith in
      ap length (select-append (λ v. v.listing_id == listing.id) db.listing_views _)
      ∙ length-append (select (λ v. v.listing_id == listing.id) db.listing_views) _
      ∙ rw same refl

  none_more :
      (listing : Listing)
      → length (select (λ v. v.listing_id == listing.id) db.listing_views) + 0
        ≡ length (select (λ v. v.listing_id == listing.id) db.listing_views)
  none_more listing = omega arith

  pub get_listing_for_response-response :
      (listing : Listing)
      → head? (select (fits listings (λ l. l.id == listing_id)) db.listings) ≡ some listing
      → some_row (λ v. view_id == v.id) db.listing_views ≡ false
      → get_listing_for_response view_id now listing_id current_user count_seen (opened db)
        ≡ (ok (response listing), opened (viewed listing))
  unfolding get_listing_for_response get_by_id Repository.get count_view create_view Repository.add
      in_uow count_by_listing_id get_active_for_listing Repository.get_many
  get_listing_for_response-response listing found fresh =
      elim (Bool-cases (should_count_seen listing current_user count_seen)) [
        | inl counts ↦ rw (found, counts, fresh, one_more listing) refl
        | inr ignored ↦ rw (found, ignored, none_more listing) refl
      ]
