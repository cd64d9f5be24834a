-- ===== src/Listings/Owner.antt =====
-- create_listing, update_listing and update_listing_status of src/domains/listings/service.py.
use kupio_backend.Base.{ℕ, ⊤, Bool, ◌&&◌, ◌||◌, not, Option, none, List, ◌==◌, if◌then◌else◌}
use kupio_backend.Models.Users.{User}
use kupio_backend.Models.Listings.{Listing, ListingStatus, CurrencyEnum, inactive}
use kupio_backend.Core.Action.{Action, ◌>>=◌, ◌>>◌, pure, in_uow}
use kupio_backend.Core.Repository
use kupio_backend.Core.Repository.{fits}
use kupio_backend.Categories.{get_category}
use kupio_backend.Filters.{JsonValues}
use kupio_backend.Filters.Checks.{validate_custom_filters}
use kupio_backend.Listings.{listings, get_by_id}

pub record ListingRequest : Type 0 where
  pub title : ℕ
  pub description : ℕ
  pub price : ℕ
  pub is_free : Bool
  pub is_tradable : Bool
  pub currency : CurrencyEnum
  pub category_id : ℕ
  pub custom_filters : Option (List (ℕ × ℕ))
  pub phone : Option ℕ
  pub contact_name : Option ℕ
  pub is_calls_disabled : Bool

-- `ListingRequest.check_price`
abbrev pub check_price : ListingRequest → Bool
check_price data_ = not (not data_.is_free && not data_.is_tradable && data_.price == 0)

abbrev pub new_listing : (id now user_id : ℕ) → ListingRequest → ListingStatus → Listing
new_listing id now user_id data_ status = record {
  id = id;
  user_id = user_id;
  category_id = data_.category_id;
  price = data_.price;
  is_free = data_.is_free;
  is_tradable = data_.is_tradable;
  title = data_.title;
  description = data_.description;
  currency = data_.currency;
  custom_filters = data_.custom_filters;
  phone = data_.phone;
  contact_name = data_.contact_name;
  is_calls_disabled = data_.is_calls_disabled;
  status = status;
  created_at = now;
  deleted_at = none;
}

unfoldable pub create : Listing → Action (Option Listing)
unfolding get_by_id
create listing = do added ← Repository.add listings listing; get_by_id added.id

unfoldable pub update_by_id : ℕ → (Listing → Listing) → Action (Option Listing)
unfolding get_by_id
update_by_id listing_id f = do
  Repository.update_only listings (λ l. l.id == listing_id) f
  get_by_id listing_id

abbrev pub set_columns : ListingRequest → Listing → Listing
set_columns data_ l = record l {
  category_id = data_.category_id;
  title = data_.title;
  description = data_.description;
  price = data_.price;
  is_free = data_.is_free;
  is_tradable = data_.is_tradable;
  currency = data_.currency;
  custom_filters = data_.custom_filters;
  phone = data_.phone;
  contact_name = data_.contact_name;
  is_calls_disabled = data_.is_calls_disabled;
}

abbrev pub set_status : ListingStatus → Listing → Listing
set_status new_status l = record l { status = new_status }

unfoldable pub update_listing_status : ℕ → ListingStatus → Action (Option Listing)
unfolding update_by_id
update_listing_status listing_id new_status =
    in_uow (update_by_id listing_id (set_status new_status))

module _ (json : JsonValues) where
  unfoldable pub create_listing : (id now : ℕ) → User → ListingRequest → Action (Option Listing)
  unfolding create
  create_listing id now current_user data_ = do
    get_category data_.category_id
    validate_custom_filters json data_.category_id data_.custom_filters
    in_uow (create (new_listing id now current_user.id data_ inactive))

  -- `==` of two dicts is Python's.
  module _ (same_filters : (a b : Option (List (ℕ × ℕ))) → Bool) where
    abbrev pub check_category : Listing → ListingRequest → Action ⊤
    check_category listing data_ =
        if listing.category_id == data_.category_id
        then pure tt
        else get_category data_.category_id >> pure tt

    abbrev pub check_filters : Listing → ListingRequest → Action ⊤
    check_filters listing data_ =
        if not (listing.category_id == data_.category_id)
          || not (same_filters listing.custom_filters data_.custom_filters)
        then validate_custom_filters json data_.category_id data_.custom_filters
        else pure tt

    unfoldable pub update_listing : Listing → ListingRequest → Action (Option Listing)
    unfolding update_by_id
    update_listing listing data_ = do
      check_category listing data_
      check_filters listing data_
      in_uow (update_by_id listing.id (set_columns data_))
