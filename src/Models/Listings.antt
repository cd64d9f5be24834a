-- ===== src/Models/Listings.antt =====
-- src/domains/listings/models.py and enums.py: the columns that listings, reports and promotions read
use kupio_backend.Base.{ℕ, Option, List, Bool, false, true, is_some}

pub data ListingStatus : Type 0 where
  draft planned active inactive sold : ListingStatus

abbrev pub is_active : ListingStatus → Bool
is_active active = true
is_active _ = false

pub data CurrencyEnum : Type 0 where
  usd eur czk uah : CurrencyEnum

pub data SortBy : Type 0 where
  recommended newest price_asc price_desc : SortBy

-- `custom_filters` pairs slugs with JSON values. An empty `contact_name` counts as None, as Python's `or` has it.
pub record Listing : Type 0 where
  pub id : ℕ
  pub user_id : ℕ
  pub category_id : ℕ
  pub price : ℕ
  pub is_free : Bool
  pub is_tradable : Bool
  pub title : ℕ
  pub description : ℕ
  pub currency : CurrencyEnum
  pub custom_filters : Option (List (ℕ × ℕ))
  pub phone : Option ℕ
  pub contact_name : Option ℕ
  pub is_calls_disabled : Bool
  pub status : ListingStatus
  pub created_at : ℕ
  pub deleted_at : Option ℕ

abbrev pub is_deleted : Listing → Bool
is_deleted l = is_some l.deleted_at

pub record ListingView : Type 0 where
  pub id : ℕ
  pub listing_id : ℕ
  pub viewer_user_id : Option ℕ
