-- ===== src/Listings/Tests.antt =====
-- A flat and its visitors
use kupio_backend.Base.{◌≡◌, ◌⊎◌, refl, true, false, Option, none, some, List, [], ◌∷◌, arith, ◌==◌}
use kupio_backend.Base.Int.{pos}
use kupio_backend.Base.Lists.{select, some_row}
use kupio_backend.Models.{Database, empty}
use kupio_backend.Models.Users.{User, user}
use kupio_backend.Models.Categories.{Category}
use kupio_backend.Models.Listings.{Listing, active, usd, price_asc}
use kupio_backend.Base.Sorted.{order_by, insert_row}
use kupio_backend.Base.Joins.{join_where}
use kupio_backend.Models.Promotions.{PromotionPacket, ListingPromotion, PromotionStatus, top}
use kupio_backend.Core.Errors.{Error}
use kupio_backend.Core.Action.{ok, err, opened, in_uow}
use kupio_backend.Filters.{JsonValues}
use kupio_backend.Core.Repository
use kupio_backend.Listings.{get_by_id}
use kupio_backend.Promotions.{get_active_for_listing}
use kupio_backend.Listings.Views.{
  ListingDetailResponse, get_listing_for_response, count_view, create_view, count_by_listing_id,
}
use kupio_backend.Listings.Visits.{
  IsCounted, IsResponse, counted, get_listing_for_response-IsResponse,
}
use kupio_backend.Listings.Owner.{ListingRequest, create_listing}
use kupio_backend.Listings.Drafts.{IsCreated, create_listing-IsCreated}
use kupio_backend.Listings.Search.{
  SqlTexts, SearchFilters, ListingWithPromotions, no_cursor, search_all,
}
use kupio_backend.Listings.Results.{IsResult, search_all-IsResult}

abbrev json : JsonValues
json = record {
  is_str = λ v. true;
  is_int_or_float = λ v. false;
  is_bool = λ v. false;
  is_list = λ v. false;
  truthy = λ v. true;
  empty_list = 0;
  is_in = λ v options. ok false;
  less = λ a b. ok false;
}

abbrev sql : SqlTexts
sql = record { mentions = λ t q. t == q; contains = λ column filters. false }

abbrev owner : User
owner = record {
  id = 1;
  username = some 11;
  email = 12;
  display_name = some 13;
  phone = some 14;
  password_hash = none;
  role = user;
  balance = pos 0;
  avatar_image_id = none;
  deleted_at = none;
}

abbrev visitor : User
visitor = record owner { id = 2; username = some 21; email = 22; phone = none }

abbrev flat : Listing
flat = record {
  id = 3;
  user_id = 1;
  category_id = 4;
  price = 90;
  is_free = false;
  is_tradable = false;
  title = 60;
  description = 61;
  currency = usd;
  custom_filters = none;
  phone = none;
  contact_name = none;
  is_calls_disabled = false;
  status = active;
  created_at = 5;
  deleted_at = none;
}

abbrev gift : Listing
gift = record flat { id = 5; is_free = true }

abbrev homes : Category
homes = record { id = 4; name = 41; icon = none; depth = 0; parent_id = none; deleted_at = none }

abbrev market : Database
market = record empty {
  users = owner ∷ visitor ∷ [];
  categories = homes ∷ [];
  listings = flat ∷ gift ∷ [];
}

get_listing_for_response-IsResponse_example :
    let q = get_listing_for_response 50 100 3 (some visitor) true (opened market) in
    (r : ListingDetailResponse) × ((IsCounted flat (some visitor) true
        × (q ≡ (ok r, opened (counted 50 100 3 (some visitor) true market flat)))
        × IsResponse 100 flat (some visitor) market 1 r)
      ⊎ ((IsCounted flat (some visitor) true → ⊥)
          × (q ≡ (ok r, opened market))
          × IsResponse 100 flat (some visitor) market 0 r))
unfolding select some_row
get_listing_for_response-IsResponse_example =
    get_listing_for_response-IsResponse 50 100 3 (some visitor) true market flat refl refl

-- The visitor sees the owner's phone and name, and is the first to be counted.
first_visit :
    (get_listing_for_response 50 100 3 (some visitor) true (opened market)).0
    ≡ ok record {
      listing = flat;
      active_promotions = [];
      seen_count = 1;
      phone = some 14;
      contact_name = some 13;
    }
unfolding get_listing_for_response count_view create_view count_by_listing_id get_by_id
    get_active_for_listing Repository.get Repository.add Repository.get_many in_uow select some_row
first_visit = refl

abbrev request : ListingRequest
request = record {
  title = 62;
  description = 63;
  price = 10;
  is_free = false;
  is_tradable = false;
  currency = usd;
  category_id = 4;
  custom_filters = none;
  phone = none;
  contact_name = none;
  is_calls_disabled = false;
}

create_listing-IsCreated_example :
    ((r : Option Listing)
      → (create_listing json 7 100 owner request (opened market)).0 ≡ ok r
      → IsCreated json 7 100 owner request market r
          (create_listing json 7 100 owner request (opened market)).1.committed)
    × ((e : Error)
        → (create_listing json 7 100 owner request (opened market)).0 ≡ err e
        → (create_listing json 7 100 owner request (opened market)).1 ≡ opened market)
create_listing-IsCreated_example = create_listing-IsCreated json 7 100 owner request market

abbrev cheap : SearchFilters
cheap = record {
  user_id = none;
  status = some active;
  q = none;
  category_id = some 4;
  min_price = none;
  max_price = some 95;
  is_free = none;
  is_tradable = none;
  custom_filters = none;
}

search_all-IsResult_example :
    (rows : List ListingWithPromotions) × (search_all sql 100 cheap 10 price_asc no_cursor
        (opened market)
      ≡ (ok rows, opened market))
    × IsResult sql 100 cheap price_asc no_cursor market 10 rows
search_all-IsResult_example =
    search_all-IsResult sql 100 cheap price_asc no_cursor 10 (opened market)
      ((omega arith, tt), (tt, tt))

-- A top promotion of the flat that runs
abbrev packet : PromotionPacket
packet = record {
  id = 8;
  name = 80;
  description = none;
  type = top;
  duration_days = 7;
  price = pos 5;
  is_active = true;
}

abbrev boost : ListingPromotion
boost = record {
  id = 9;
  listing_id = 3;
  packet_id = 8;
  transaction_id = 90;
  starts_at = 50;
  expires_at = 200;
  status = PromotionStatus.active;
  created_at = 50;
}

abbrev fair : Database
fair = record market { promotion_packets = packet ∷ []; listing_promotions = boost ∷ [] }

abbrev promoted_flat : ListingWithPromotions
promoted_flat = record { listing = flat; active_promotions = top ∷ []; promotion_rank = 1 }

abbrev plain_gift : ListingWithPromotions
plain_gift = record { listing = gift; active_promotions = []; promotion_rank = 0 }

-- The flat is promoted: it comes first, though the gift costs nothing.
promoted_first :
    search_all sql 100 cheap 10 price_asc no_cursor (opened fair)
    ≡ (ok (promoted_flat ∷ plain_gift ∷ []), opened fair)
unfolding search_all order_by insert_row select join_where
promoted_first = refl

-- Without the promotion the gift does.
cheapest_first :
    search_all sql 300 cheap 1 price_asc no_cursor (opened fair)
    ≡ (ok (plain_gift ∷ []), opened fair)
unfolding search_all order_by insert_row select join_where
cheapest_first = refl
