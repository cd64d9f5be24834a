-- ===== src/Promotions/Tests.antt =====
-- A promotion that has run out and one that has not
use kupio_backend.Base.{◌≡◌, false, [], ◌∷◌, arith}
use kupio_backend.Models.{Database, empty}
use kupio_backend.Models.Promotions.{ListingPromotion, active}
use kupio_backend.Core.Action.{opened}
use kupio_backend.Promotions.{deactivate_expired_promotions, get_active_for_listing}
use kupio_backend.Models.Listings.{Listing, usd}
use kupio_backend.Models.Listings
use kupio_backend.Base.{none}
use kupio_backend.Promotions.Expiry.{get_active_for_listing-deactivate}

abbrev old : ListingPromotion
old = record {
  id = 1;
  listing_id = 3;
  packet_id = 7;
  transaction_id = 9;
  starts_at = 10;
  expires_at = 100;
  status = active;
  created_at = 10;
}

abbrev current : ListingPromotion
current = record old { id = 2; expires_at = 900 }

abbrev wall : Database
wall = record empty { listing_promotions = old ∷ current ∷ [] }

get_active_for_listing-deactivate_example :
    (get_active_for_listing 300 3
      (opened (deactivate_expired_promotions 200 (opened wall)).1.committed)).0
    ≡ (get_active_for_listing 300 3 (opened wall)).0
get_active_for_listing-deactivate_example =
    get_active_for_listing-deactivate 200 wall 300 3 (omega arith)

abbrev flat : Listing
flat = record {
  id = 3;
  user_id = 1;
  category_id = 4;
  price = 90;
  is_free = false;
  is_tradable = false;
  title = 60;
  description = 61;
  currency = usd;
  custom_filters = none;
  phone = none;
  contact_name = none;
  is_calls_disabled = false;
  status = Listings.active;
  created_at = 5;
  deleted_at = none;
}

abbrev shop : Database
shop = record wall { listings = flat ∷ [] }
