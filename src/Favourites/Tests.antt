-- ===== src/Favourites/Tests.antt =====
-- A buyer with two favourites, read one per page
use kupio_backend.Base.{◌≡◌, refl, false, none, some, [], ◌∷◌, arith}
use kupio_backend.Base.Int.{pos}
use kupio_backend.Base.Lists.{select, some_row}
use kupio_backend.Base.Sorted.{order_by, insert_row}
use kupio_backend.Base.Joins.{join_where}
use kupio_backend.Models.{Database, empty}
use kupio_backend.Models.Users.{User, user}
use kupio_backend.Models.Listings.{Listing, active, usd}
use kupio_backend.Models.Favourites.{ListingFavourite}
use kupio_backend.Core.Errors.{listing_not_in_favourites, listing_already_favourited}
use kupio_backend.Core.Action.{ok, err, opened, in_uow, ◌>>◌}
use kupio_backend.Core.Repository
use kupio_backend.Pagination.Pages.{follow}
use kupio_backend.Pagination.Sample.{codec, codec-IsCodec}
use kupio_backend.Favourites.{
  list_favourites, add_favourite, remove_favourite, insert_favourite, favourite_exists,
  get_by_user_and_listing, create,
}
use kupio_backend.Favourites.Lists.{follow-list_favourites}
use kupio_backend.Favourites.Bookmarks.{bookmarked, remove_favourite-add_favourite}

abbrev buyer : User
buyer = record {
  id = 2;
  username = some 21;
  email = 22;
  display_name = none;
  phone = none;
  password_hash = none;
  role = user;
  balance = pos 0;
  avatar_image_id = none;
  deleted_at = none;
}

abbrev flat : Listing
flat = record {
  id = 3;
  user_id = 1;
  category_id = 4;
  price = 90;
  is_free = false;
  is_tradable = false;
  title = 60;
  description = 61;
  currency = usd;
  custom_filters = none;
  phone = none;
  contact_name = none;
  is_calls_disabled = false;
  status = active;
  created_at = 5;
  deleted_at = none;
}

abbrev house : Listing
house = record flat { id = 4 }

abbrev first : ListingFavourite
first = record { user_id = 2; listing_id = 3; created_at = 100 }

abbrev second : ListingFavourite
second = record { user_id = 2; listing_id = 4; created_at = 200 }

abbrev wall : Database
wall = record empty { listings = flat ∷ house ∷ []; listing_favourites = first ∷ second ∷ [] }

follow-list_favourites_example :
    follow (list_favourites codec buyer 1) 3 none (opened wall)
    ≡ (ok ((second, house) ∷ (first, flat) ∷ []), opened wall)
unfolding order_by insert_row join_where select
follow-list_favourites_example =
    follow-list_favourites codec codec-IsCodec buyer 1 0 3 refl (opened wall) ((refl, tt), (tt, tt))
      ((omega arith, tt), (tt, tt)) (omega arith)

abbrev bare : Database
bare = record wall { listing_favourites = first ∷ [] }

remove_favourite-add_favourite_example :
    ((add_favourite 200 buyer house >> remove_favourite buyer 4) (opened bare)
      ≡ (ok tt, opened bare))
    × ((add_favourite 200 buyer house >> remove_favourite buyer 4 >> remove_favourite buyer 4)
          (opened bare)
        ≡ (err listing_not_in_favourites, opened bare))
    × ((add_favourite 200 buyer house >> add_favourite 300 buyer house) (opened bare)
        ≡ (err listing_already_favourited, opened (bookmarked 200 buyer house bare)))
unfolding add_favourite favourite_exists get_by_user_and_listing insert_favourite create
    Repository.get Repository.add in_uow select some_row
remove_favourite-add_favourite_example =
    remove_favourite-add_favourite 200 buyer house bare refl 300
