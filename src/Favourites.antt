-- ===== src/Favourites.antt =====
-- src/domains/favourites/service.py and repository.py
pub mod Bookmarks
pub mod Lists
mod Tests
use kupio_backend.Base.{
  ℕ, ⊤, Bool, true, false, ◌&&◌, Option, some, List, map, ◌==◌, is_none, is_some, not,
}
use kupio_backend.Base.Joins.{join_where}
use kupio_backend.Models.Users.{User}
use kupio_backend.Models.Listings.{Listing}
use kupio_backend.Models.Favourites.{ListingFavourite}
use kupio_backend.Core.Errors.{
  integrity_error, cannot_favourite_own_listing, listing_already_favourited,
  listing_not_in_favourites,
}
use kupio_backend.Core.Action.{
  ok, Action, DbSession, ◌>>=◌, ◌>>◌, pure, lift, raise, raise_if, in_uow, except_integrity_error,
}
use kupio_backend.Core.Repository
use kupio_backend.Core.Repository.{Model}
use kupio_backend.Pagination.Cursors.{Codec, read_cursor, decode_cursor, encode_cursor}
use kupio_backend.Pagination.Keyset.{page}
use kupio_backend.Pagination.Pages.{both_given, next_cursor}

-- The primary key is the pair of user and listing.
abbrev pub favourites : Model ListingFavourite
favourites = record {
  rows = λ db. db.listing_favourites;
  with_rows = λ fs db. record db { listing_favourites = fs };
  is_deleted = λ f. false;
  delete_at = λ now f. f;
  conflicts = λ a b. a.user_id == b.user_id && a.listing_id == b.listing_id;
}

abbrev pub is_favourite : (user_id listing_id : ℕ) → ListingFavourite → Bool
is_favourite user_id listing_id f = f.user_id == user_id && f.listing_id == listing_id

unfoldable pub get_by_user_and_listing : (user_id listing_id : ℕ) → Action (Option ListingFavourite)
get_by_user_and_listing user_id listing_id =
    Repository.get favourites (is_favourite user_id listing_id)

unfoldable pub create : (now user_id listing_id : ℕ) → Action ListingFavourite
create now user_id listing_id =
    Repository.add favourites
      record { user_id = user_id; listing_id = listing_id; created_at = now }

unfoldable pub delete : (user_id listing_id : ℕ) → Action Bool
delete user_id listing_id = Repository.delete favourites (is_favourite user_id listing_id)

unfoldable pub get_favourited_listings_ids : ℕ → Action (List ℕ)
get_favourited_listings_ids user_id = do
  found ← Repository.get_many favourites (λ f. f.user_id == user_id)
  pure (map (λ f. f.listing_id) found)

-- The rows of the user's list: `FavouritedListing`
abbrev pub FavouritedListing : Type 0
FavouritedListing = ListingFavourite × Listing

abbrev pub favourited_by : ℕ → ListingFavourite → Listing → Bool
favourited_by user_id f l = f.listing_id == l.id && f.user_id == user_id && is_none l.deleted_at

abbrev pub favourited_at : FavouritedListing → ℕ
favourited_at r = r.0.created_at

abbrev pub listing_id : FavouritedListing → ℕ
listing_id r = r.0.listing_id

unfoldable pub list_favourited_listings :
    (user_id limit : ℕ) → Option (ℕ × ℕ) → Action (List FavouritedListing)
list_favourited_listings user_id limit cursor s = (
  ok (
      page favourited_at listing_id limit cursor
        (join_where (favourited_by user_id) s.working.listing_favourites s.working.listings)),
  s,
)

unfoldable pub favourite_exists : (user_id listing_id : ℕ) → Action Bool
unfolding get_by_user_and_listing
favourite_exists user_id id = do
  favourite ← get_by_user_and_listing user_id id
  pure (is_some favourite)

-- `except IntegrityError` of `add_favourite`
abbrev pub again_if_exists : (user_id listing_id : ℕ) → Action ListingFavourite
again_if_exists user_id id = do
  exists_now ← favourite_exists user_id id
  raise_if exists_now listing_already_favourited
  raise integrity_error

-- The `try` of `add_favourite`, after the tests: what another request commits comes before it or after
unfoldable pub insert_favourite : ℕ → User → Listing → Action ⊤
unfolding favourite_exists create
insert_favourite now current_user listing = do
  except_integrity_error (in_uow (create now current_user.id listing.id))
      (again_if_exists current_user.id listing.id)
  pure tt

unfoldable pub add_favourite : ℕ → User → Listing → Action ⊤
unfolding favourite_exists insert_favourite
add_favourite now current_user listing = do
  raise_if (listing.user_id == current_user.id) cannot_favourite_own_listing
  exists_now ← favourite_exists current_user.id listing.id
  raise_if exists_now listing_already_favourited
  insert_favourite now current_user listing

unfoldable pub remove_favourite : User → ℕ → Action ⊤
unfolding delete
remove_favourite current_user id = do
  deleted ← in_uow (delete current_user.id id)
  raise_if (not deleted) listing_not_in_favourites

unfoldable pub get_all_favourites_ids : User → Action (List ℕ)
unfolding get_favourited_listings_ids
get_all_favourites_ids current_user = get_favourited_listings_ids current_user.id

module _ {Text J : Type 0} (lib : Codec Text J) where
  unfoldable pub list_favourites :
      User → ℕ → Option Text → Action (List FavouritedListing × Option Text)
  unfolding list_favourited_listings
  list_favourites current_user limit cursor = do
    given ← lift (read_cursor lib (decode_cursor lib) cursor)
    rows ← list_favourited_listings current_user.id limit (both_given given)
    next ← next_cursor favourited_at listing_id (encode_cursor lib) limit rows
    pure (rows, next)
