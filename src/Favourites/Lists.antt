-- ===== src/Favourites/Lists.antt =====
-- list_favourites, page after page.
use kupio_backend.Base.{ℕ, ◌≡◌, ◌<◌, refl, none, List, false, arith, suc}
use kupio_backend.Base.Lists.{UniqueBy, length}
use kupio_backend.Base.Pairs.{AllPairs, AllPairs-mono}
use kupio_backend.Base.Joins.{join_where, UniqueBy-join_where, select_one}
use kupio_backend.Models.{Database}
use kupio_backend.Models.Users.{User}
use kupio_backend.Models.Favourites.{ListingFavourite}
use kupio_backend.Core.Action.{ok, DbSession}
use kupio_backend.Pagination.Cursors.{Codec, IsCodec, encode_cursor, decode_cursor, read_cursor}
use kupio_backend.Pagination.Keyset.{newest_first}
use kupio_backend.Pagination.Pages.{follow, lift_then, read_page, follow-newest_first}
use kupio_backend.Pagination.RoundTrips.{decode_cursor-encode_cursor}
use kupio_backend.Favourites.{
  favourites, favourited_by, favourited_at, listing_id, list_favourites, list_favourited_listings,
  FavouritedListing,
}

-- No two rows have one primary key.
abbrev pub IsFavouritesTable : List ListingFavourite → Type 0
IsFavouritesTable = AllPairs (λ a b. favourites.conflicts a b ≡ false)

-- What the user's list shows
abbrev pub favourited : ℕ → Database → List FavouritedListing
favourited user_id db = join_where (favourited_by user_id) db.listing_favourites db.listings

favourited-UniqueBy :
    (user_id : ℕ) (db : Database)
    → IsFavouritesTable db.listing_favourites
    → UniqueBy (λ l. l.id) db.listings
    → UniqueBy listing_id (favourited user_id db)
favourited-UniqueBy user_id db table unique =
    UniqueBy-join_where (favourited_by user_id) db.listings (λ f. f.listing_id)
      db.listing_favourites
      (λ f.
        select_one (λ l. l.id) f.listing_id (favourited_by user_id f) db.listings
          (λ l fits. ground arith) unique)
      (AllPairs-mono _ _ db.listing_favourites (λ a b differ l l' fits fits' same. ground arith)
        table)

module _ {Text J : Type 0} (lib : Codec Text J) (sound : IsCodec lib) (current_user : User)
    (limit n fuel : ℕ) (full : limit ≡ suc n) (s : DbSession) where
  -- A user who lists favourites and hands back each next cursor gets every favourite of a listing that
  -- is not deleted, once, the newest first, and the list ends, whatever the page size above zero,
  -- where favourites and listings have unique keys.
  pub follow-list_favourites :
      IsFavouritesTable s.working.listing_favourites
      → UniqueBy (λ l. l.id) s.working.listings
      → length (favourited current_user.id s.working) < fuel
      → follow (list_favourites lib current_user limit) fuel none s
        ≡ (ok (newest_first favourited_at listing_id (favourited current_user.id s.working)), s)
  unfolding list_favourites list_favourited_listings read_page encode_cursor
  follow-list_favourites table unique low =
      follow-newest_first favourited_at listing_id lib (decode_cursor lib) (encode_cursor lib) limit
        (favourited current_user.id s.working) s (list_favourites lib current_user limit)
        (λ cursor. lift_then (read_cursor lib (decode_cursor lib) cursor) _ _ s (λ given. refl))
        (λ t i. sound.truthy-dumps _) (decode_cursor-encode_cursor lib sound) n fuel full
        (favourited-UniqueBy current_user.id s.working table unique) low
