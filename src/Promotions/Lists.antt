-- ===== src/Promotions/Lists.antt =====
-- list_my_promotions and the query of src/domains/promotions/repository.py behind it.
use kupio_backend.Base.{
  ℕ, suc, ◌≡◌, ◌<◌, Bool, ◌&&◌, Option, none, List, refl, ◌==◌, is_none, arith,
}
use kupio_backend.Base.Lists.{UniqueBy, length}
use kupio_backend.Base.Joins.{join_where, UniqueBy-join_where, select_one, UniqueBy-AllPairs}
use kupio_backend.Models.{Database}
use kupio_backend.Models.Listings.{Listing}
use kupio_backend.Models.Promotions.{ListingPromotion}
use kupio_backend.Core.Action.{ok, Action, DbSession, ◌>>=◌, pure, lift}
use kupio_backend.Pagination.Cursors.{Codec, IsCodec, read_cursor, decode_cursor, encode_cursor}
use kupio_backend.Pagination.Keyset.{page, newest_first}
use kupio_backend.Pagination.Pages.{
  both_given, next_cursor, follow, lift_then, read_page, follow-newest_first,
}
use kupio_backend.Pagination.RoundTrips.{decode_cursor-encode_cursor}

-- ON and WHERE: a promotion and its listing, which is the user's and not deleted
abbrev pub promoted_by : ℕ → ListingPromotion → Listing → Bool
promoted_by user_id p l = p.listing_id == l.id && l.user_id == user_id && is_none l.deleted_at

abbrev pub PromotedListing : Type 0
PromotedListing = ListingPromotion × Listing

abbrev pub created_at : PromotedListing → ℕ
created_at r = r.0.created_at

abbrev pub id : PromotedListing → ℕ
id r = r.0.id

abbrev pub promoted : ℕ → Database → List PromotedListing
promoted user_id db = join_where (promoted_by user_id) db.listing_promotions db.listings

unfoldable pub get_by_user : (user_id limit : ℕ) → Option (ℕ × ℕ) → Action (List PromotedListing)
get_by_user user_id limit cursor s =
    (ok (page created_at id limit cursor (promoted user_id s.working)), s)

module _ {Text J : Type 0} (lib : Codec Text J) (current_user_id limit : ℕ) where
  -- The promotions come with their listings, which the response leaves out.
  unfoldable pub list_my_promotions : Option Text → Action (List PromotedListing × Option Text)
  unfolding get_by_user
  list_my_promotions cursor = do
    given ← lift (read_cursor lib (decode_cursor lib) cursor)
    rows ← get_by_user current_user_id limit (both_given given)
    next ← next_cursor created_at id (encode_cursor lib) limit rows
    pure (rows, next)

  promoted-UniqueBy :
      (db : Database)
      → UniqueBy (λ p. p.id) db.listing_promotions
      → UniqueBy (λ l. l.id) db.listings
      → UniqueBy id (promoted current_user_id db)
  promoted-UniqueBy db own unique =
      UniqueBy-join_where (promoted_by current_user_id) db.listings (λ p. p.id)
        db.listing_promotions
        (λ p.
          select_one (λ l. l.id) p.listing_id (promoted_by current_user_id p) db.listings
            (λ l fits. ground arith) unique)
        (UniqueBy-AllPairs (λ p. p.id) db.listing_promotions own
          (λ a b differ l l' fits fits'. differ))

  -- A user who hands back each next cursor gets every promotion of a listing of the user's that is
  -- not deleted, once, the newest first, and the list ends, whatever the page size above zero, where
  -- promotions and listings have unique ids.
  pub follow-list_my_promotions :
      IsCodec lib
      → (n fuel : ℕ) → limit ≡ suc n
      → (s : DbSession) → UniqueBy (λ p. p.id) s.working.listing_promotions
      → UniqueBy (λ l. l.id) s.working.listings
      → length (promoted current_user_id s.working) < fuel
      → follow list_my_promotions fuel none s
        ≡ (ok (newest_first created_at id (promoted current_user_id s.working)), s)
  unfolding list_my_promotions get_by_user read_page encode_cursor
  follow-list_my_promotions sound n fuel full s own unique low =
      follow-newest_first created_at id lib (decode_cursor lib) (encode_cursor lib) limit
        (promoted current_user_id s.working) s list_my_promotions
        (λ cursor. lift_then (read_cursor lib (decode_cursor lib) cursor) _ _ s (λ given. refl))
        (λ t i. sound.truthy-dumps _) (decode_cursor-encode_cursor lib sound) n fuel full
        (promoted-UniqueBy s.working own unique) low
