-- ===== src/Listings/Stats.antt =====
-- The owner's list and dashboard: search_all_with_owner_stats and get_owner_dashboard_stats of
-- src/domains/listings/repository.py, list_owned_listings of service.py.
use kupio_backend.Base.{
  ℕ, suc, ◌≡◌, ◌≢◌, ◌<◌, refl, Bool, true, false, ◌&&◌, not, Option, none, some, List, [], ◌∷◌, map,
  ◌==◌, leb, is_none, is_some, if◌then◌else◌,
}
use kupio_backend.Base.Lists.{All, UniqueBy, length, select}
use kupio_backend.Base.Sorted.{UniqueBy-select}
use kupio_backend.Base.Joins.{join_where}
use kupio_backend.Models.{Database}
use kupio_backend.Models.Listings.{Listing, ListingStatus, active, inactive}
use kupio_backend.Models.Promotions.{ListingPromotion}
use kupio_backend.Core.Action.{ok, Action, DbSession, ◌>>=◌, pure, lift}
use kupio_backend.Pagination.Cursors.{Codec, IsCodec, read_cursor, decode_cursor, encode_cursor}
use kupio_backend.Pagination.Keyset.{page, newest_first}
use kupio_backend.Pagination.Pages.{
  both_given, next_cursor, follow, lift_then, read_page, follow-newest_first,
}
use kupio_backend.Pagination.RoundTrips.{decode_cursor-encode_cursor}
use kupio_backend.Promotions.{is_live}
use kupio_backend.Listings.Search.{SqlTexts, SearchFilters, search_conditions}

pub record OwnerListingStats : Type 0 where
  pub listing : Listing
  pub seen_count : ℕ
  pub favourites_count : ℕ
  pub chats_count : ℕ
  pub promotion_expires_at : Option ℕ

abbrev pub is_promoted : OwnerListingStats → Bool
is_promoted r = is_some r.promotion_expires_at

-- `func.max`, None of no rows
abbrev pub latest : List ListingPromotion → Option ℕ
latest [] = none
latest (p ∷ ps) = later (latest ps)
  where
    later : Option ℕ → Option ℕ
    later none = some p.expires_at
    later (some t) = some (if leb t p.expires_at then p.expires_at else t)

abbrev pub stats_of : ℕ → Database → Listing → OwnerListingStats
stats_of now db l = record {
  listing = l;
  seen_count = length (select (λ v. v.listing_id == l.id) db.listing_views);
  favourites_count = length (select (λ f. f.listing_id == l.id) db.listing_favourites);
  chats_count = length (select (λ c. c.listing_id == l.id) db.conversations);
  promotion_expires_at =
      latest (select (λ p. p.listing_id == l.id && is_live now p) db.listing_promotions);
}

abbrev pub created_at : OwnerListingStats → ℕ
created_at r = r.listing.created_at

abbrev pub id : OwnerListingStats → ℕ
id r = r.listing.id

abbrev pub owned_filters : ℕ → Option ListingStatus → SearchFilters
owned_filters user_id status = record {
  user_id = some user_id;
  status = status;
  q = none;
  category_id = none;
  min_price = none;
  max_price = none;
  is_free = none;
  is_tradable = none;
  custom_filters = none;
}

-- `func.count(func.distinct(…))` of a column
abbrev pub distinct : List ℕ → List ℕ
distinct [] = []
distinct (x ∷ xs) = x ∷ select (λ y. not (y == x)) (distinct xs)

abbrev pub is_active : ListingStatus → Bool
is_active active = true
is_active _ = false

abbrev pub is_inactive : ListingStatus → Bool
is_inactive inactive = true
is_inactive _ = false

abbrev pub is_owned : ℕ → Listing → Bool
is_owned user_id l = l.user_id == user_id && is_none l.deleted_at

pub record OwnerDashboardStats : Type 0 where
  pub active_count : ℕ
  pub inactive_count : ℕ
  pub promoted_count : ℕ
  pub chats_count : ℕ
  pub favourites_count : ℕ

unfoldable pub get_owner_dashboard_stats : (now user_id : ℕ) → Action OwnerDashboardStats
get_owner_dashboard_stats now user_id s = (
  ok record {
    active_count =
        length (select (λ l. is_owned user_id l && is_active l.status) s.working.listings);
    inactive_count =
        length (select (λ l. is_owned user_id l && is_inactive l.status) s.working.listings);
    promoted_count = length (
        distinct (
          map (λ r. r.0.listing_id)
            (join_where (λ p l. l.id == p.listing_id && (is_owned user_id l && is_live now p))
              s.working.listing_promotions s.working.listings)));
    chats_count = length (
        join_where (λ c l. l.id == c.listing_id && is_owned user_id l) s.working.conversations
          s.working.listings);
    favourites_count = length (
        join_where (λ f l. l.id == f.listing_id && is_owned user_id l) s.working.listing_favourites
          s.working.listings);
  },
  s,
)

module _ (sql : SqlTexts) (now user_id : ℕ) (status : Option ListingStatus) where
  abbrev pub owned : Database → List OwnerListingStats
  owned db =
      map (stats_of now db)
        (select (search_conditions sql (owned_filters user_id status)) db.listings)

  unfoldable pub search_all_with_owner_stats : ℕ → Option (ℕ × ℕ) → Action (List OwnerListingStats)
  search_all_with_owner_stats limit cursor s =
      (ok (page created_at id limit cursor (owned s.working)), s)

  module _ {Text J : Type 0} (lib : Codec Text J) (limit : ℕ) where
    unfoldable pub list_owned_listings : Option Text → Action (List OwnerListingStats × Option Text)
    unfolding search_all_with_owner_stats
    list_owned_listings cursor = do
      given ← lift (read_cursor lib (decode_cursor lib) cursor)
      rows ← search_all_with_owner_stats limit (both_given given)
      next ← next_cursor created_at id (encode_cursor lib) limit rows
      pure (rows, next)

    All-map :
        (db : Database) (k : ℕ) (ls : List Listing)
        → All (λ l. l.id ≢ k) ls
        → All (λ r. id r ≢ k) (map (stats_of now db) ls)
    All-map db k [] h = tt
    All-map db k (l ∷ ls) h = (h.0, All-map db k ls h.1)

    UniqueBy-map :
        (db : Database) (ls : List Listing)
        → UniqueBy (λ l. l.id) ls
        → UniqueBy id (map (stats_of now db) ls)
    UniqueBy-map db [] h = tt
    UniqueBy-map db (l ∷ ls) h = (All-map db l.id ls h.0, UniqueBy-map db ls h.1)

    -- An owner who hands back each next cursor gets every listing of the owner's that is not deleted and
    -- has the status asked for, once, the newest first, each with its counts, and the list ends.
    pub follow-list_owned_listings :
        IsCodec lib
        → (n fuel : ℕ) → limit ≡ suc n
        → (s : DbSession) → UniqueBy (λ l. l.id) s.working.listings
        → length (owned s.working) < fuel
        → follow list_owned_listings fuel none s
          ≡ (ok (newest_first created_at id (owned s.working)), s)
    unfolding list_owned_listings search_all_with_owner_stats read_page encode_cursor
    follow-list_owned_listings sound n fuel full s unique low =
        follow-newest_first created_at id lib (decode_cursor lib) (encode_cursor lib) limit
          (owned s.working) s list_owned_listings
          (λ cursor. lift_then (read_cursor lib (decode_cursor lib) cursor) _ _ s (λ given. refl))
          (λ t i. sound.truthy-dumps _) (decode_cursor-encode_cursor lib sound) n fuel full
          (UniqueBy-map s.working _ (UniqueBy-select _ _ s.working.listings unique)) low
