-- ===== src/Listings/Browse.antt =====
-- list_listings of src/domains/listings/service.py.
use kupio_backend.Base.{
  ℕ, Bool, true, false, Option, none, some, List, [], ◌∷◌, ◌==◌, if◌then◌else◌,
}
use kupio_backend.Base.Lists.{length}
use kupio_backend.Models.Listings.{Listing, SortBy, recommended, newest, price_asc, price_desc}
use kupio_backend.Core.Errors.{index_error}
use kupio_backend.Core.Action.{Result, ok, err, Action, ◌>>=◌, pure, lift, or_raise}
use kupio_backend.Pagination.Cursors.{
  Codec, decode_ranked_cursor, encode_ranked_cursor, decode_ranked_price_cursor,
  encode_ranked_price_cursor,
}
use kupio_backend.Listings.Search.{
  SqlTexts, SearchFilters, SearchCursor, no_cursor, ListingWithPromotions, effective_price,
  search_all, get_sponsored,
}

abbrev pub is_price_sort : SortBy → Bool
is_price_sort price_asc = true
is_price_sort price_desc = true
is_price_sort recommended = false
is_price_sort newest = false

pub record ListListingsResponse (Text : Type 0) : Type 0 where
  pub listings : List ListingWithPromotions
  pub sponsored : Option (List Listing)
  pub next_cursor : Option Text

abbrev pub sponsored_limit : ℕ
sponsored_limit = 20

abbrev last? : List ListingWithPromotions → Option ListingWithPromotions
last? [] = none
last? (r ∷ []) = some r
last? (r ∷ r' ∷ rs) = last? (r' ∷ rs)

module _ {Text J : Type 0} (lib : Codec Text J) (sql : SqlTexts) (now : ℕ) where
  abbrev by_price : Option ℕ × Option ℕ × Option ℕ → Result SearchCursor
  by_price (rank, price, id) = ok record { rank = rank; created_at = none; price = price; id = id }

  abbrev by_time : Option ℕ × Option ℕ × Option ℕ → Result SearchCursor
  by_time (rank, created_at, id) =
      ok record { rank = rank; created_at = created_at; price = none; id = id }

  abbrev then_read : {A : Type 0} → Result A → (A → Result SearchCursor) → Result SearchCursor
  then_read (ok a) f = f a
  then_read (err e) f = err e

  -- `if cursor: …`
  unfoldable pub read_search_cursor : SortBy → Option Text → Result SearchCursor
  read_search_cursor sort_by none = ok no_cursor
  read_search_cursor sort_by (some cursor) =
      if lib.truthy cursor
      then (if is_price_sort sort_by
          then then_read (decode_ranked_price_cursor lib cursor) by_price
          else then_read (decode_ranked_cursor lib cursor) by_time)
      else ok no_cursor

  abbrev cursor_after : SortBy → ListingWithPromotions → Text
  cursor_after sort_by r =
      if is_price_sort sort_by
      then encode_ranked_price_cursor lib r.promotion_rank (effective_price r.listing) r.listing.id
      else encode_ranked_cursor lib r.promotion_rank r.listing.created_at r.listing.id

  abbrev of_last : SortBy → List ListingWithPromotions → Action (Option Text)
  of_last sort_by rows = do
    r ← or_raise (last? rows) index_error
    pure (some (cursor_after sort_by r))

  -- Populated only on the first page of a category
  abbrev first_page_sponsored : Option ℕ → Option Text → Action (Option (List Listing))
  first_page_sponsored (some category_id) none = do
    found ← get_sponsored sql now category_id sponsored_limit
    pure (some found)
  first_page_sponsored (some category_id) (some cursor) = pure none
  first_page_sponsored none cursor = pure none

  unfoldable pub list_listings :
      SearchFilters → ℕ → SortBy → Option Text → Action (ListListingsResponse Text)
  unfolding search_all read_search_cursor get_sponsored
  list_listings f limit sort_by cursor = do
    given ← lift (read_search_cursor sort_by cursor)
    results ← search_all sql now f limit sort_by given
    next ← (if length results == limit then of_last sort_by results else pure none)
    sponsored ← first_page_sponsored f.category_id cursor
    pure record { listings = results; sponsored = sponsored; next_cursor = next }
