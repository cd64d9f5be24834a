-- ===== src/Listings/Search.antt =====
-- search_all and get_sponsored of src/domains/listings/repository.py.
use kupio_backend.Base.{
  ℕ, Bool, true, false, ◌&&◌, ◌||◌, not, Option, none, some, List, [], ◌∷◌, map, ◌==◌, ltb, leb,
  is_none, if◌then◌else◌,
}
use kupio_backend.Base.Lists.{take, select, some_row}
use kupio_backend.Base.Sorted.{order_by}
use kupio_backend.Base.Joins.{join_where}
use kupio_backend.Models.{Database}
use kupio_backend.Models.Listings.{
  Listing, ListingStatus, SortBy, draft, planned, active, inactive, sold, recommended, newest,
  price_asc, price_desc, is_active,
}
use kupio_backend.Models.Promotions.{
  ListingPromotion, PromotionPacket, PromotionType, type_eq, top, highlight, urgent, vip,
}
use kupio_backend.Core.Action.{ok, Action}
use kupio_backend.Promotions.{is_live}

-- The operators of SQL on texts and on JSON columns: `ILIKE` of the escaped query, and `@>`
pub record SqlTexts : Type 0 where
  pub mentions : (text query : ℕ) → Bool
  pub contains : Option (List (ℕ × ℕ)) → List (ℕ × ℕ) → Bool

abbrev pub number_of : ListingStatus → ℕ
number_of draft = 0
number_of planned = 1
number_of active = 2
number_of inactive = 3
number_of sold = 4

abbrev pub effective_price : Listing → ℕ
effective_price l = if l.is_free then 0 else l.price

pub record SearchFilters : Type 0 where
  pub user_id : Option ℕ
  pub status : Option ListingStatus
  pub q : Option ℕ
  pub category_id : Option ℕ
  pub min_price : Option ℕ
  pub max_price : Option ℕ
  pub is_free : Option Bool
  pub is_tradable : Option Bool
  pub custom_filters : Option (List (ℕ × ℕ))

-- `if … is not None: conditions.append(…)`
abbrev pub if_given : {A : Type 0} → Option A → (A → Bool) → Bool
if_given none f = true
if_given (some a) f = f a

abbrev pub same_bool : Bool → Bool → Bool
same_bool true b = b
same_bool false b = not b

module _ (sql : SqlTexts) where
  -- `if custom_filters:` passes over an empty dict.
  abbrev pub has_filters : Option (List (ℕ × ℕ)) → Listing → Bool
  has_filters none l = true
  has_filters (some []) l = true
  has_filters (some (kv ∷ rest)) l = sql.contains l.custom_filters (kv ∷ rest)

  abbrev pub search_conditions : SearchFilters → Listing → Bool
  search_conditions f l =
      is_none l.deleted_at
      && (if_given f.user_id (λ u. l.user_id == u)
          && (if_given f.status (λ st. number_of l.status == number_of st)
              && (if_given f.q (λ q. sql.mentions l.title q || sql.mentions l.description q)
                  && (if_given f.category_id (λ c. l.category_id == c)
                      && (if_given f.is_free (λ b. same_bool b l.is_free)
                          && (if_given f.is_tradable (λ b. same_bool b l.is_tradable)
                              && (if_given f.min_price (λ p. leb p (effective_price l))
                                  && (if_given f.max_price (λ p. leb (effective_price l) p)
                                      && has_filters f.custom_filters l))))))))

-- The `rank` of a packet's type
abbrev pub type_rank : PromotionType → ℕ
type_rank vip = 2
type_rank top = 1
type_rank highlight = 0
type_rank urgent = 0

abbrev pub larger : ℕ → ℕ → ℕ
larger a b = if leb a b then b else a

-- `coalesce(max(…), 0)`
abbrev pub max_of : {A : Type 0} → (A → ℕ) → List A → ℕ
max_of f [] = 0
max_of f (x ∷ xs) = larger (f x) (max_of f xs)

-- The running promotions of a listing with their packets
abbrev pub promotions_of : ℕ → Database → ℕ → List (ListingPromotion × PromotionPacket)
promotions_of now db listing_id =
    join_where
      (λ p packet. p.packet_id == packet.id && (p.listing_id == listing_id && is_live now p))
      db.listing_promotions db.promotion_packets

abbrev pub rank_of : ℕ → Database → Listing → ℕ
rank_of now db l = max_of (λ r. type_rank r.1.type) (promotions_of now db l.id)

pub record ListingWithPromotions : Type 0 where
  pub listing : Listing
  pub active_promotions : List PromotionType
  pub promotion_rank : ℕ

abbrev pub with_promotions : ℕ → Database → Listing → ListingWithPromotions
with_promotions now db l = record {
  listing = l;
  active_promotions = map (λ r. r.1.type) (promotions_of now db l.id);
  promotion_rank = rank_of now db l;
}

-- The values that a cursor gives: None where it does not give one
pub record SearchCursor : Type 0 where
  pub rank : Option ℕ
  pub created_at : Option ℕ
  pub price : Option ℕ
  pub id : Option ℕ

abbrev pub no_cursor : SearchCursor
no_cursor = record { rank = none; created_at = none; price = none; id = none }

-- Whether a row comes after one with these values, in each of the three orders
abbrev pub newer : ListingWithPromotions → (rank created_at id : ℕ) → Bool
newer r rank created_at id =
    ltb r.promotion_rank rank
    || ((r.promotion_rank == rank && ltb r.listing.created_at created_at)
        || (r.promotion_rank == rank
            && (r.listing.created_at == created_at && ltb r.listing.id id)))

abbrev pub dearer : ListingWithPromotions → (rank price id : ℕ) → Bool
dearer r rank price id =
    ltb r.promotion_rank rank
    || ((r.promotion_rank == rank && ltb price (effective_price r.listing))
        || (r.promotion_rank == rank
            && (effective_price r.listing == price && ltb id r.listing.id)))

abbrev pub cheaper : ListingWithPromotions → (rank price id : ℕ) → Bool
cheaper r rank price id =
    ltb r.promotion_rank rank
    || ((r.promotion_rank == rank && ltb (effective_price r.listing) price)
        || (r.promotion_rank == rank
            && (effective_price r.listing == price && ltb r.listing.id id)))

-- The condition of a cursor, where all three values are given
abbrev pub if_all_given : Option ℕ → Option ℕ → Option ℕ → (ℕ → ℕ → ℕ → Bool) → Bool
if_all_given (some a) (some b) (some c) f = f a b c
if_all_given (some a) (some b) none f = true
if_all_given (some a) none c f = true
if_all_given none b c f = true

abbrev pub after_cursor : SortBy → SearchCursor → ListingWithPromotions → Bool
after_cursor recommended c r = if_all_given c.rank c.created_at c.id (newer r)
after_cursor newest c r = if_all_given c.rank c.created_at c.id (newer r)
after_cursor price_asc c r = if_all_given c.rank c.price c.id (dearer r)
after_cursor price_desc c r = if_all_given c.rank c.price c.id (cheaper r)

-- ORDER BY: `first a b` tells that b comes after a.
abbrev pub first : SortBy → ListingWithPromotions → ListingWithPromotions → Bool
first recommended a b = newer b a.promotion_rank a.listing.created_at a.listing.id
first newest a b = newer b a.promotion_rank a.listing.created_at a.listing.id
first price_asc a b = dearer b a.promotion_rank (effective_price a.listing) a.listing.id
first price_desc a b = cheaper b a.promotion_rank (effective_price a.listing) a.listing.id

module _ (sql : SqlTexts) (now : ℕ) where
  unfoldable pub search_all :
      SearchFilters → ℕ → SortBy → SearchCursor → Action (List ListingWithPromotions)
  search_all f limit sort_by cursor s = (
    ok (
        take limit (
          order_by (first sort_by) (
            select (after_cursor sort_by cursor) (
              map (with_promotions now s.working)
                (select (search_conditions sql f) s.working.listings))))),
    s,
  )

  -- ON and WHERE of `get_sponsored`
  abbrev pub is_sponsored : Database → ℕ → ListingPromotion → Listing → Bool
  is_sponsored db category_id p l =
      p.listing_id == l.id
      && (is_none l.deleted_at
          && (is_active l.status
              && (l.category_id == category_id
                  && (is_live now p
                      && some_row (λ packet. p.packet_id == packet.id && type_eq packet.type vip)
                          db.promotion_packets))))

  abbrev pub started_later : ListingPromotion × Listing → ListingPromotion × Listing → Bool
  started_later a b = ltb b.0.starts_at a.0.starts_at

  -- `.unique()`: each row once, where it comes first
  abbrev pub unique : List Listing → List Listing
  unique [] = []
  unique (l ∷ ls) = l ∷ select (λ x. not (x.id == l.id)) (unique ls)

  unfoldable pub get_sponsored : (category_id limit : ℕ) → Action (List Listing)
  get_sponsored category_id limit s = (
    ok (
        unique (
          map (λ r. r.1)
            (take limit (
              order_by started_later (
                join_where (is_sponsored s.working category_id) s.working.listing_promotions
                  s.working.listings))))),
    s,
  )
