-- ===== src/Listings/Results.antt =====
-- What a search returns: the first of the listings that are asked for, in order, and all of them.
use kupio_backend.Base.{
  ℕ, ◌≤◌, ◌≡◌, ◌≢◌, refl, ap, ◌∙◌, subst, ◌⊎◌, true, false, ◌||◌, List, [], ◌∷◌, map, arith, inl,
  inr,
}
use Prim.Native.Nat.{zero, suc}
use kupio_backend.Base.Lists.{All, All-mono, UniqueBy, length, take, select}
use kupio_backend.Base.Pairs.{AllPairs, AllPairs-mono}
use kupio_backend.Base.Joins.{UniqueBy-AllPairs}
use kupio_backend.Base.Sorted.{
  order_by, IsOrdered, IsTotal, All-order_by, order_by-IsOrdered, UniqueBy-select,
}
use kupio_backend.Base.Members.{
  In, All_of_In, In-select, In-select-holds, In-order_by, In-take, In-map, In-map-from,
}
use kupio_backend.Models.{Database}
use kupio_backend.Models.Listings.{Listing, SortBy, recommended, newest, price_asc, price_desc}
use kupio_backend.Core.Action.{ok, DbSession}
use kupio_backend.Listings.Ranking.{
  Precedes, first-Precedes, IsBehind, after_cursor-IsBehind, IsBehind-after_cursor, IsRank,
  rank_of-IsRank,
}
use kupio_backend.Listings.Selection.{
  IsSelected, search_conditions-IsSelected, IsSelected-search_conditions,
}
use kupio_backend.Listings.Search.{
  SqlTexts, SearchFilters, SearchCursor, ListingWithPromotions, search_all, search_conditions,
  first, after_cursor, with_promotions,
}

module _ {A : Type 0} where
  All-take : (P : A → Type 0) (n : ℕ) (xs : List A) → All P xs → All P (take n xs)
  All-take P zero xs h = tt
  All-take P (suc n) [] h = tt
  All-take P (suc n) (x ∷ xs) h = (h.0, All-take P n xs h.1)

  AllPairs-take :
      (rel : A → A → Type 0) (n : ℕ) (xs : List A) → AllPairs rel xs → AllPairs rel (take n xs)
  AllPairs-take rel zero xs h = tt
  AllPairs-take rel (suc n) [] h = tt
  AllPairs-take rel (suc n) (x ∷ xs) h = (All-take (rel x) n xs h.0, AllPairs-take rel n xs h.1)

  length-take : (n : ℕ) (xs : List A) → length (take n xs) ≤ n
  length-take zero xs = omega arith
  length-take (suc n) [] = omega arith
  length-take (suc n) (x ∷ xs) = omega (arith, length-take n xs)

first_trans :
    (sort_by : SortBy) (x y z : ListingWithPromotions)
    → first sort_by x y ≡ true
    → first sort_by y z ≡ true
    → first sort_by x z ≡ true
first_trans recommended x y z h k = ground arith
first_trans newest x y z h k = ground arith
first_trans price_asc x y z h k = ground arith
first_trans price_desc x y z h k = ground arith

first_asymm :
    (sort_by : SortBy) (x y : ListingWithPromotions)
    → first sort_by x y ≡ true
    → first sort_by y x ≡ false
first_asymm recommended x y h = ground arith
first_asymm newest x y h = ground arith
first_asymm price_asc x y h = ground arith
first_asymm price_desc x y h = ground arith

first_total :
    (sort_by : SortBy) (x y : ListingWithPromotions)
    → y.listing.id ≢ x.listing.id
    → (first sort_by x y || first sort_by y x) ≡ true
first_total recommended x y h = ground arith
first_total newest x y h = ground arith
first_total price_asc x y h = ground arith
first_total price_desc x y h = ground arith

module _ (sql : SqlTexts) (now : ℕ) (f : SearchFilters) (sort_by : SortBy) (cursor : SearchCursor)
    (db : Database) where
  -- A row of a result: a listing of the table that the filters select, with the rank of its running
  -- promotions, which comes after every row that the cursor can have been made of
  pub record IsHit (r : ListingWithPromotions) : Type 0 where
    pub in_table : In r.listing db.listings
    pub selected : IsSelected sql f r.listing
    pub ranked : IsRank now db r.listing r.promotion_rank
    pub behind : IsBehind sort_by cursor r

  -- No more rows than asked for, each row before all that follow it, each one a hit; and a hit that is
  -- not among them comes after all of them, where there are as many as asked for.
  pub record IsResult (limit : ℕ) (rows : List ListingWithPromotions) : Type 0 where
    pub short : length rows ≤ limit
    pub ordered : AllPairs (Precedes sort_by) rows
    pub hits_only : All IsHit rows
    pub complete :
        (l : Listing)
        → In l db.listings
        → IsSelected sql f l
        → IsBehind sort_by cursor (with_promotions now db l)
        → In (with_promotions now db l) rows
          ⊎ ((length rows ≡ limit) × All (λ r. Precedes sort_by r (with_promotions now db l)) rows)

  All-map :
      (P : ListingWithPromotions → Type 0) (ls : List Listing)
      → All (λ l. P (with_promotions now db l)) ls
      → All P (map (with_promotions now db) ls)
  All-map P [] h = tt
  All-map P (l ∷ ls) h = (h.0, All-map P ls h.1)

  UniqueBy-map :
      (ls : List Listing)
      → UniqueBy (λ l. l.id) ls
      → UniqueBy (λ r. r.listing.id) (map (with_promotions now db) ls)
  UniqueBy-map [] h = tt
  UniqueBy-map (l ∷ ls) h = (All-map (λ r. r.listing.id ≢ l.id) ls h.0, UniqueBy-map ls h.1)

  abbrev matches : List ListingWithPromotions
  matches = map (with_promotions now db) (select (search_conditions sql f) db.listings)

  abbrev hits : List ListingWithPromotions
  hits = select (after_cursor sort_by cursor) matches

  hits-IsTotal : UniqueBy (λ l. l.id) db.listings → IsTotal (first sort_by) hits
  hits-IsTotal unique =
      UniqueBy-AllPairs (λ r. r.listing.id) hits
        (UniqueBy-select _ (after_cursor sort_by cursor) matches
          (UniqueBy-map _ (UniqueBy-select _ (search_conditions sql f) db.listings unique)))
        (first_total sort_by)

  hits-IsHit : All IsHit hits
  hits-IsHit = All_of_In IsHit hits (λ r i.
      let (matched, after) = In-select-holds (after_cursor sort_by cursor) matches r i in
      let (l, found, same) =
        In-map-from (with_promotions now db) (select (search_conditions sql f) db.listings) r
          matched in
      let (there, fits) = In-select-holds (search_conditions sql f) db.listings l found in
      let behind : after_cursor sort_by cursor (with_promotions now db l) ≡ true =
        ap (after_cursor sort_by cursor) same ∙ after in
      subst IsHit same (record {
        in_table = there;
        selected = search_conditions-IsSelected sql l f fits;
        ranked = rank_of-IsRank now db l;
        behind = after_cursor-IsBehind sort_by cursor (with_promotions now db l) behind;
      }))

  In-hits :
      (l : Listing)
      → In l db.listings
      → IsSelected sql f l
      → IsBehind sort_by cursor (with_promotions now db l)
      → In (with_promotions now db l) hits
  In-hits l there fits behind =
      In-select (after_cursor sort_by cursor) matches (with_promotions now db l)
        (In-map (with_promotions now db) (select (search_conditions sql f) db.listings) l (
          In-select (search_conditions sql f) db.listings l there
            (IsSelected-search_conditions sql l f fits)))
        (IsBehind-after_cursor sort_by cursor (with_promotions now db l) behind)

  abbrev sorted : List ListingWithPromotions
  sorted = order_by (first sort_by) hits

  sorted-IsOrdered : UniqueBy (λ l. l.id) db.listings → IsOrdered (first sort_by) sorted
  sorted-IsOrdered unique =
      order_by-IsOrdered (first sort_by) (first_trans sort_by) (first_asymm sort_by) hits
        (hits-IsTotal unique)

  take-IsResult :
      (limit : ℕ) → UniqueBy (λ l. l.id) db.listings → IsResult limit (take limit sorted)
  take-IsResult limit unique = record {
    short = length-take limit sorted;
    ordered =
        AllPairs-mono _ (Precedes sort_by) (take limit sorted) (first-Precedes sort_by)
          (AllPairs-take _ limit sorted (sorted-IsOrdered unique));
    hits_only = All-take _ limit sorted (All-order_by (first sort_by) IsHit hits hits-IsHit);
    complete = λ l there fits behind.
        let h = with_promotions now db l in
        let found = In-order_by (first sort_by) h hits (In-hits l there fits behind) in
        elim (In-take (first sort_by) limit h sorted (sorted-IsOrdered unique) found) [
          | inl among ↦ inl among
          | inr (full, before) ↦
              inr (full, All-mono (take limit sorted) (λ r. first-Precedes sort_by r h) before)
        ];
  }

-- Where listing ids are unique, a search returns at most as many rows as asked for, and changes nothing.
-- Each row is a listing of the table that is not deleted and that each filter given selects, within
-- the price bounds given, where a free one costs nothing, with the greatest weight of its running
-- promotions as its rank. The rows stand by rank, then in the order asked for, then by id, and each
-- comes after the row that the cursor was made of. A listing of this kind that is missing comes
-- after every row returned, and then there are as many as asked for.
pub search_all-IsResult :
    (sql : SqlTexts) (now : ℕ) (f : SearchFilters) (sort_by : SortBy) (cursor : SearchCursor)
    (limit : ℕ) (s : DbSession)
    → UniqueBy (λ l. l.id) s.working.listings
    → (rows : List ListingWithPromotions) × (search_all sql now f limit sort_by cursor s
        ≡ (ok rows, s))
      × IsResult sql now f sort_by cursor s.working limit rows
unfolding search_all
search_all-IsResult sql now f sort_by cursor limit s unique =
    let rows = order_by (first sort_by) (hits sql now f sort_by cursor s.working) in
    (take limit rows, refl, take-IsResult sql now f sort_by cursor s.working limit unique)
