-- ===== src/Listings/Ranking.antt =====
-- What a search promises, in words of the columns: the price of a listing, its rank by the promotions that
-- run, which of two results comes first, and what the filters ask for.
use kupio_backend.Base.{
  ℕ, ◌≤◌, ◌<◌, ◌≡◌, refl, sym, ap, ◌∙◌, ◌⊎◌, inl, inr, Bool, true, false, ◌&&◌, Option, none, some,
  List, [], ◌∷◌, arith, ◌==◌, leb, Bool-cases,
}
use kupio_backend.Base.Members.{In, In-join_where, In-join_where-holds}
use kupio_backend.Models.{Database}
use kupio_backend.Models.Listings.{Listing, SortBy, recommended, newest, price_asc, price_desc}
use kupio_backend.Models.Promotions.{
  ListingPromotion, PromotionPacket, PromotionType, top, highlight, urgent, vip,
}
use kupio_backend.Promotions.Running.{IsRunning, is_live-IsRunning, IsRunning-is_live}
use kupio_backend.Promotions.{is_live}
use kupio_backend.Listings.Search.{
  SearchCursor, ListingWithPromotions, effective_price, first, after_cursor, type_rank, max_of,
  promotions_of, rank_of, if_all_given,
}

-- What a listing costs: nothing if it is free
abbrev pub asked : Listing → ℕ
asked l = elim l.is_free [ true ↦ 0 | false ↦ l.price ]

pub effective_price-asked : (l : Listing) → effective_price l ≡ asked l
effective_price-asked l = elim (Bool-cases l.is_free) [
  | inl free ↦ rw free refl
  | inr paid ↦ rw paid refl
]

-- What comes first among results of one rank
abbrev pub Leads : SortBy → ListingWithPromotions → ListingWithPromotions → Type 0
Leads recommended a b =
    (b.listing.created_at < a.listing.created_at)
    ⊎ ((a.listing.created_at ≡ b.listing.created_at) × (b.listing.id < a.listing.id))
Leads newest a b =
    (b.listing.created_at < a.listing.created_at)
    ⊎ ((a.listing.created_at ≡ b.listing.created_at) × (b.listing.id < a.listing.id))
Leads price_asc a b =
    (asked a.listing < asked b.listing)
    ⊎ ((asked a.listing ≡ asked b.listing) × (a.listing.id < b.listing.id))
Leads price_desc a b =
    (asked b.listing < asked a.listing)
    ⊎ ((asked a.listing ≡ asked b.listing) × (b.listing.id < a.listing.id))

-- A higher rank comes first, whatever the order asked for.
abbrev pub Precedes : SortBy → ListingWithPromotions → ListingWithPromotions → Type 0
Precedes sort_by a b =
    (b.promotion_rank < a.promotion_rank)
    ⊎ ((a.promotion_rank ≡ b.promotion_rank) × Leads sort_by a b)

pub first-Precedes :
    (sort_by : SortBy) (a b : ListingWithPromotions)
    → first sort_by a b ≡ true
    → Precedes sort_by a b
first-Precedes recommended a b h = ground arith
first-Precedes newest a b h = ground arith
first-Precedes price_asc a b h = ground arith
first-Precedes price_desc a b h = ground arith

pub Precedes-first :
    (sort_by : SortBy) (a b : ListingWithPromotions)
    → Precedes sort_by a b
    → first sort_by a b ≡ true
Precedes-first recommended a b h = ground arith
Precedes-first newest a b h = ground arith
Precedes-first price_asc a b h = ground arith
Precedes-first price_desc a b h = ground arith

-- A cursor that was made of a row, by the order asked for
abbrev pub IsCursorOf : SortBy → SearchCursor → ListingWithPromotions → Type 0
IsCursorOf recommended c z =
    (c.rank ≡ some z.promotion_rank)
    × (c.created_at ≡ some z.listing.created_at)
    × (c.id ≡ some z.listing.id)
IsCursorOf newest c z =
    (c.rank ≡ some z.promotion_rank)
    × (c.created_at ≡ some z.listing.created_at)
    × (c.id ≡ some z.listing.id)
IsCursorOf price_asc c z =
    (c.rank ≡ some z.promotion_rank)
    × (c.price ≡ some (asked z.listing))
    × (c.id ≡ some z.listing.id)
IsCursorOf price_desc c z =
    (c.rank ≡ some z.promotion_rank)
    × (c.price ≡ some (asked z.listing))
    × (c.id ≡ some z.listing.id)

-- Every row that the cursor can have been made of comes before this one.
abbrev pub IsBehind : SortBy → SearchCursor → ListingWithPromotions → Type 0
IsBehind sort_by c r = (z : ListingWithPromotions) → IsCursorOf sort_by c z → Precedes sort_by z r

pub after_cursor-IsBehind :
    (sort_by : SortBy) (c : SearchCursor) (r : ListingWithPromotions)
    → after_cursor sort_by c r ≡ true
    → IsBehind sort_by c r
after_cursor-IsBehind recommended c r h z (a, b, d) =
    first-Precedes recommended z r (rw (← h, a, b, d) refl)
after_cursor-IsBehind newest c r h z (a, b, d) = first-Precedes newest z r (rw (← h, a, b, d) refl)
after_cursor-IsBehind price_asc c r h z (a, b, d) =
    let given = b ∙ ap (λ p. some p) (sym (effective_price-asked z.listing)) in
    first-Precedes price_asc z r (rw (← h, a, given, d) refl)
after_cursor-IsBehind price_desc c r h z (a, b, d) =
    let given = b ∙ ap (λ p. some p) (sym (effective_price-asked z.listing)) in
    first-Precedes price_desc z r (rw (← h, a, given, d) refl)

-- A row that the values of a cursor describe
abbrev dated : ListingWithPromotions → (rank created_at id : ℕ) → ListingWithPromotions
dated r rank created_at id = record r {
  promotion_rank = rank;
  listing = record r.listing { created_at = created_at; id = id };
}

abbrev priced : ListingWithPromotions → (rank price id : ℕ) → ListingWithPromotions
priced r rank price id = record r {
  promotion_rank = rank;
  listing = record r.listing { price = price; is_free = false; id = id };
}

-- A condition of a cursor holds if it does for whatever values are given.
if_all_given-true :
    (a b c : Option ℕ) (f : ℕ → ℕ → ℕ → Bool)
    → ((x y z : ℕ) → a ≡ some x → b ≡ some y → c ≡ some z → f x y z ≡ true)
    → if_all_given a b c f ≡ true
if_all_given-true none b c f h = refl
if_all_given-true (some x) none c f h = refl
if_all_given-true (some x) (some y) none f h = refl
if_all_given-true (some x) (some y) (some z) f h = h x y z refl refl refl

pub IsBehind-after_cursor :
    (sort_by : SortBy) (c : SearchCursor) (r : ListingWithPromotions)
    → IsBehind sort_by c r
    → after_cursor sort_by c r ≡ true
IsBehind-after_cursor recommended c r h =
    if_all_given-true c.rank c.created_at c.id _
      (λ x y z a b d. Precedes-first recommended (dated r x y z) r (h (dated r x y z) (a, b, d)))
IsBehind-after_cursor newest c r h =
    if_all_given-true c.rank c.created_at c.id _
      (λ x y z a b d. Precedes-first newest (dated r x y z) r (h (dated r x y z) (a, b, d)))
IsBehind-after_cursor price_asc c r h =
    if_all_given-true c.rank c.price c.id _
      (λ x y z a b d. Precedes-first price_asc (priced r x y z) r (h (priced r x y z) (a, b, d)))
IsBehind-after_cursor price_desc c r h =
    if_all_given-true c.rank c.price c.id _
      (λ x y z a b d. Precedes-first price_desc (priced r x y z) r (h (priced r x y z) (a, b, d)))

-- The weight of a promotion in the search
abbrev pub weight : PromotionType → ℕ
weight top = 1
weight highlight = 0
weight urgent = 0
weight vip = 2

-- A promotion of the listing with its packet, which runs
abbrev pub Promotes : ℕ → Listing → ListingPromotion → PromotionPacket → Type 0
Promotes now l p k = (p.listing_id ≡ l.id) × (p.packet_id ≡ k.id) × IsRunning now p

-- The rank is the greatest weight of the promotions that run, zero if there is none.
pub record IsRank (now : ℕ) (db : Database) (l : Listing) (rank : ℕ) : Type 0 where
  pub greatest :
      (p : ListingPromotion) (k : PromotionPacket)
      → In p db.listing_promotions
      → In k db.promotion_packets
      → Promotes now l p k
      → weight k.type ≤ rank
  pub reached :
      (rank ≡ 0)
      ⊎ ((p : ListingPromotion) × (k : PromotionPacket) × In p db.listing_promotions
          × In k db.promotion_packets
          × Promotes now l p k
          × (weight k.type ≡ rank))

type_rank-weight : (t : PromotionType) → type_rank t ≡ weight t
type_rank-weight top = refl
type_rank-weight highlight = refl
type_rank-weight urgent = refl
type_rank-weight vip = refl

module _ {A : Type 0} (f : A → ℕ) where
  max_of-greatest : (xs : List A) (x : A) → In x xs → f x ≤ max_of f xs
  max_of-greatest [] x i = absurd i
  max_of-greatest (y ∷ ys) x (inl same) = rw (← same) (ground arith)
  max_of-greatest (y ∷ ys) x (inr later) = ground (arith, max_of-greatest ys x later)

  max_of-reached : (xs : List A) → (max_of f xs ≡ 0) ⊎ ((x : A) × In x xs × (f x ≡ max_of f xs))
  max_of-reached [] = inl refl
  max_of-reached (y ∷ ys) = elim (Bool-cases (leb (f y) (max_of f ys))) [
    | inr more ↦ rw more (inr (y, inl refl, refl))
    | inl less ↦ rw less (elim (max_of-reached ys) [
      | inl none_there ↦ inl none_there
      | inr (x, there, same) ↦ inr (x, inr there, same)
    ])
  ]

module _ (now : ℕ) (db : Database) (l : Listing) where
  abbrev joins : ListingPromotion → PromotionPacket → Bool
  joins p k = p.packet_id == k.id && (p.listing_id == l.id && is_live now p)

  Promotes-joins :
      (p : ListingPromotion) (k : PromotionPacket) → Promotes now l p k → joins p k ≡ true
  Promotes-joins p k h = let live = IsRunning-is_live now p h.2 in ground (arith, h.0, h.1)

  joins-Promotes :
      (p : ListingPromotion) (k : PromotionPacket) → joins p k ≡ true → Promotes now l p k
  joins-Promotes p k h = (ground arith, ground arith, is_live-IsRunning now p (ground arith))

  pub rank_of-IsRank : IsRank now db l (rank_of now db l)
  rank_of-IsRank = record {
    greatest = λ p k i j h.
        let there =
          In-join_where joins db.promotion_packets db.listing_promotions p k i j
            (Promotes-joins p k h) in
        omega (
          arith,
          type_rank-weight k.type,
          max_of-greatest (λ r. type_rank r.1.type) (promotions_of now db l.id) (p, k) there,
        );
    reached = elim (max_of-reached (λ r. type_rank r.1.type) (promotions_of now db l.id)) [
      | inl none_runs ↦ inl none_runs
      | inr (r, found, same) ↦
          let (i, j, hit) =
            In-join_where-holds joins db.promotion_packets db.listing_promotions r found in
          inr (r.0, r.1, i, j, joins-Promotes r.0 r.1 hit, sym (type_rank-weight r.1.type) ∙ same)
    ];
  }
