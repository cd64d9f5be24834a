-- ===== src/Listings/Selection.antt =====
-- Which listings the filters of a search select, one filter at a time.
use kupio_backend.Base.{
  ℕ, ◌≤◌, ◌≡◌, refl, sym, ap, ◌∙◌, ⊤, ◌⊎◌, Bool, true, false, ◌&&◌, Option, none, some, List, [],
  ◌∷◌, arith, ◌==◌, leb, is_none, if◌then◌else◌,
}
use kupio_backend.Models.Listings.{Listing, ListingStatus, draft, planned, active, inactive, sold}
use kupio_backend.Listings.Search.{
  SqlTexts, SearchFilters, search_conditions, effective_price, if_given, number_of, same_bool,
  has_filters,
}
use kupio_backend.Listings.Ranking.{asked}

-- A filter that is not given asks for nothing.
abbrev pub WhenGiven : {A : Type 0} → Option A → (A → Type 0) → Type 0
WhenGiven none P = ⊤
WhenGiven (some a) P = P a

pub record IsSelected (sql : SqlTexts) (f : SearchFilters) (l : Listing) : Type 0 where
  pub not_deleted : l.deleted_at ≡ none
  pub of_user : WhenGiven f.user_id (λ u. l.user_id ≡ u)
  pub of_status : WhenGiven f.status (λ st. l.status ≡ st)
  pub mentioned :
      WhenGiven f.q (λ q. (sql.mentions l.title q ≡ true) ⊎ (sql.mentions l.description q ≡ true))
  pub of_category : WhenGiven f.category_id (λ c. l.category_id ≡ c)
  pub as_free : WhenGiven f.is_free (λ b. l.is_free ≡ b)
  pub as_tradable : WhenGiven f.is_tradable (λ b. l.is_tradable ≡ b)
  pub not_too_cheap : WhenGiven f.min_price (λ p. p ≤ asked l)
  pub not_too_dear : WhenGiven f.max_price (λ p. asked l ≤ p)
  pub filtered :
      (kv : ℕ × ℕ) (rest : List (ℕ × ℕ))
      → f.custom_filters ≡ some (kv ∷ rest)
      → sql.contains l.custom_filters (kv ∷ rest) ≡ true

module _ {A : Type 0} (f : A → Bool) (P : A → Type 0) where
  given-true : (o : Option A) → ((a : A) → f a ≡ true → P a) → if_given o f ≡ true → WhenGiven o P
  given-true none g h = tt
  given-true (some a) g h = g a h

  true-given : (o : Option A) → ((a : A) → P a → f a ≡ true) → WhenGiven o P → if_given o f ≡ true
  true-given none g h = refl
  true-given (some a) g h = g a h

status_at : ℕ → ListingStatus
status_at n =
    if n == 0
    then draft
    else if n == 1
    then planned
    else if n == 2
    then active
    else if n == 3
    then inactive
    else sold

number_of-status_at : (s : ListingStatus) → status_at (number_of s) ≡ s
unfolding status_at
number_of-status_at draft = refl
number_of-status_at planned = refl
number_of-status_at active = refl
number_of-status_at inactive = refl
number_of-status_at sold = refl

number_of_inj : (s t : ListingStatus) → (number_of s == number_of t) ≡ true → s ≡ t
number_of_inj s t h =
    let same : number_of s ≡ number_of t = ground arith in
    sym (number_of-status_at s) ∙ ap status_at same ∙ number_of-status_at t

same_bool_inj : (b c : Bool) → same_bool b c ≡ true → c ≡ b
same_bool_inj true c h = h
same_bool_inj false true h = cc
same_bool_inj false false h = refl

same_bool_refl : (b : Bool) → same_bool b b ≡ true
same_bool_refl true = refl
same_bool_refl false = refl

and_true : (a b : Bool) → (a && b) ≡ true → (a ≡ true) × (b ≡ true)
and_true true b h = (refl, h)
and_true false b h = cc

true_and : (a b : Bool) → a ≡ true → b ≡ true → (a && b) ≡ true
true_and a b h k = rw (h, k) refl

module _ (sql : SqlTexts) (l : Listing) where
  has_filters-holds :
      (o : Option (List (ℕ × ℕ))) (kv : ℕ × ℕ) (rest : List (ℕ × ℕ))
      → has_filters sql o l ≡ true
      → o ≡ some (kv ∷ rest)
      → sql.contains l.custom_filters (kv ∷ rest) ≡ true
  has_filters-holds o kv rest h e = rw e at h

  holds-has_filters :
      (o : Option (List (ℕ × ℕ)))
      → ((kv : ℕ × ℕ) (rest : List (ℕ × ℕ))
          → o ≡ some (kv ∷ rest)
          → sql.contains l.custom_filters (kv ∷ rest) ≡ true)
      → has_filters sql o l ≡ true
  holds-has_filters none h = refl
  holds-has_filters (some []) h = refl
  holds-has_filters (some (kv ∷ rest)) h = h kv rest refl

  pub search_conditions-IsSelected :
      (f : SearchFilters) → search_conditions sql f l ≡ true → IsSelected sql f l
  search_conditions-IsSelected f h =
      let (a, h1) = and_true (is_none l.deleted_at) _ h in
      let (b, h2) = and_true (if_given f.user_id (λ u. l.user_id == u)) _ h1 in
      let (c, h3) = and_true (if_given f.status _) _ h2 in
      let (d, h4) = and_true (if_given f.q _) _ h3 in
      let (e, h5) = and_true (if_given f.category_id _) _ h4 in
      let (g, h6) = and_true (if_given f.is_free _) _ h5 in
      let (i, h7) = and_true (if_given f.is_tradable _) _ h6 in
      let (low, h8) = and_true (if_given f.min_price (λ p. leb p (effective_price l))) _ h7 in
      let (high, h9) = and_true (if_given f.max_price (λ p. leb (effective_price l) p)) _ h8 in
      record {
        not_deleted = ground arith;
        of_user = given-true _ _ f.user_id (λ u t. ground arith) b;
        of_status = given-true _ _ f.status (λ st t. number_of_inj l.status st t) c;
        mentioned = given-true _ _ f.q (λ q t. ground arith) d;
        of_category = given-true _ _ f.category_id (λ u t. ground arith) e;
        as_free = given-true _ _ f.is_free (λ v t. same_bool_inj v l.is_free t) g;
        as_tradable = given-true _ _ f.is_tradable (λ v t. same_bool_inj v l.is_tradable t) i;
        not_too_cheap = given-true _ _ f.min_price (λ p t. ground arith) low;
        not_too_dear = given-true _ _ f.max_price (λ p t. ground arith) high;
        filtered = λ kv rest. has_filters-holds f.custom_filters kv rest h9;
      }

  pub IsSelected-search_conditions :
      (f : SearchFilters) → IsSelected sql f l → search_conditions sql f l ≡ true
  IsSelected-search_conditions f s = true_and _ _ (rw s.not_deleted refl) (
      true_and _ _ (true-given _ _ f.user_id (λ u t. ground arith) s.of_user) (
        true_and _ _ (true-given _ _ f.status (λ st t. rw t (ground arith)) s.of_status) (
          true_and _ _ (true-given _ _ f.q (λ q t. ground arith) s.mentioned) (
            true_and _ _ (true-given _ _ f.category_id (λ u t. ground arith) s.of_category) (
              true_and _ _ (true-given _ _ f.is_free (λ v t. rw t (same_bool_refl v)) s.as_free) (
                true_and _ _
                  (true-given _ _ f.is_tradable (λ v t. rw t (same_bool_refl v)) s.as_tradable)
                  (true_and _ _ (true-given _ _ f.min_price (λ p t. ground arith) s.not_too_cheap) (
                    true_and _ _ (true-given _ _ f.max_price (λ p t. ground arith) s.not_too_dear)
                      (holds-has_filters f.custom_filters s.filtered)))))))))
