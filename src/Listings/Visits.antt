-- ===== src/Listings/Visits.antt =====
-- What a visitor of a listing is shown, and which visits are counted, in words of the columns.
use kupio_backend.Base.{
  ℕ, ◌+◌, ◌≡◌, ◌≢◌, refl, ap, subst, ◌∙◌, ⊤, ◌⊎◌, inl, inr, Bool, true, false, ◌&&◌, Option, none,
  some, [], ◌∷◌, ◌++◌, arith, ◌==◌, if◌then◌else◌, Bool-cases,
}
use kupio_backend.Base.Lists.{All, length, head?, select, some_row}
use kupio_backend.Base.Members.{In, All_of_In, In-select, In-select-holds}
use kupio_backend.Models.{Database}
use kupio_backend.Models.Users.{User}
use kupio_backend.Models.Listings.{
  Listing, ListingStatus, draft, planned, active, inactive, sold, is_active,
}
use kupio_backend.Models.Promotions.{ListingPromotion}
use kupio_backend.Core.Action.{ok, opened}
use kupio_backend.Core.Repository.{fits}
use kupio_backend.Listings.{listings}
use kupio_backend.Promotions.{is_live}
use kupio_backend.Promotions.Running.{IsRunning, is_live-IsRunning, IsRunning-is_live}
use kupio_backend.Listings.Views.{
  ListingDetailResponse, get_listing_for_response, should_count_seen, response, viewed, id_of,
  contact, owner_of, or_owner, field_of, get_listing_for_response-response,
}

abbrev IsVisitor : Listing → Option User → Type 0
IsVisitor listing none = ⊤
IsVisitor listing (some current_user) = current_user.id ≢ listing.user_id

-- A visit that counts: this was asked for, the listing is active, and its owner is not the visitor.
abbrev pub IsCounted : Listing → Option User → Bool → Type 0
IsCounted listing current_user count_seen =
    (count_seen ≡ true) × (listing.status ≡ active) × IsVisitor listing current_user

-- What is shown of a column that the listing or else its owner has
abbrev pub IsOwnOr : Option ℕ → (User → Option ℕ) → Option User → Option ℕ → Type 0
IsOwnOr (some own) field owner shown = shown ≡ some own
IsOwnOr none field none shown = shown ≡ none
IsOwnOr none field (some u) shown = shown ≡ field u

-- A response on the listing with that many views
pub record IsResponse (now : ℕ) (listing : Listing) (current_user : Option User) (db : Database)
    (views : ℕ) (r : ListingDetailResponse) : Type 0 where
  pub of_listing : r.listing ≡ listing
  pub seen : r.seen_count ≡ views
  pub running :
      All
        (λ p. (In p db.listing_promotions) × (p.listing_id ≡ listing.id) × IsRunning now p)
        r.active_promotions
  pub all_running :
      (p : ListingPromotion)
      → In p db.listing_promotions
      → p.listing_id ≡ listing.id
      → IsRunning now p
      → In p r.active_promotions
  pub hidden :
      (current_user ≡ none) ⊎ (listing.is_calls_disabled ≡ true)
      → (r.phone ≡ none) × (r.contact_name ≡ none)
  pub shown :
      (u : User)
      → current_user ≡ some u
      → listing.is_calls_disabled ≡ false
      → let owner = head? (select (λ o. o.id == listing.user_id) db.users) in
        IsOwnOr listing.phone (λ o. o.phone) owner r.phone
        × IsOwnOr listing.contact_name (λ o. o.display_name) owner r.contact_name

active_status : (s : ListingStatus) → is_active s ≡ true → s ≡ active
active_status draft h = cc
active_status planned h = cc
active_status active h = refl
active_status inactive h = cc
active_status sold h = cc

counts-IsCounted :
    (listing : Listing) (current_user : Option User) (count_seen : Bool)
    → should_count_seen listing current_user count_seen ≡ true
    → IsCounted listing current_user count_seen
counts-IsCounted listing none count_seen h =
    (ground arith, active_status listing.status (ground arith), tt)
counts-IsCounted listing (some u) count_seen h =
    (ground arith, active_status listing.status (ground arith), ground arith)

IsCounted-counts :
    (listing : Listing) (current_user : Option User) (count_seen : Bool)
    → IsCounted listing current_user count_seen
    → should_count_seen listing current_user count_seen ≡ true
IsCounted-counts listing none count_seen h = rw (h.0, h.1) refl
IsCounted-counts listing (some u) count_seen h = rw (h.0, h.1) (ground (arith, h.2))

or_owner-IsOwnOr :
    (own : Option ℕ) (field : User → Option ℕ) (owner : Option User)
    → IsOwnOr own field owner (or_owner own (field_of field owner))
or_owner-IsOwnOr (some x) field owner = refl
or_owner-IsOwnOr none field none = refl
or_owner-IsOwnOr none field (some u) = refl

module _ (view_id now listing_id : ℕ) (current_user : Option User) (count_seen : Bool)
    (db : Database) (listing : Listing) where
  hidden_contact :
      (o : Option User)
      → (o ≡ none) ⊎ (listing.is_calls_disabled ≡ true)
      → contact listing (owner_of listing db) o ≡ (none, none)
  hidden_contact none h = refl
  hidden_contact (some u) (inl e) = cc
  hidden_contact (some u) (inr e) = rw e refl

  abbrev reply : ListingDetailResponse
  reply = response view_id now listing_id current_user count_seen db listing

  reply-IsResponse :
      IsResponse now listing current_user db
        (length (select (λ v. v.listing_id == listing.id) db.listing_views)
          + (if should_count_seen listing current_user count_seen then 1 else 0))
        reply
  reply-IsResponse =
      let test : ListingPromotion → Bool = λ p. p.listing_id == listing.id && is_live now p in
      record {
        of_listing = refl;
        seen = refl;
        running = All_of_In _ _ (λ p i.
            let (there, hit) = In-select-holds test db.listing_promotions p i in
            (there, ground arith, is_live-IsRunning now p (ground arith)));
        all_running = λ p i own runs.
            let live = IsRunning-is_live now p runs in
            let mine : (p.listing_id == listing.id) ≡ true = ground arith in
            In-select test db.listing_promotions p i (rw (mine, live) refl);
        hidden = λ why. rw (hidden_contact current_user why) (refl, refl);
        shown = λ u signed_in allowed.
            rw (signed_in, allowed)
              (
                or_owner-IsOwnOr listing.phone (λ o. o.phone) (owner_of listing db),
                or_owner-IsOwnOr listing.contact_name (λ o. o.display_name) (owner_of listing db),
              );
      }

  abbrev pub views : ℕ
  views = length (select (λ v. v.listing_id == listing.id) db.listing_views)

  abbrev pub counted : Database
  counted = record db {
    listing_views =
        db.listing_views
        ++ record { id = view_id; listing_id = listing.id; viewer_user_id = id_of current_user }
          ∷ [];
  }

  -- Whoever asks for a listing that is not deleted, whatever its status, is answered. If this was asked for,
  -- the listing is active and the visitor is not its owner, a view of the visitor is stored and is in
  -- the number of views shown; otherwise nothing is stored. The response has the listing and exactly
  -- its promotions that are active and have not run out. The phone and the name are hidden from a
  -- visitor who is not signed in and where calls are disabled; otherwise they are the listing's own,
  -- or else its owner's. Nothing else changes, where the id of the view is new.
  pub get_listing_for_response-IsResponse :
      head? (select (fits listings (λ l. l.id == listing_id)) db.listings) ≡ some listing
      → some_row (λ v. view_id == v.id) db.listing_views ≡ false
      → let q =
          get_listing_for_response view_id now listing_id current_user count_seen (opened db) in
        (r : ListingDetailResponse) × ((IsCounted listing current_user count_seen
            × (q ≡ (ok r, opened counted))
            × IsResponse now listing current_user db (views + 1) r)
          ⊎ ((IsCounted listing current_user count_seen → ⊥)
              × (q ≡ (ok r, opened db))
              × IsResponse now listing current_user db views r))
  get_listing_for_response-IsResponse found fresh =
      let ends =
        get_listing_for_response-response view_id now listing_id current_user count_seen db listing
          found fresh in
      let in_state : (d : Database)
          → viewed view_id now listing_id current_user count_seen db listing ≡ d
          → get_listing_for_response view_id now listing_id current_user count_seen (opened db)
            ≡ (ok reply, opened d) =
        λ d same. ends ∙ ap (λ d'. (ok reply, opened d')) same in
      let with_views : (n : ℕ)
          → views + (if should_count_seen listing current_user count_seen then 1 else 0) ≡ n
          → IsResponse now listing current_user db n reply =
        λ n same.
          subst (λ k. IsResponse now listing current_user db k reply) same reply-IsResponse in
      (
        reply,
        elim (Bool-cases (should_count_seen listing current_user count_seen)) [
          | inl counts ↦ inl (
            counts-IsCounted listing current_user count_seen counts,
            in_state counted (rw counts refl),
            with_views _ (rw counts refl),
          )
          | inr ignored ↦ inr (
            (λ c. let counts = IsCounted-counts listing current_user count_seen c in absurd cc),
            in_state db (rw ignored refl),
            with_views views (rw ignored (omega arith)),
          )
        ],
      )
