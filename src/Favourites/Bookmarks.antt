-- ===== src/Favourites/Bookmarks.antt =====
-- add_favourite and remove_favourite: what they keep, and that one undoes the other.
use kupio_backend.Base.{
  ℕ, ◌≡◌, refl, sym, ap, ◌∙◌, inl, inr, Bool, true, false, not, List, [], ◌∷◌, ◌++◌, arith, ◌==◌,
  is_some, Bool-cases, if◌then◌else◌,
}
use kupio_backend.Base.Lists.{head?, select, some_row, some_row-append}
use kupio_backend.Models.{Database}
use kupio_backend.Models.Users.{User}
use kupio_backend.Models.Listings.{Listing}
use kupio_backend.Models.Favourites.{ListingFavourite}
use kupio_backend.Core.Errors.{
  cannot_favourite_own_listing, listing_already_favourited, listing_not_in_favourites,
}
use kupio_backend.Core.Action.{ok, err, opened, in_uow, ◌>>◌}
use kupio_backend.Core.Repository
use kupio_backend.Core.Repository.{fits}
use kupio_backend.Favourites.{
  favourites, is_favourite, get_by_user_and_listing, create, delete, favourite_exists,
  add_favourite, insert_favourite, remove_favourite,
}

some_row-head :
    (p : ListingFavourite → Bool) (fs : List ListingFavourite)
    → is_some (head? (select (fits favourites p) fs)) ≡ some_row p fs
unfolding select some_row
some_row-head p [] = refl
some_row-head p (f ∷ fs) = ground (arith, some_row-head p fs)

select_others :
    (p : ListingFavourite → Bool) (fs : List ListingFavourite)
    → some_row p fs ≡ false
    → select (λ f. not (p f)) fs ≡ fs
unfolding select some_row
select_others p [] h = refl
select_others p (f ∷ fs) h = ground (arith, select_others p fs)

module _ (now : ℕ) (current_user : User) (listing : Listing) (db : Database) where
  abbrev favourite : ListingFavourite
  favourite = record { user_id = current_user.id; listing_id = listing.id; created_at = now }

  abbrev is_there : Bool
  is_there = some_row (is_favourite current_user.id listing.id) db.listing_favourites

  abbrev pub bookmarked : Database
  bookmarked = record db { listing_favourites = db.listing_favourites ++ favourite ∷ [] }

  same_test :
      (fs : List ListingFavourite)
      → some_row (favourites.conflicts favourite) fs
        ≡ some_row (is_favourite current_user.id listing.id) fs
  unfolding some_row
  same_test [] = refl
  same_test (f ∷ fs) = ground (arith, same_test fs)

  -- The insertion finds the database as other requests have left it since the tests.
  pub insert_favourite-cases : insert_favourite now current_user listing (opened db) ≡ (
      if is_there then (err listing_already_favourited, opened db) else (ok tt, opened bookmarked))
  unfolding insert_favourite create Repository.add in_uow favourite_exists get_by_user_and_listing
      Repository.get
  insert_favourite-cases =
      let same = same_test db.listing_favourites in
      let found = some_row-head (is_favourite current_user.id listing.id) db.listing_favourites in
      elim (Bool-cases is_there) [
        | inl taken ↦ rw (same, taken, found, taken) refl
        | inr free ↦ rw (same, free) refl
      ]

  -- How adding a favourite ends: with an error for a listing of one's own, with an error for one that
  -- is a favourite already, both with nothing changed, and otherwise with the favourite added; never
  -- with a refusal by the database. An insertion that another request has overtaken since the tests
  -- ends in the second way.
  pub add_favourite-cases :
      (add_favourite now current_user listing (opened db) ≡ (
        if listing.user_id == current_user.id
        then (err cannot_favourite_own_listing, opened db)
        else if is_there
        then (err listing_already_favourited, opened db)
        else (ok tt, opened bookmarked)))
      × (insert_favourite now current_user listing (opened db) ≡ (
          if is_there
          then (err listing_already_favourited, opened db)
          else (ok tt, opened bookmarked)))
  unfolding add_favourite favourite_exists get_by_user_and_listing Repository.get
  add_favourite-cases =
      let found = some_row-head (is_favourite current_user.id listing.id) db.listing_favourites in
      (
        elim (Bool-cases (listing.user_id == current_user.id)) [
          | inl own ↦ rw own refl
          | inr other ↦ elim (Bool-cases is_there) [
            | inl taken ↦ rw (other, found, taken) refl
            | inr free ↦ rw (other, found, free) (insert_favourite-cases ∙ rw free refl)
          ]
        ],
        insert_favourite-cases,
      )

  abbrev removed : Database
  removed = record db {
    listing_favourites =
        select (λ f. not (is_favourite current_user.id listing.id f)) db.listing_favourites;
  }

  -- How removing one ends; the transaction commits either way.
  pub remove_favourite-cases : remove_favourite current_user listing.id (opened db) ≡ (
      if is_there then (ok tt, opened removed) else (err listing_not_in_favourites, opened removed))
  unfolding remove_favourite delete Repository.delete in_uow
  remove_favourite-cases = elim (Bool-cases is_there) [
    | inl there ↦ rw there refl
    | inr missing ↦ rw missing refl
  ]

module _ (now : ℕ) (current_user : User) (listing : Listing) (db : Database) where
  new_favourite_last :
      (fs : List ListingFavourite)
      → some_row (is_favourite current_user.id listing.id) fs ≡ false
      → select
          (λ f. not (is_favourite current_user.id listing.id f))
          (fs ++ favourite now current_user listing db ∷ [])
        ≡ fs
  unfolding select some_row
  new_favourite_last [] h = ground arith
  new_favourite_last (f ∷ fs) h = ground (arith, new_favourite_last fs)

  there_then :
      some_row
        (is_favourite current_user.id listing.id)
        (bookmarked now current_user listing db).listing_favourites
      ≡ true
  unfolding some_row
  there_then =
      some_row-append (is_favourite current_user.id listing.id) db.listing_favourites
        (favourite now current_user listing db ∷ [])
      ∙ ground arith

  add_favourite-ok :
      (add_favourite now current_user listing (opened db)).0 ≡ ok tt
      → (add_favourite now current_user listing (opened db)
          ≡ (ok tt, opened (bookmarked now current_user listing db)))
        × ((listing.user_id == current_user.id) ≡ false)
        × (some_row (is_favourite current_user.id listing.id) db.listing_favourites ≡ false)
  add_favourite-ok went =
      let (added, _) = add_favourite-cases now current_user listing db in
      let went' = sym (ap (λ q. q.0) added) ∙ went in
      elim (Bool-cases (listing.user_id == current_user.id)) [
        | inl own ↦ absurd (let h = rw own at went' in cc)
        | inr other ↦
            elim (Bool-cases
              (some_row (is_favourite current_user.id listing.id) db.listing_favourites)) [
                | inl taken ↦ absurd (let h = rw taken at (rw other at went') in cc)
                | inr free ↦ (added ∙ rw (other, free) refl, other, free)
              ]
      ]

  -- Removing a favourite that was just added succeeds and gives back the database as it was before;
  -- a second removal is refused, and a second addition, with the first as the only change.
  pub remove_favourite-add_favourite :
      (add_favourite now current_user listing (opened db)).0 ≡ ok tt
      → (later : ℕ)
      → ((add_favourite now current_user listing >> remove_favourite current_user listing.id)
            (opened db)
          ≡ (ok tt, opened db))
        × ((add_favourite now current_user listing
                >> remove_favourite current_user listing.id
                >> remove_favourite current_user listing.id)
              (opened db)
            ≡ (err listing_not_in_favourites, opened db))
        × ((add_favourite now current_user listing >> add_favourite later current_user listing)
              (opened db)
            ≡ (err listing_already_favourited, opened (bookmarked now current_user listing db)))
  remove_favourite-add_favourite went later =
      let (added, other, free) = add_favourite-ok went in
      let db' = bookmarked now current_user listing db in
      let back : removed now current_user listing db' ≡ db =
        ap (λ fs. record db { listing_favourites = fs })
          (new_favourite_last db.listing_favourites free) in
      let first : remove_favourite current_user listing.id (opened db') ≡ (ok tt, opened db) =
        remove_favourite-cases now current_user listing db'
        ∙ rw there_then (ap (λ d. (ok tt, opened d)) back) in
      let same : removed now current_user listing db ≡ db =
        ap (λ fs. record db { listing_favourites = fs })
          (select_others _ db.listing_favourites free) in
      let second : remove_favourite current_user listing.id (opened db)
          ≡ (err listing_not_in_favourites, opened db) =
        remove_favourite-cases now current_user listing db
        ∙ rw free (ap (λ d. (err listing_not_in_favourites, opened d)) same) in
      let again : add_favourite later current_user listing (opened db')
          ≡ (err listing_already_favourited, opened db') =
        (add_favourite-cases later current_user listing db').0 ∙ rw (other, there_then) refl in
      (rw added first, rw added (rw first second), rw added again)
