-- ===== src/Access/Guards.antt =====
-- What the guards of src/core/dependencies.py let through, and that a ban shuts a user out.
use kupio_backend.Base.{
  ℕ, ◌≡◌, ◌≢◌, refl, sym, ◌∙◌, ap, inl, inr, ◌⊎◌, true, false, ◌&&◌, not, Option, none, some, arith,
  ◌==◌, Bool-cases, Option-cases,
}
use kupio_backend.Base.Lists.{head?, head?-select, select, head?-select-holds}
use kupio_backend.Models.{Database}
use kupio_backend.Models.Users.{User, Moderator}
use kupio_backend.Models.Listings.{Listing}
use kupio_backend.Models.Reports.{ListingReport, ban_user}
use kupio_backend.Core.Errors.{invalid_token, invalid_token_payload}
use kupio_backend.Core.Action.{Result, DbSession, ok, err, opened, continue}
use kupio_backend.Core.Repository
use kupio_backend.Core.Repository.{fits}
use kupio_backend.Users
use kupio_backend.Listings
use kupio_backend.Reports.{moderate_report}
use kupio_backend.Reports.Bans.{moderate_report-IsBanned}
use kupio_backend.Access.{
  Claims, Decode, get_current_user, user_of_claims, get_current_user_or_none, or_anonymous,
  get_current_moderator, moderator_of, require_moderator_role, get_owned_listing_by_id, owned_by,
  is_moderator,
}

abbrev user_with : ℕ → Database → Option User
user_with user_id db = head? (select (fits Users.users (λ u. u.id == user_id)) db.users)

abbrev moderator_row : ℕ → Database → Option Moderator
moderator_row user_id db =
    head? (select (fits Users.moderators (λ r. r.user_id == user_id)) db.moderators)

abbrev listing_with : ℕ → Database → Option Listing
listing_with listing_id db =
    head? (select (fits Listings.listings (λ l. l.id == listing_id)) db.listings)

module _ (decode : Decode) where
  -- Every way in which `get_current_user` ends
  pub get_current_user-cases :
      (P : Result User × DbSession → Type 0) (token : ℕ) (s : DbSession)
      → P (err invalid_token, s)
      → P (err invalid_token_payload, s)
      → ((claims : Claims) (user : User)
          → decode token ≡ some claims
          → claims.user_id ≡ some user.id
          → Users.users.is_deleted user ≡ false
          → user_with user.id s.working ≡ some user
          → P (ok user, s))
      → P (get_current_user decode token s)
  unfolding get_current_user user_of_claims Users.get_by_id Repository.get
  get_current_user-cases P token s bad odd went = elim (Option-cases (decode token)) [
    | inl undecoded ↦ rw undecoded bad
    | inr (claims, decoded) ↦ rw decoded (elim (Option-cases claims.user_id) [
      | inl no_text ↦ rw no_text odd
      | inr (user_id, named) ↦ rw named (elim (Option-cases (user_with user_id s.working)) [
        | inl missing ↦ rw missing bad
        | inr (user, found) ↦ rw found (
            let test =
              head?-select-holds (fits Users.users (λ u. u.id == user_id)) s.working.users user
                found in
            let same : user_id ≡ user.id = ground arith in
            went claims user decoded (ground arith) (ground arith)
              (ap (λ k. user_with k s.working) (sym same) ∙ found))
      ])
    ])
  ]

  -- Whom `get_current_user` lets through: the token was valid and named this user, who is in the
  -- table and not deleted.
  pub record IsCurrent (token : ℕ) (user : User) (db : Database) : Type 0 where
    pub claims : Claims
    pub decoded : decode token ≡ some claims
    pub named : claims.user_id ≡ some user.id
    pub kept : Users.users.is_deleted user ≡ false
    pub there : user_with user.id db ≡ some user

  -- The optional variant raises nothing and writes nothing: it ends with a current user, or with
  -- nobody.
  pub get_current_user_or_none-ok :
      (token : ℕ) (db : Database)
      → (get_current_user_or_none decode (some token) (opened db) ≡ (ok none, opened db))
        ⊎ ((user : User) × IsCurrent token user db
            × (get_current_user_or_none decode (some token) (opened db)
                ≡ (ok (some user), opened db)))
  unfolding get_current_user_or_none
  get_current_user_or_none-ok token db =
      get_current_user-cases
        (λ q.
          (or_anonymous q ≡ (ok none, opened db))
          ⊎ ((user : User) × IsCurrent token user db
              × (or_anonymous q ≡ (ok (some user), opened db))))
        token (opened db) (inl refl) (inl refl)
        (λ claims user decoded named kept there. inr (
          user,
          record { claims = claims; decoded = decoded; named = named; kept = kept; there = there },
          refl,
        ))

  moderator_of-ok :
      (user : User) (m : Moderator) (db : Database)
      → (moderator_of decode user (opened db)).0 ≡ ok m
      → (is_moderator user.role ≡ true) × (m.user_id ≡ user.id)
  unfolding moderator_of require_moderator_role Users.get_moderator_by_user_id Repository.get
  moderator_of-ok user m db = elim (Bool-cases (is_moderator user.role)) [
    | inr plain ↦ rw plain (λ h. cc)
    | inl fits_role ↦ rw fits_role (elim (Option-cases (moderator_row user.id db)) [
      | inl missing ↦ rw missing (λ h. cc)
      | inr (row, found) ↦ rw found (
          let test =
            head?-select-holds (fits Users.moderators (λ r. r.user_id == user.id)) db.moderators row
              found in
          λ h. (refl, ground arith))
    ])
  ]

  -- The guard `get_current_moderator` returns a moderator only for a valid token of a user who is in
  -- the table, not deleted and has the role moderator, and then returns a moderator row of that user.
  pub get_current_moderator-IsCurrent :
      (token : ℕ) (db : Database) (m : Moderator)
      → (get_current_moderator decode token (opened db)).0 ≡ ok m
      → (user : User) × IsCurrent token user db
        × (is_moderator user.role ≡ true)
        × (m.user_id ≡ user.id)
  unfolding get_current_moderator
  get_current_moderator-IsCurrent token db m =
      get_current_user-cases
        (λ q.
          (continue q.0 (moderator_of decode) q.1).0 ≡ ok m
          → (user : User) × IsCurrent token user db
            × (is_moderator user.role ≡ true)
            × (m.user_id ≡ user.id))
        token (opened db) (λ h. cc) (λ h. cc)
        (λ claims user decoded named kept there h.
          let (fits_role, own) = moderator_of-ok user m db h in
          (
            user,
            record {
              claims = claims;
              decoded = decoded;
              named = named;
              kept = kept;
              there = there;
            },
            fits_role,
            own,
          ))

  owned_by-ok :
      (listing l : Listing) (user : User) (db : Database)
      → (owned_by listing user (opened db)).0 ≡ ok l
      → (l ≡ listing) × (l.user_id ≡ user.id)
  unfolding owned_by
  owned_by-ok listing l user db h = (ground arith, ground arith)

  -- A listing that a request may change is not deleted, and is the current user's.
  pub get_owned_listing_by_id-IsCurrent :
      (token listing_id : ℕ) (db : Database) (l : Listing)
      → (get_owned_listing_by_id decode token listing_id (opened db)).0 ≡ ok l
      → (user : User) × IsCurrent token user db
        × (l.user_id ≡ user.id)
        × (l.id ≡ listing_id)
        × (Listings.listings.is_deleted l ≡ false)
  unfolding get_owned_listing_by_id Listings.get_listing Listings.get_by_id Repository.get
  get_owned_listing_by_id-IsCurrent token listing_id db l =
      elim (Option-cases (listing_with listing_id db)) [
        | inl missing ↦ rw missing (λ h. cc)
        | inr (listing, found) ↦ rw found (
            get_current_user-cases
              (λ q.
                (continue q.0 (owned_by listing) q.1).0 ≡ ok l
                → (user : User) × IsCurrent token user db
                  × (l.user_id ≡ user.id)
                  × (l.id ≡ listing_id)
                  × (Listings.listings.is_deleted l ≡ false))
              token (opened db) (λ h. cc) (λ h. cc)
              (λ claims user decoded named kept there h.
                let test =
                  head?-select-holds (fits Listings.listings (λ x. x.id == listing_id)) db.listings
                    listing found in
                let (same, own) = owned_by-ok listing l user db h in
                (
                  user,
                  record {
                    claims = claims;
                    decoded = decoded;
                    named = named;
                    kept = kept;
                    there = there;
                  },
                  own,
                  rw same (ground arith),
                  rw same (ground arith),
                )))
      ]

  -- Once a decision to ban a user has returned, no token names this user as the current user any
  -- more, whenever it was issued.
  pub banned_shut_out :
      (comment : Option ℕ) (now : ℕ) (report : ListingReport) (listing : Listing)
      (moderator : Moderator) (db : Database) (r : ListingReport) (token : ℕ) (user : User)
      → (moderate_report ban_user comment now report listing moderator (opened db)).0 ≡ ok r
      → let db' =
          (moderate_report ban_user comment now report listing moderator (opened db)).1.committed in
        (get_current_user decode token (opened db')).0 ≡ ok user → user.id ≢ listing.user_id
  banned_shut_out comment now report listing moderator db r token user h =
      let db' =
        (moderate_report ban_user comment now report listing moderator (opened db)).1.committed in
      let gone = (moderate_report-IsBanned comment now report listing moderator db r h).banned in
      get_current_user-cases (λ q. q.0 ≡ ok user → user.id ≢ listing.user_id) token (opened db')
        (λ e. cc) (λ e. cc)
        (λ claims u decoded named kept there e same.
          let still =
            (head?-select (λ x. (x.id == listing.user_id && not (Users.users.is_deleted x)) ≡ false)
              (fits Users.users (λ x. x.id == u.id)) db'.users u gone there).0 in
          let one : u ≡ user = ground arith in
          let owner : u.id ≡ listing.user_id = ap (λ x. x.id) one ∙ same in ground arith)
