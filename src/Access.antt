-- ===== src/Access.antt =====
-- src/core/dependencies.py and src/domains/listings/dependencies.py: who may call what. What the token
-- library (jose) makes of a token is a parameter.
pub mod Guards
mod Tests
use kupio_backend.Base.{ℕ, Bool, true, false, ◌||◌, not, Option, none, some, ◌==◌}
use kupio_backend.Models.Users.{User, UserRole, Moderator}
use kupio_backend.Models.Listings.{Listing}
use kupio_backend.Core.Errors.{
  Error, invalid_token, invalid_token_payload, insufficient_permissions, listing_not_found,
  listing_ownership,
}
use kupio_backend.Core.Action.{
  Result, DbSession, ok, err, Action, ◌>>=◌, ◌>>◌, pure, raise, raise_if, or_raise,
}
use kupio_backend.Core.Repository
use kupio_backend.Users
use kupio_backend.Listings

-- What `decode_access_token` returns; a `sub` that is no text is none.
pub record Claims : Type 0 where
  pub user_id : Option ℕ
  pub device_id : Option ℕ

-- `jwt.decode` of a token; none is any exception.
abbrev pub Decode : Type 0
Decode = ℕ → Option Claims

-- `except InvalidTokenError, InvalidTokenPayloadError: return None`
abbrev pub or_anonymous : Result User × DbSession → Result (Option User) × DbSession
or_anonymous (ok user, s) = (ok (some user), s)
or_anonymous (err invalid_token, s) = (ok none, s)
or_anonymous (err invalid_token_payload, s) = (ok none, s)
or_anonymous (err e, s) = (err e, s)

abbrev pub is_moderator : UserRole → Bool
is_moderator UserRole.moderator = true
is_moderator UserRole.user = false

-- The last part of `get_owned_listing_by_id`
unfoldable pub owned_by : Listing → User → Action Listing
owned_by listing current_user = do
  raise_if (not (listing.user_id == current_user.id)) listing_ownership
  pure listing

module _ (decode : Decode) where
  -- The last part of `get_current_user`; an id that is no UUID has no row.
  unfoldable pub user_of_claims : Claims → Action User
  unfolding Users.get_by_id
  user_of_claims claims = do
    user_id ← or_raise claims.user_id invalid_token_payload
    user ← Users.get_by_id user_id
    or_raise user invalid_token

  unfoldable pub get_current_user : ℕ → Action User
  unfolding user_of_claims
  get_current_user token = do claims ← or_raise (decode token) invalid_token; user_of_claims claims

  unfoldable pub get_current_device_id : ℕ → Option ℕ
  get_current_device_id token = elim (decode token) [ none ↦ none | some claims ↦ claims.device_id ]

  unfoldable pub get_current_user_or_none : Option ℕ → Action (Option User)
  get_current_user_or_none none s = pure none s
  get_current_user_or_none (some token) s = or_anonymous (get_current_user token s)

  -- `require_roles(UserRole.MODERATOR)`
  unfoldable pub require_moderator_role : User → Action User
  require_moderator_role current_user = do
    raise_if (not (is_moderator current_user.role)) insufficient_permissions
    pure current_user

  -- What `get_current_moderator` does with the user
  unfoldable pub moderator_of : User → Action Moderator
  unfolding require_moderator_role Users.get_moderator_by_user_id
  moderator_of user = do
    current_user ← require_moderator_role user
    moderator ← Users.get_moderator_by_user_id current_user.id
    or_raise moderator insufficient_permissions

  unfoldable pub get_current_moderator : ℕ → Action Moderator
  unfolding get_current_user moderator_of
  get_current_moderator token = do user ← get_current_user token; moderator_of user

  unfoldable pub get_owned_listing_by_id : ℕ → ℕ → Action Listing
  unfolding get_current_user Listings.get_listing owned_by
  get_owned_listing_by_id token listing_id = do
    listing ← Listings.get_listing listing_id
    current_user ← get_current_user token
    owned_by listing current_user
