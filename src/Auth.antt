-- ===== src/Auth.antt =====
-- src/domains/auth/repository.py and service.py, src/core/security/tokens.py: sessions and passwords.
-- Argon2 (passlib), SHA-256 and the encoding of access tokens (jose) are outside: they are the
-- parameter `Crypto`. Random values and the clock are arguments. Time is in seconds.
pub mod Rows
pub mod Exclusive
pub mod Login
pub mod Rotation
pub mod Passwords
pub mod Logout
pub mod Register
mod Tests
use kupio_backend.Base.{
  ℕ, ◌+◌, ◌*◌, ⊤, Bool, true, false, ◌&&◌, ◌||◌, not, Option, none, some, List, ◌==◌, ltb, is_some,
  is_none, if◌then◌else◌,
}
use kupio_backend.Models.Users.{User, needs_username}
use kupio_backend.Models.Auth.{Session}
use kupio_backend.Core.Errors.{
  invalid_credentials, invalid_refresh_token, session_not_found, email_already_taken,
  username_already_taken, new_password_must_differ, invalid_current_password, password_already_set,
  attribute_error,
}
use kupio_backend.Core.Action.{Action, ◌>>=◌, ◌>>◌, pure, raise, raise_if, or_raise, in_uow}
use kupio_backend.Core.Repository
use kupio_backend.Users
use Rows.{
  sessions, live, create_session, get_active_by_token_and_device, revoke_by_id,
  revoke_by_id_and_user_id, revoke_all_by_user_id, revoke_active_for_device, get_by_token_hash,
}

-- What the service uses of the libraries: a salted hash with its check, the hash of refresh
-- tokens, and the access token of a user id, an expiry, a `jti` and a device.
pub record Crypto : Type 0 where
  pub hash_password : ℕ → ℕ → ℕ
  pub verify_password : ℕ → ℕ → Bool
  pub hash_refresh_token : ℕ → ℕ
  pub encode_access_token : ℕ → ℕ → ℕ → ℕ → ℕ

-- `AuthConfig`: minutes and days
pub record AuthConfig : Type 0 where
  pub access_ttl : ℕ
  pub refresh_ttl : ℕ

-- The clock and the random values of one request
pub record Fresh : Type 0 where
  pub now : ℕ
  pub jti : ℕ
  pub refresh_token : ℕ
  pub session_id : ℕ
  pub user_id : ℕ
  pub salt : ℕ

pub record TokensResponse : Type 0 where
  pub access_token : ℕ
  pub refresh_token : ℕ
  pub access_expires_at : ℕ
  pub refresh_expires_at : ℕ
  pub needs_username : Bool

module _ (crypto : Crypto) (config : AuthConfig) (fresh : Fresh) where
  abbrev pub access_expires_at : ℕ
  access_expires_at = fresh.now + config.access_ttl * 60

  abbrev pub refresh_expires_at : ℕ
  refresh_expires_at = fresh.now + config.refresh_ttl * 86400

  -- `_issue_token_pair`; a user of None has no `id`.
  unfoldable pub issue_token_pair : Option User → ℕ → Action TokensResponse
  unfolding create_session
  issue_token_pair none device_id = raise attribute_error
  issue_token_pair (some user) device_id = do
    create_session fresh.session_id fresh.now user.id
        (crypto.hash_refresh_token fresh.refresh_token) device_id refresh_expires_at
    pure (record {
      access_token = crypto.encode_access_token user.id access_expires_at fresh.jti device_id;
      refresh_token = fresh.refresh_token;
      access_expires_at = access_expires_at;
      refresh_expires_at = refresh_expires_at;
      needs_username = needs_username user;
    })

  abbrev pub password_fits : ℕ → Option User → Bool
  password_fits password none = false
  password_fits password (some user) = elim user.password_hash [
    | none ↦ false
    | some hash ↦ crypto.verify_password password hash
  ]

  -- The body of the transaction of `login`
  unfoldable pub relogin : Option User → ℕ → ℕ → Action TokensResponse
  unfolding issue_token_pair revoke_active_for_device
  relogin user user_id device_id = do
    revoke_active_for_device fresh.now user_id device_id
    issue_token_pair user device_id

  unfoldable pub login_found : Option User → ℕ → ℕ → Action TokensResponse
  login_found none password device_id = raise invalid_credentials
  login_found (some user) password device_id =
      if not (password_fits password (some user))
      then raise invalid_credentials
      else in_uow (relogin (some user) user.id device_id)

  unfoldable pub login : ℕ → ℕ → ℕ → Action TokensResponse
  login email password device_id = do
    user ← Users.get_by_email email
    login_found user password device_id

  -- The body of the transaction of `refresh`
  unfoldable pub rotate : Session → Option User → Action TokensResponse
  unfolding issue_token_pair revoke_by_id
  rotate active_session user = do
    revoke_by_id fresh.now active_session.id
    issue_token_pair user active_session.device_id

  -- The rest of `refresh` once the session is found
  unfoldable pub refresh_found : Option Session → Action TokensResponse
  refresh_found none = raise invalid_refresh_token
  refresh_found (some active_session) = do
    user ← Users.get_by_id active_session.user_id
    in_uow (rotate active_session user)

  unfoldable pub refresh : ℕ → ℕ → Action TokensResponse
  refresh refresh_token device_id = do
    active_session ←
        get_active_by_token_and_device fresh.now (crypto.hash_refresh_token refresh_token) device_id
    refresh_found active_session

  -- The branches of `logout`
  unfoldable pub end_session : Option Session → Action (Unit {0})
  unfolding Users.delete_tokens_by_user_and_device revoke_by_id
  end_session none = pure tt
  end_session (some session) = if session.is_revoked then pure tt else do
    Users.delete_tokens_by_user_and_device session.user_id session.device_id
    revoke_by_id fresh.now session.id
    pure tt

  unfoldable pub logout : ℕ → Action (Unit {0})
  unfolding get_by_token_hash end_session
  logout refresh_token = in_uow (do
    session ← get_by_token_hash (crypto.hash_refresh_token refresh_token)
    end_session session)

  -- The body of the transaction of `register`
  unfoldable pub sign_up : ℕ → ℕ → ℕ → ℕ → Action TokensResponse
  unfolding Users.get_by_email Users.get_by_username Users.create issue_token_pair
  sign_up email username password device_id = do
    user_by_email ← Users.get_by_email email
    raise_if (is_some user_by_email) email_already_taken
    user_by_username ← Users.get_by_username username
    raise_if (is_some user_by_username) username_already_taken
    user ←
        Users.create fresh.user_id email (some username)
          (some (crypto.hash_password fresh.salt password))
    issue_token_pair (some user) device_id

  unfoldable pub register : ℕ → ℕ → ℕ → ℕ → Action TokensResponse
  register email username password device_id = in_uow (sign_up email username password device_id)

  unfoldable pub revoke_session : User → ℕ → Action (Unit {0})
  unfolding revoke_by_id_and_user_id
  revoke_session current_user session_id = in_uow (do
    revoked ← revoke_by_id_and_user_id fresh.now session_id current_user.id
    raise_if (not revoked) session_not_found)

  unfoldable pub revoke_all_sessions : User → Action ℕ
  unfolding revoke_all_by_user_id
  revoke_all_sessions current_user = in_uow (revoke_all_by_user_id fresh.now current_user.id)

  -- What `change_password` and `set_password` do once the request is accepted
  unfoldable pub replace_password : User → ℕ → ℕ → Action TokensResponse
  unfolding Users.update_password Users.get_by_id revoke_all_by_user_id issue_token_pair
  replace_password current_user new_password device_id = do
    user ← Users.update_password current_user.id (crypto.hash_password fresh.salt new_password)
    revoke_all_by_user_id fresh.now current_user.id
    issue_token_pair user device_id

  -- The body of the transaction of `change_password`
  unfoldable pub check_and_replace : User → ℕ → ℕ → ℕ → Action TokensResponse
  check_and_replace current_user current_password new_password device_id = do
    raise_if (not (password_fits current_password (some current_user))) invalid_current_password
    replace_password current_user new_password device_id

  unfoldable pub change_password : User → ℕ → ℕ → ℕ → Action TokensResponse
  change_password current_user current_password new_password device_id = do
    raise_if (current_password == new_password) new_password_must_differ
    raise_if (is_none current_user.password_hash) invalid_current_password
    in_uow (check_and_replace current_user current_password new_password device_id)

  unfoldable pub set_password : User → ℕ → ℕ → Action TokensResponse
  set_password current_user new_password device_id = do
    raise_if (is_some current_user.password_hash) password_already_set
    in_uow (replace_password current_user new_password device_id)
