-- ===== src/Profiles.antt =====
-- src/domains/users/service.py: who a user is, the one-time choice of a username and the tokens for push
-- notifications. The username of a user who signed up
-- with Google is none until then.
pub mod Usernames
pub mod Registry
mod Tests
use kupio_backend.Base.{ℕ, Bool, true, false, not, Option, none, some, ◌==◌, is_some}
use kupio_backend.Models.Users.{User, NotificationToken, DevicePlatform}
use kupio_backend.Core.Errors.{user_not_found, user_username_conflict, username_already_set}
use kupio_backend.Core.Action.{
  Action, ◌>>=◌, ◌>>◌, raise, raise_if, or_raise, in_uow, except_integrity_error,
}
use kupio_backend.Core.Repository
use kupio_backend.Users

unfoldable pub get_user : ℕ → Action User
unfolding Users.get_by_username
get_user username = do user ← Users.get_by_username username; or_raise user user_not_found

unfoldable pub get_current_user_for_response : ℕ → Action User
unfolding Users.get_by_id
get_current_user_for_response user_id = do
  user ← Users.get_by_id user_id
  or_raise user user_not_found

abbrev pub is_other : User → Option User → Bool
is_other current_user none = false
is_other current_user (some existing_user) = not (existing_user.id == current_user.id)

-- `UsersRepository.update(…, username=…)`
unfoldable pub update_username : ℕ → ℕ → Action (Option User)
unfolding Repository.update_only_checked Users.get_by_id
update_username user_id username = do
  Repository.update_only_checked Users.users (λ u. u.id == user_id)
      (λ u. record u { username = some username })
  Users.get_by_id user_id

unfoldable pub set_username : User → ℕ → Action (Option User)
unfolding Users.get_by_username update_username
set_username current_user username = do
  raise_if (is_some current_user.username) username_already_set
  existing_user ← Users.get_by_username username
  raise_if (is_other current_user existing_user) user_username_conflict
  except_integrity_error (in_uow (update_username current_user.id username))
      (raise user_username_conflict)

-- `device_id` is that of the access token, where it has one.
unfoldable pub register_token :
    (now id : ℕ)
    → User
    → (token : ℕ) → DevicePlatform
    → (device_id : Option ℕ) → Action (Option NotificationToken)
unfolding Users.upsert
register_token now id current_user token platform device_id =
    in_uow (Users.upsert now id current_user.id token platform device_id)
