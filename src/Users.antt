-- ===== src/Users.antt =====
-- src/domains/users/repository.py: the statements on users, moderators and notification tokens
use kupio_backend.Base.{
  ℕ, ⊤, Bool, true, false, List, ◌&&◌, ◌||◌, Option, none, some, ◌==◌, holds, is_some,
  if◌then◌else◌,
}
use kupio_backend.Base.Lists.{some_row}
use kupio_backend.Base.Int.{ℤ, pos, ◌+ℤ◌, ◌-ℤ◌, leb_ℤ}
use kupio_backend.Models.Users.{User, UserRole, Moderator, NotificationToken, DevicePlatform}
use kupio_backend.Models.Users
use kupio_backend.Core.Action.{Action, ◌>>=◌, ◌>>◌, pure}
use kupio_backend.Core.Repository
use kupio_backend.Core.Repository.{Model}

-- Two values of a nullable unique column clash if both are there and are equal.
abbrev pub clash : Option ℕ → Option ℕ → Bool
clash none b = false
clash (some a) b = holds b a

-- The primary key, and `unique=True` on username, email and phone. Deleted users count too.
abbrev pub users : Model User
users = record {
  rows = λ db. db.users;
  with_rows = λ us db. record db { users = us };
  is_deleted = Users.is_deleted;
  delete_at = λ now u. record u { deleted_at = some now };
  conflicts = λ a b.
      a.id == b.id || a.email == b.email || clash a.username b.username || clash a.phone b.phone;
}

abbrev pub moderators : Model Moderator
moderators = record {
  rows = λ db. db.moderators;
  with_rows = λ ms db. record db { moderators = ms };
  is_deleted = λ _. false;
  delete_at = λ _ m. m;
  conflicts = λ a b. a.id == b.id || a.user_id == b.user_id;
}

abbrev pub same_platform : DevicePlatform → DevicePlatform → Bool
same_platform DevicePlatform.ios DevicePlatform.ios = true
same_platform DevicePlatform.android DevicePlatform.android = true
same_platform _ _ = false

abbrev pub notification_tokens : Model NotificationToken
notification_tokens = record {
  rows = λ db. db.notification_tokens;
  with_rows = λ ts db. record db { notification_tokens = ts };
  is_deleted = λ _. false;
  delete_at = λ _ t. t;
  conflicts = λ a b.
      a.id == b.id
      || a.user_id == b.user_id && same_platform a.platform b.platform && a.token == b.token;
}

-- `UsersRepository.create`, with the column defaults. `id` is the `uuid4()` of the row.
abbrev pub new_user : ℕ → ℕ → Option ℕ → Option ℕ → User
new_user id email username password_hash = record {
  id = id;
  username = username;
  email = email;
  display_name = none;
  phone = none;
  password_hash = password_hash;
  role = UserRole.user;
  balance = pos 0;
  avatar_image_id = none;
  deleted_at = none;
}

unfoldable pub create : ℕ → ℕ → Option ℕ → Option ℕ → Action User
create id email username password_hash =
    Repository.add users (new_user id email username password_hash)

unfoldable pub get_by_id : ℕ → Action (Option User)
get_by_id user_id = Repository.get users (λ u. u.id == user_id)

unfoldable pub get_by_email : ℕ → Action (Option User)
get_by_email email = Repository.get users (λ u. u.email == email)

unfoldable pub get_by_username : ℕ → Action (Option User)
get_by_username username = Repository.get users (λ u. holds u.username username)

-- One conditional UPDATE: it takes the amount only from a balance that covers it.
unfoldable pub deduct_balance : ℕ → ℤ → Action Bool
unfolding Repository.update
deduct_balance user_id amount = do
  result ←
      Repository.update users (λ u. u.id == user_id && leb_ℤ amount u.balance)
        (λ u. record u { balance = u.balance -ℤ amount })
  pure (is_some result)

unfoldable pub add_balance : ℕ → ℤ → Action ⊤
unfolding Repository.update_only
add_balance user_id amount =
    Repository.update_only users (λ u. u.id == user_id)
      (λ u. record u { balance = u.balance +ℤ amount })

unfoldable pub soft_delete_by_id : ℕ → ℕ → Action Bool
soft_delete_by_id now user_id = Repository.soft_delete users now (λ u. u.id == user_id)

-- `UsersRepository.update(…, password_hash=…)`: the row is read again, and its deletion counts.
unfoldable pub update_password : ℕ → ℕ → Action (Option User)
unfolding Repository.update_only
update_password user_id password_hash = do
  Repository.update_only users (λ u. u.id == user_id)
      (λ u. record u { password_hash = some password_hash })
  get_by_id user_id

abbrev pub same_token : ℕ → DevicePlatform → ℕ → NotificationToken → Bool
same_token user_id platform token t =
    user_id == t.user_id && same_platform platform t.platform && token == t.token

-- `id` is the `uuid4()` of a new row, `now` the time of the request.
abbrev pub new_token : (now id user_id token : ℕ) → DevicePlatform → Option ℕ → NotificationToken
new_token now id user_id token platform device_id = record {
  id = id;
  user_id = user_id;
  token = token;
  platform = platform;
  device_id = device_id;
  last_seen_at = now;
}

-- INSERT … ON CONFLICT (user, platform, token) DO UPDATE … RETURNING
unfoldable pub upsert :
    (now id user_id token : ℕ) → DevicePlatform → Option ℕ → Action (Option NotificationToken)
unfolding Repository.update_only
upsert now id user_id token platform device_id s =
    if some_row (same_token user_id platform token) s.working.notification_tokens
    then (do
      Repository.update_only notification_tokens (same_token user_id platform token)
          (λ t. record t { device_id = device_id; last_seen_at = now })
      Repository.get notification_tokens (same_token user_id platform token))
        s
    else (do
      t ← Repository.add notification_tokens (new_token now id user_id token platform device_id)
      pure (some t))
        s

unfoldable pub get_tokens_for_user : ℕ → Action (List NotificationToken)
get_tokens_for_user user_id = Repository.get_many notification_tokens (λ t. t.user_id == user_id)

-- `NotificationTokensRepository.delete_by_id`
unfoldable pub delete_token_by_id : ℕ → Action Bool
delete_token_by_id token_id = Repository.delete notification_tokens (λ t. t.id == token_id)

unfoldable pub delete_tokens_by_user_and_device : ℕ → ℕ → Action Bool
delete_tokens_by_user_and_device user_id device_id =
    Repository.delete notification_tokens (λ t. t.user_id == user_id && holds t.device_id device_id)

unfoldable pub get_moderator_by_user_id : ℕ → Action (Option Moderator)
get_moderator_by_user_id user_id = Repository.get moderators (λ m. m.user_id == user_id)

unfoldable pub touch_last_action : ℕ → ℕ → Action (Option Moderator)
touch_last_action moderator_id at =
    Repository.update moderators (λ m. m.id == moderator_id)
      (λ m. record m { last_action_at = some at })
