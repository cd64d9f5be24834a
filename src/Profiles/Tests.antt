-- ===== src/Profiles/Tests.antt =====
-- A user who signed up with Google, and one whose name is taken; a phone that comes back
use kupio_backend.Base.{◌≡◌, refl, Option, none, some, List, [], ◌∷◌, false, ◌==◌}
use kupio_backend.Base.Int.{pos}
use kupio_backend.Base.Lists.{select, update_where, some_row}
use kupio_backend.Models.{Database, empty}
use kupio_backend.Models.Users.{User, user, NotificationToken, android, ios}
use kupio_backend.Core.Errors.{user_username_conflict}
use kupio_backend.Core.Action.{Result, DbSession, ok, err, opened, in_uow}
use kupio_backend.Core.Repository
use kupio_backend.Users
use kupio_backend.Profiles.{set_username, update_username, register_token}
use kupio_backend.Profiles.Registry.{IsRegistered, register_token-put}
use kupio_backend.Profiles.Usernames.{EndsNamed, set_username-EndsNamed}

abbrev anna : User
anna = record {
  id = 1;
  username = none;
  email = 12;
  display_name = none;
  phone = none;
  password_hash = none;
  role = user;
  balance = pos 0;
  avatar_image_id = none;
  deleted_at = none;
}

-- A deleted user keeps the name 21.
abbrev ben : User
ben = record anna { id = 2; username = some 21; email = 22; deleted_at = some 5 }

abbrev town : Database
town = record empty { users = anna ∷ ben ∷ [] }

set_username-EndsNamed_example : EndsNamed anna 11 town (set_username anna 11 (opened town))
set_username-EndsNamed_example = set_username-EndsNamed anna 11 town

name_free : (set_username anna 11 (opened town)).0 ≡ ok (some (record anna { username = some 11 }))
unfolding set_username update_username Users.get_by_username Users.get_by_id Repository.get
    Repository.update_only_checked Repository.update_only in_uow select some_row update_where
name_free = refl

name_of_deleted : (set_username anna 21 (opened town)).0 ≡ err user_username_conflict
unfolding set_username update_username Users.get_by_username Repository.get
    Repository.update_only_checked in_uow select some_row update_where
name_of_deleted = refl

-- Anna's phone, before she signed in on it again
abbrev phone_token : NotificationToken
phone_token = record {
  id = 7;
  user_id = 1;
  token = 70;
  platform = android;
  device_id = none;
  last_seen_at = 3;
}

abbrev with_phone : Database
with_phone = record town { notification_tokens = phone_token ∷ [] }

new_id : some_row (λ (t : NotificationToken). 8 == t.id) (phone_token ∷ []) ≡ false
unfolding some_row
new_id = refl

register_token-put_example :
    IsRegistered 9 8 anna 70 android
      (some 5)
      with_phone
      (register_token 9 8 anna 70 android (some 5) (opened with_phone))
register_token-put_example = register_token-put 9 8 anna 70 android (some 5) with_phone new_id

abbrev tokens_after : Result (Option NotificationToken) × DbSession → List NotificationToken
tokens_after q = q.1.committed.notification_tokens

same_phone :
    tokens_after (register_token 9 8 anna 70 android (some 5) (opened with_phone))
    ≡ record phone_token { device_id = some 5; last_seen_at = 9 } ∷ []
unfolding register_token Users.upsert Repository.update_only Repository.get in_uow select some_row
    update_where
same_phone = refl

-- The same token on another platform is another entry.
other_phone :
    tokens_after (register_token 9 8 anna 70 ios (some 5) (opened with_phone))
    ≡ phone_token
      ∷ record phone_token { id = 8; platform = ios; device_id = some 5; last_seen_at = 9 }
      ∷ []
unfolding register_token Users.upsert Repository.add in_uow select some_row
other_phone = refl
