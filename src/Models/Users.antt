-- ===== src/Models/Users.antt =====
-- src/domains/users/models.py and enums.py
use kupio_backend.Base.{ℕ, Option, Bool, is_none, is_some}
use kupio_backend.Base.Int.{ℤ}

pub data UserRole : Type 0 where
  moderator user : UserRole

pub data DevicePlatform : Type 0 where
  ios android : DevicePlatform

-- `balance` is in cents. `display_name` stands for the two name columns and for the property
-- the source computes from them, which is all that the modelled services read of them.
pub record User : Type 0 where
  pub id : ℕ
  pub username : Option ℕ
  pub email : ℕ
  pub display_name : Option ℕ
  pub phone : Option ℕ
  pub password_hash : Option ℕ
  pub role : UserRole
  pub balance : ℤ
  pub avatar_image_id : Option ℕ
  pub deleted_at : Option ℕ

-- `SoftDeleteMixin.is_deleted`
abbrev pub is_deleted : User → Bool
is_deleted u = is_some u.deleted_at

abbrev pub needs_username : User → Bool
needs_username u = is_none u.username

pub record NotificationToken : Type 0 where
  pub id : ℕ
  pub user_id : ℕ
  pub token : ℕ
  pub platform : DevicePlatform
  pub device_id : Option ℕ
  pub last_seen_at : ℕ

pub record Moderator : Type 0 where
  pub id : ℕ
  pub user_id : ℕ
  pub last_action_at : Option ℕ
