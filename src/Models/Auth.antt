-- ===== src/Models/Auth.antt =====
-- src/domains/auth/models.py
use kupio_backend.Base.{ℕ, Bool}

pub record Session : Type 0 where
  pub id : ℕ
  pub user_id : ℕ
  pub token_hash : ℕ
  pub device_id : ℕ
  pub expires_at : ℕ
  pub last_used_at : ℕ
  pub is_revoked : Bool

pub record OauthIdentity : Type 0 where
  pub id : ℕ
  pub user_id : ℕ
  pub provider : ℕ
  pub provider_sub : ℕ
  pub last_login_at : ℕ
