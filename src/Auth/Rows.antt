-- ===== src/Auth/Rows.antt =====
-- src/domains/auth/repository.py, SessionsRepository
use kupio_backend.Base.{ℕ, Bool, true, false, ◌&&◌, ◌||◌, not, Option, List, ◌==◌, ltb, is_some}
use kupio_backend.Models.Auth.{Session}
use kupio_backend.Core.Action.{Action, ◌>>=◌, pure}
use kupio_backend.Core.Repository
use kupio_backend.Core.Repository.{Model}

-- The primary key and `token_hash` are unique.
abbrev pub sessions : Model Session
sessions = record {
  rows = λ db. db.sessions;
  with_rows = λ ss db. record db { sessions = ss };
  is_deleted = λ _. false;
  delete_at = λ _ s. s;
  conflicts = λ a b. a.id == b.id || a.token_hash == b.token_hash;
}

-- Not revoked and not run out
abbrev pub live : ℕ → Session → Bool
live now s = not s.is_revoked && ltb now s.expires_at

abbrev pub revoke : ℕ → Session → Session
revoke now s = record s { last_used_at = now; is_revoked = true }

unfoldable pub create_session : ℕ → ℕ → ℕ → ℕ → ℕ → ℕ → Action Session
create_session id now user_id token_hash device_id expires_at = Repository.add sessions (record {
  id = id;
  user_id = user_id;
  token_hash = token_hash;
  device_id = device_id;
  expires_at = expires_at;
  last_used_at = now;
  is_revoked = false;
})

unfoldable pub get_active_by_token_and_device : ℕ → ℕ → ℕ → Action (Option Session)
get_active_by_token_and_device now token_hash device_id =
    Repository.get sessions
      (λ s. s.token_hash == token_hash && s.device_id == device_id && live now s)

unfoldable pub list_active_by_user_id : ℕ → ℕ → Action (List Session)
list_active_by_user_id now user_id =
    Repository.get_many sessions (λ s. s.user_id == user_id && live now s)

unfoldable pub revoke_by_id : ℕ → ℕ → Action Bool
revoke_by_id now session_id = do
  updated ← Repository.update sessions (λ s. s.id == session_id && not s.is_revoked) (revoke now)
  pure (is_some updated)

unfoldable pub revoke_by_id_and_user_id : ℕ → ℕ → ℕ → Action Bool
revoke_by_id_and_user_id now session_id user_id = do
  rowcount ←
      Repository.update_count sessions
        (λ s. s.id == session_id && s.user_id == user_id && not s.is_revoked) (revoke now)
  pure (ltb 0 rowcount)

unfoldable pub revoke_all_by_user_id : ℕ → ℕ → Action ℕ
revoke_all_by_user_id now user_id =
    Repository.update_count sessions (λ s. s.user_id == user_id && not s.is_revoked) (revoke now)

-- This statement expects one row at most, and leaves `last_used_at` alone.
unfoldable pub revoke_active_for_device : ℕ → ℕ → ℕ → Action (Option Session)
revoke_active_for_device now user_id device_id =
    Repository.update sessions (λ s. s.user_id == user_id && s.device_id == device_id && live now s)
      (λ s. record s { is_revoked = true })

unfoldable pub get_by_token_hash : ℕ → Action (Option Session)
get_by_token_hash token_hash = Repository.get sessions (λ s. s.token_hash == token_hash)
