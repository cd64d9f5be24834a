-- ===== src/Push.antt =====
-- src/worker.py: the task that pushes a notification to every device of a user. Firebase is a parameter:
-- what `messaging.send` does with a message for a token. Title, body, type and data are one payload.
pub mod Cleanup
mod Tests
use kupio_backend.Base.{ℕ, ⊤, List, [], ◌∷◌, Bool, true, false, map}
use kupio_backend.Base.Lists.{select}
use kupio_backend.Models.Users.{NotificationToken}
use kupio_backend.Core.Action.{Action, ◌>>=◌, ◌>>◌, pure, commit, ok}
use kupio_backend.Users

-- `messaging.send` returns, raises `UnregisteredError`, or raises anything else.
pub data SendOutcome : Type 0 where
  sent unregistered failed : SendOutcome

pub record FcmMessage : Type 0 where
  pub notification : ℕ
  pub token : ℕ

abbrev pub is_dead : SendOutcome → Bool
is_dead SendOutcome.unregistered = true
is_dead _ = false

abbrev pub message_to : ℕ → NotificationToken → FcmMessage
message_to notification t = record { notification = notification; token = t.token }

-- The deletions are committed where there is one.
unfoldable pub delete_each : List ℕ → Action ⊤
delete_each [] = pure tt
delete_each (tid ∷ rest) = Users.delete_token_by_id tid >> delete_each rest

abbrev pub delete_dead : List ℕ → Action ⊤
delete_dead [] = pure tt
delete_dead (tid ∷ rest) = delete_each (tid ∷ rest) >> λ s. (ok tt, commit s)

-- The messages that were tried, in order
unfoldable pub send_fcm_push : (FcmMessage → SendOutcome) → ℕ → ℕ → Action (List FcmMessage)
unfolding Users.get_tokens_for_user
send_fcm_push send recipient_user_id notification = do
  tokens ← Users.get_tokens_for_user recipient_user_id
  delete_dead (map (λ t. t.id) (select (λ t. is_dead (send (message_to notification t))) tokens))
  pure (map (message_to notification) tokens)
