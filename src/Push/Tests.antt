-- ===== src/Push/Tests.antt =====
-- Anna has two phones, one of which Firebase does not know, and Ben has the same as hers.
use kupio_backend.Base.{◌≡◌, refl, none, [], ◌∷◌, arith, ◌==◌, if◌then◌else◌}
use kupio_backend.Base.Lists.{select, UniqueBy}
use kupio_backend.Models.{Database, empty}
use kupio_backend.Models.Users.{NotificationToken, android, ios}
use kupio_backend.Core.Action.{ok, opened}
use kupio_backend.Core.Repository
use kupio_backend.Users
use kupio_backend.Push.{
  FcmMessage, SendOutcome, sent, unregistered, message_to, delete_each, send_fcm_push,
}
use kupio_backend.Push.Cleanup.{cleaned, send_fcm_push-send_fcm_push}

abbrev old_phone : NotificationToken
old_phone = record {
  id = 1;
  user_id = 10;
  token = 70;
  platform = android;
  device_id = none;
  last_seen_at = 3;
}

abbrev new_phone : NotificationToken
new_phone = record old_phone { id = 2; token = 71; platform = ios }

abbrev sold_phone : NotificationToken
sold_phone = record old_phone { id = 3; user_id = 11 }

abbrev phones : Database
phones = record empty { notification_tokens = old_phone ∷ new_phone ∷ sold_phone ∷ [] }

abbrev firebase : FcmMessage → SendOutcome
firebase m = if m.token == 70 then unregistered else sent

tried :
    (send_fcm_push firebase 10 5 (opened phones)).0
    ≡ ok (message_to 5 old_phone ∷ message_to 5 new_phone ∷ [])
unfolding send_fcm_push Users.get_tokens_for_user Users.delete_token_by_id Repository.get_many
    Repository.delete delete_each select
tried = refl

left :
    (send_fcm_push firebase 10 5 (opened phones)).1.committed.notification_tokens
    ≡ new_phone ∷ sold_phone ∷ []
unfolding send_fcm_push Users.get_tokens_for_user Users.delete_token_by_id Repository.get_many
    Repository.delete delete_each select
left = refl

phones_unique : UniqueBy (λ t. t.id) (old_phone ∷ new_phone ∷ sold_phone ∷ [])
phones_unique = ((λ e. omega arith, (λ e. omega arith, tt)), ((λ e. omega arith, tt), (tt, tt)))

send_fcm_push-send_fcm_push_example :
    (send_fcm_push firebase 10 5 (opened phones) ≡ (
      ok (message_to 5 old_phone ∷ message_to 5 new_phone ∷ []),
      opened (cleaned firebase 10 5 phones),
    ))
    × (send_fcm_push firebase 10 5 (opened (cleaned firebase 10 5 phones))
        ≡ (ok (message_to 5 new_phone ∷ []), opened (cleaned firebase 10 5 phones)))
unfolding select
send_fcm_push-send_fcm_push_example = send_fcm_push-send_fcm_push firebase 10 5 phones phones_unique
