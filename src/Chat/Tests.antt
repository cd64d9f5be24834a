-- ===== src/Chat/Tests.antt =====
-- A conversation about a flat, with a message that its seller has not read
use kupio_backend.Base.{
  ℕ, ◌≡◌, ◌+◌, refl, Bool, true, false, ◌&&◌, not, Option, none, some, is_none, List, [], ◌∷◌,
  arith, if◌then◌else◌, ◌==◌,
}
use kupio_backend.Base.Int.{pos}
use kupio_backend.Base.Lists.{All, select, some_row}
use kupio_backend.Models.{Database, empty}
use kupio_backend.Models.Users.{User, user}
use kupio_backend.Models.Listings.{Listing, active, usd}
use kupio_backend.Models.Chat.{Conversation, Message}
use kupio_backend.Core.Errors.{not_conversation_participant, integrity_error}
use kupio_backend.Core.Action.{ok, err, opened}
use kupio_backend.Core.Repository
use kupio_backend.Pagination.Sample.{codec}
use kupio_backend.Chat.{
  Event, message_published, push_enqueued, get_total_unread_count, get_conversation,
  get_participant_conversation, list_messages, send_message, delete_message,
  get_or_create_conversation, open_conversation,
}
use kupio_backend.Chat.Rows.{get_conversation_by_id, unread_count, is_after, last_read_at}
use kupio_backend.Chat.Unread.{get_total_unread_count-sum}
use kupio_backend.Chat.Reading.{list_messages-get_conversation}
use kupio_backend.Chat.Sending.{sent, send_message-sent}
use kupio_backend.Chat.Participants.{outsider-refused}
use kupio_backend.Chat.Deletion.{delete_message-others}
use kupio_backend.Chat.Existing.{sends}
use kupio_backend.Chat.Opening.{conversation, started, get_or_create_conversation-again}

abbrev owner : User
owner = record {
  id = 1;
  username = some 11;
  email = 12;
  display_name = none;
  phone = none;
  password_hash = none;
  role = user;
  balance = pos 0;
  avatar_image_id = none;
  deleted_at = none;
}

abbrev visitor : User
visitor = record owner { id = 2; username = some 21; email = 22 }

abbrev stranger : User
stranger = record owner { id = 9; username = some 91; email = 92 }

abbrev flat : Listing
flat = record {
  id = 3;
  user_id = 1;
  category_id = 4;
  price = 90;
  is_free = false;
  is_tradable = false;
  title = 60;
  description = 61;
  currency = usd;
  custom_filters = none;
  phone = none;
  contact_name = none;
  is_calls_disabled = false;
  status = active;
  created_at = 5;
  deleted_at = none;
}

abbrev talk : Conversation
talk = record {
  id = 7;
  listing_id = 3;
  buyer_id = 2;
  seller_id = 1;
  last_message_preview = none;
  buyer_last_read_at = none;
  seller_last_read_at = none;
  created_at = 100;
}

abbrev older_talk : Conversation
older_talk = record talk { id = 6; listing_id = 8; buyer_id = 5; created_at = 50 }

abbrev hello : Message
hello = record {
  id = 20;
  conversation_id = 7;
  sender_id = 2;
  body = 104 ∷ 105 ∷ [];
  created_at = 110;
  deleted_at = none;
}

abbrev desk : Database
desk = record empty {
  listings = flat ∷ [];
  conversations = older_talk ∷ talk ∷ [];
  messages = hello ∷ [];
}

abbrev nobody_online : ℕ → ℕ → Bool
nobody_online conversation_id user_id = false

get_total_unread_count-sum_example :
    get_total_unread_count owner (opened desk) ≡ (ok 1, opened desk)
unfolding select unread_count
get_total_unread_count-sum_example = get_total_unread_count-sum owner (opened desk)

list_messages-get_conversation_example :
    let s = (list_messages codec 200 owner 7 20 none (opened desk)).1 in
    (c : Conversation) × (get_conversation owner 7 s ≡ (ok (c, 0), s))
unfolding get_participant_conversation get_conversation_by_id Repository.get select
list_messages-get_conversation_example =
    list_messages-get_conversation 200 7 owner desk codec 20 none talk refl (omega arith, tt)

send_message-sent_example :
    (send_message nobody_online 21 200 owner 7 (79 ∷ 75 ∷ []) (opened desk) ≡ (
      ok (
        record hello { id = 21; sender_id = 1; body = 79 ∷ 75 ∷ []; created_at = 200 },
        message_published
              (record hello { id = 21; sender_id = 1; body = 79 ∷ 75 ∷ []; created_at = 200 })
            ∷ push_enqueued 2 7 (79 ∷ 75 ∷ [])
            ∷ [],
      ),
      opened (sent nobody_online 21 200 7 owner (79 ∷ 75 ∷ []) desk),
    ))
    × ((v : ℕ) (c : Conversation)
        → unread_count v (sent nobody_online 21 200 7 owner (79 ∷ 75 ∷ []) desk).messages c
          ≡ unread_count v desk.messages c
            + (if 7 == c.id && (not (1 == v) && is_after (last_read_at v c) 200) then 1 else 0))
unfolding get_participant_conversation get_conversation_by_id Repository.get select some_row
send_message-sent_example =
    send_message-sent nobody_online 21 200 7 owner (79 ∷ 75 ∷ []) desk talk refl
      ((omega arith, tt), (tt, tt)) refl

outsider-refused_example :
    (get_conversation stranger 7 (opened desk) ≡ (err not_conversation_participant, opened desk))
    × (list_messages codec 200 stranger 7 20 none (opened desk)
        ≡ (err not_conversation_participant, opened desk))
    × (send_message nobody_online 21 200 stranger 7 (79 ∷ []) (opened desk)
        ≡ (err not_conversation_participant, opened desk))
    × (delete_message 200 stranger 7 20 (opened desk)
        ≡ (err not_conversation_participant, opened desk))
unfolding select
outsider-refused_example =
    outsider-refused stranger 7 desk codec nobody_online 21 200 20 20 (79 ∷ []) none
      ((λ here. refl), ((λ here. refl), tt))

delete_message-others_example :
    let q = delete_message 200 visitor 7 20 (opened desk) in
    (select (λ m. not (m.sender_id == 2)) q.1.committed.messages
      ≡ select (λ m. not (m.sender_id == 2)) desk.messages)
    × (q.1.committed.conversations ≡ desk.conversations)
    × ((es : List Event)
        → q.0 ≡ ok es
        → (m : Message) × (some hello ≡ some m)
          × ((m.sender_id == 2) ≡ true)
          × All (λ m. (m.id == 20) ≡ true → is_none m.deleted_at ≡ false) q.1.committed.messages)
unfolding select
delete_message-others_example = delete_message-others 200 visitor 7 20 desk (tt, tt)

abbrev quiet : Database
quiet = record desk { conversations = older_talk ∷ [] }

get_or_create_conversation-again_example :
    let new = conversation nobody_online 7 40 100 visitor flat quiet in
    let q =
      get_or_create_conversation nobody_online 7 40 100 visitor flat
        (some (5 ∷ []))
        (opened quiet) in
    (q
      ≡ sends nobody_online 40 100 visitor
          (new, 0)
          (some (5 ∷ []))
          (opened (started nobody_online 7 40 100 visitor flat quiet)))
    × ((c : Conversation) × (c.id ≡ 7)
        × ((id' message_id' now' : ℕ) (start_with' : Option (List ℕ))
            → let db' = q.1.committed in
              (get_or_create_conversation nobody_online id' message_id' now' visitor flat
                  start_with'
                  (opened db')
                ≡ sends nobody_online message_id' now' visitor
                    (c, unread_count 2 db'.messages c)
                    start_with'
                    (opened db'))
              × (open_conversation nobody_online id' now' visitor flat none (opened db')
                  ≡ (err integrity_error, opened db'))))
unfolding some_row
get_or_create_conversation-again_example =
    get_or_create_conversation-again nobody_online 7 40 100 visitor flat quiet refl refl
      (some (5 ∷ []))
