-- ===== src/Chat/Rows.antt =====
-- src/domains/chat/repository.py
use kupio_backend.Base.{
  ℕ, ⊤, Bool, true, false, ◌&&◌, ◌||◌, not, Option, none, some, List, [], map, ◌==◌, ltb, is_none,
  if◌then◌else◌,
}
use kupio_backend.Base.Lists.{length, take, head?, select}
use kupio_backend.Base.Sorted.{order_by}
use kupio_backend.Base.Joins.{join_where}
use kupio_backend.Models.{Database}
use kupio_backend.Models.Chat.{Conversation, Message, ConversationRole, buyer, seller}
use kupio_backend.Models.Chat
use kupio_backend.Core.Action.{ok, Action, ◌>>◌}
use kupio_backend.Core.Repository
use kupio_backend.Core.Repository.{Model}
use kupio_backend.Pagination.Keyset.{page}

-- `uq_conversation_listing_buyer`
abbrev pub conversations : Model Conversation
conversations = record {
  rows = λ db. db.conversations;
  with_rows = λ cs db. record db { conversations = cs };
  is_deleted = λ _. false;
  delete_at = λ _ c. c;
  conflicts = λ a b. a.id == b.id || (a.listing_id == b.listing_id && a.buyer_id == b.buyer_id);
}

abbrev pub messages : Model Message
messages = record {
  rows = λ db. db.messages;
  with_rows = λ ms db. record db { messages = ms };
  is_deleted = Chat.is_deleted;
  delete_at = λ now m. record m { deleted_at = some now };
  conflicts = λ a b. a.id == b.id;
}

unfoldable pub get_conversation_by_id : ℕ → Action (Option Conversation)
get_conversation_by_id conversation_id = Repository.get conversations (λ c. c.id == conversation_id)

unfoldable pub get_by_listing_and_buyer : (listing_id buyer_id : ℕ) → Action (Option Conversation)
get_by_listing_and_buyer listing_id buyer_id =
    Repository.get conversations (λ c. c.listing_id == listing_id && c.buyer_id == buyer_id)

abbrev pub new_conversation : (id now listing_id buyer_id seller_id : ℕ) → Conversation
new_conversation id now listing_id buyer_id seller_id = record {
  id = id;
  listing_id = listing_id;
  buyer_id = buyer_id;
  seller_id = seller_id;
  last_message_preview = none;
  buyer_last_read_at = none;
  seller_last_read_at = none;
  created_at = now;
}

unfoldable pub create_conversation :
    (id now listing_id buyer_id seller_id : ℕ) → Action Conversation
create_conversation id now listing_id buyer_id seller_id =
    Repository.add conversations (new_conversation id now listing_id buyer_id seller_id)

unfoldable pub update_message_preview : ℕ → List ℕ → Action (Option Conversation)
update_message_preview conversation_id preview =
    Repository.update conversations (λ c. c.id == conversation_id)
      (λ c. record c { last_message_preview = some (take 255 preview) })

unfoldable pub update_last_read_at : (now conversation_id user_id : ℕ) → Action ⊤
update_last_read_at now conversation_id user_id = do
  Repository.update_only conversations (λ c. c.id == conversation_id && c.buyer_id == user_id)
      (λ c. record c { buyer_last_read_at = some now })
  Repository.update_only conversations (λ c. c.id == conversation_id && c.seller_id == user_id)
      (λ c. record c { seller_last_read_at = some now })

abbrev pub last_read_at : ℕ → Conversation → Option ℕ
last_read_at user_id c =
    if c.buyer_id == user_id then c.buyer_last_read_at else c.seller_last_read_at

abbrev pub is_after : Option ℕ → ℕ → Bool
is_after none t = true
is_after (some read) t = ltb read t

-- What both counts ask of a message of the conversation
abbrev pub is_news : ℕ → Conversation → Message → Bool
is_news user_id c m =
    is_none m.deleted_at
    && not (m.sender_id == user_id)
    && is_after (last_read_at user_id c) m.created_at

abbrev pub is_unread : ℕ → Conversation → Message → Bool
is_unread user_id c m = m.conversation_id == c.id && is_news user_id c m

-- `_unread_subquery`
unfoldable pub unread_count : ℕ → List Message → Conversation → ℕ
unread_count user_id ms c = length (select (is_unread user_id c) ms)

abbrev pub with_unread : ℕ → List Message → Conversation → Conversation × ℕ
with_unread user_id ms c = (c, unread_count user_id ms c)

unfoldable pub get_with_unread_count :
    (conversation_id user_id : ℕ) → Action (Option (Conversation × ℕ))
get_with_unread_count conversation_id user_id s = (
  ok (
      head? (
        map (with_unread user_id s.working.messages)
          (select (λ c. c.id == conversation_id) s.working.conversations))),
  s,
)

abbrev pub is_as : ConversationRole → ℕ → Conversation → Bool
is_as buyer user_id c = c.buyer_id == user_id
is_as seller user_id c = c.seller_id == user_id

abbrev pub Row : Type 0
Row = Conversation × ℕ

abbrev pub started_at : Row → ℕ
started_at r = r.0.created_at

abbrev pub row_id : Row → ℕ
row_id r = r.0.id

abbrev pub conversations_as : ConversationRole → ℕ → Database → List Row
conversations_as role user_id db =
    map (with_unread user_id db.messages) (select (is_as role user_id) db.conversations)

unfoldable pub list_as : ConversationRole → (user_id limit : ℕ) → Option (ℕ × ℕ) → Action (List Row)
list_as role user_id limit cursor s =
    (ok (page started_at row_id limit cursor (conversations_as role user_id s.working)), s)

abbrev pub has_participant : ℕ → Conversation → Bool
has_participant user_id c = c.buyer_id == user_id || c.seller_id == user_id

-- ON and WHERE of `get_total_unread_count`
abbrev pub unread_of : ℕ → Message → Conversation → Bool
unread_of user_id m c =
    m.conversation_id == c.id && has_participant user_id c && is_news user_id c m

unfoldable pub get_total_unread_count_of : ℕ → Action ℕ
get_total_unread_count_of user_id s =
    (ok (length (join_where (unread_of user_id) s.working.messages s.working.conversations)), s)

abbrev pub new_message : (id now conversation_id sender_id : ℕ) → List ℕ → Message
new_message id now conversation_id sender_id body = record {
  id = id;
  conversation_id = conversation_id;
  sender_id = sender_id;
  body = body;
  created_at = now;
  deleted_at = none;
}

unfoldable pub create_message : (id now conversation_id sender_id : ℕ) → List ℕ → Action Message
create_message id now conversation_id sender_id body =
    Repository.add messages (new_message id now conversation_id sender_id body)

-- Deleted messages too
unfoldable pub get_by_id_in_conversation :
    (message_id conversation_id : ℕ) → Action (Option Message)
get_by_id_in_conversation message_id conversation_id s = (
  ok (
      head? (
        select (λ m. m.id == message_id && m.conversation_id == conversation_id)
          s.working.messages)),
  s,
)

abbrev pub sent_at : Message → ℕ
sent_at m = m.created_at

abbrev pub message_id : Message → ℕ
message_id m = m.id

unfoldable pub list_with_deleted :
    (conversation_id limit : ℕ) → Option (ℕ × ℕ) → Action (List Message)
list_with_deleted conversation_id limit cursor s = (
  ok (
      page sent_at message_id limit cursor
        (select (λ m. m.conversation_id == conversation_id) s.working.messages)),
  s,
)

unfoldable pub soft_delete_message : (now message_id : ℕ) → Action Bool
soft_delete_message now message_id = Repository.soft_delete messages now (λ m. m.id == message_id)

abbrev pub oldest_first : Message → Message → Bool
oldest_first a b = ltb a.created_at b.created_at || (a.created_at == b.created_at && ltb a.id b.id)

-- The WHERE of `get_messages_after`, with the time of its anchor
abbrev pub is_missed : (conversation_id after_message_id : ℕ) → ℕ → Message → Bool
is_missed conversation_id after_message_id anchor_ts m =
    m.conversation_id == conversation_id
    && is_none m.deleted_at
    && (ltb anchor_ts m.created_at || (m.created_at == anchor_ts && ltb after_message_id m.id))

unfoldable pub missed :
    (conversation_id after_message_id : ℕ) → Option Message → List Message → List Message
missed conversation_id after_message_id none ms = []
missed conversation_id after_message_id (some anchor) ms = take 200 (
    order_by oldest_first
      (select (is_missed conversation_id after_message_id anchor.created_at) ms))

unfoldable pub get_messages_after : (conversation_id after_message_id : ℕ) → Action (List Message)
unfolding missed
get_messages_after conversation_id after_message_id s = (
  ok (
      missed conversation_id after_message_id
        (head? (select (λ m. m.id == after_message_id) s.working.messages)) s.working.messages),
  s,
)
