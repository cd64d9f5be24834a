-- ===== src/Chat.antt =====
-- src/domains/chat/service.py. What a handler publishes or pushes is returned as a list of events, in
-- order; Redis tells who is online. The title that a push shows is left out.
pub mod Rows
pub mod Unread
pub mod Reading
mod Tests
pub mod Existing
pub mod Opening
pub mod Lists
pub mod Participants
pub mod Deletion
pub mod Sending
use kupio_backend.Base.{
  ℕ, ⊤, Bool, true, false, ◌||◌, not, Option, none, some, List, [], ◌∷◌, ◌==◌, if◌then◌else◌,
}
use kupio_backend.Base.Lists.{take}
use kupio_backend.Models.Users.{User}
use kupio_backend.Models.Listings.{Listing}
use kupio_backend.Models.Chat.{Conversation, Message, ConversationRole}
use kupio_backend.Models
use kupio_backend.Core.Errors.{
  cannot_message_own_listing, conversation_not_found, message_not_found, message_not_owned,
  not_conversation_participant, type_error,
}
use kupio_backend.Core.Action.{
  Action, DbSession, ◌>>=◌, ◌>>◌, pure, lift, raise_if, or_raise, in_uow,
}
use kupio_backend.Pagination.Cursors.{Codec, read_cursor, decode_cursor, encode_cursor}
use kupio_backend.Pagination.Pages.{both_given, next_cursor}
use Rows.{
  get_conversation_by_id, get_by_listing_and_buyer, create_conversation, update_message_preview,
  update_last_read_at, get_with_unread_count, list_as, get_total_unread_count_of, create_message,
  get_by_id_in_conversation, list_with_deleted, soft_delete_message, Row, started_at, row_id,
  sent_at, message_id,
}

-- What `ChatRedisManager` publishes, and the push of the worker
pub data Event : Type 0 where
  message_published : Message → Event
  deletion_published : (conversation_id message_id : ℕ) → Event
  read_published : (conversation_id user_id : ℕ) → Event
  push_enqueued : (recipient_id conversation_id : ℕ) → List ℕ → Event

abbrev pub generate_message_preview : Message → List ℕ
generate_message_preview m = take 100 m.body

-- `current_user.id not in (conv.buyer_id, conv.seller_id)`
abbrev pub is_outsider : User → Conversation → Bool
is_outsider current_user conv =
    not (current_user.id == conv.buyer_id || current_user.id == conv.seller_id)

unfoldable pub get_participant_conversation : User → ℕ → Action Conversation
unfolding get_conversation_by_id
get_participant_conversation current_user conversation_id = do
  found ← get_conversation_by_id conversation_id
  conv ← or_raise found conversation_not_found
  raise_if (is_outsider current_user conv) not_conversation_participant
  pure conv

unfoldable pub get_conversation : User → ℕ → Action Row
unfolding get_with_unread_count
get_conversation current_user conversation_id = do
  found ← get_with_unread_count conversation_id current_user.id
  (conv, unread) ← or_raise found conversation_not_found
  raise_if (is_outsider current_user conv) not_conversation_participant
  pure (conv, unread)

abbrev pub recipient_of : Conversation → ℕ → ℕ
recipient_of conv sender_id = if sender_id == conv.buyer_id then conv.seller_id else conv.buyer_id

unfoldable pub get_total_unread_count : User → Action ℕ
unfolding get_total_unread_count_of
get_total_unread_count current_user = get_total_unread_count_of current_user.id

-- The transaction of `send_message`
unfoldable pub store_message : (id now : ℕ) → User → ℕ → List ℕ → Action Message
unfolding create_message update_message_preview
store_message id now current_user conversation_id body = do
  msg ← create_message id now conversation_id current_user.id body
  update_message_preview conversation_id (generate_message_preview msg)
  pure msg

module _ (is_online : (conversation_id user_id : ℕ) → Bool) where
  unfoldable pub maybe_enqueue_push : Conversation → Message → ℕ → List Event
  maybe_enqueue_push conv msg sender_id =
      let recipient_id = recipient_of conv sender_id in
      if is_online conv.id recipient_id
      then []
      else push_enqueued recipient_id conv.id (generate_message_preview msg) ∷ []

  unfoldable pub send_message : (id now : ℕ) → User → ℕ → List ℕ → Action (Message × List Event)
  unfolding get_participant_conversation store_message maybe_enqueue_push
  send_message id now current_user conversation_id body = do
    conv ← get_participant_conversation current_user conversation_id
    msg ← in_uow (store_message id now current_user conversation_id body)
    pure (msg, message_published msg ∷ maybe_enqueue_push conv msg current_user.id)

  -- `if existing: … else: …`; a row of the conversation that was found is always there.
  abbrev pub open_conversation : (id now : ℕ) → User → Listing → Option Conversation → Action Row
  open_conversation id now current_user listing (some existing) = do
    row ← get_with_unread_count existing.id current_user.id
    or_raise row type_error
  open_conversation id now current_user listing none = do
    conv ← in_uow (create_conversation id now listing.id current_user.id listing.user_id)
    pure (conv, 0)

  -- `if start_with is not None: …`; the events are those of `send_message`.
  abbrev pub start :
      (message_id now : ℕ) → User → Conversation → Option (List ℕ) → Action (List Event)
  start message_id now current_user conv none = pure []
  start message_id now current_user conv (some body) = do
    (msg, events) ← send_message message_id now current_user conv.id body
    pure events

  unfoldable pub get_or_create_conversation :
      (id message_id now : ℕ) → User → Listing → Option (List ℕ) → Action (Row × List Event)
  unfolding get_by_listing_and_buyer get_with_unread_count create_conversation send_message
  get_or_create_conversation id message_id now current_user listing start_with = do
    raise_if (listing.user_id == current_user.id) cannot_message_own_listing
    existing ← get_by_listing_and_buyer listing.id current_user.id
    (conv, unread) ← open_conversation id now current_user listing existing
    events ← start message_id now current_user conv start_with
    pure ((conv, unread), events)

unfoldable pub delete_message :
    (now : ℕ) → User → (conversation_id message_id : ℕ) → Action (List Event)
unfolding get_participant_conversation get_by_id_in_conversation soft_delete_message
delete_message now current_user conversation_id message_id = do
  get_participant_conversation current_user conversation_id
  found ← get_by_id_in_conversation message_id conversation_id
  msg ← or_raise found message_not_found
  raise_if (not (msg.sender_id == current_user.id)) message_not_owned
  in_uow (soft_delete_message now message_id)
  pure (deletion_published conversation_id message_id ∷ [])

module _ {Text J : Type 0} (lib : Codec Text J) where
  unfoldable pub list_conversations :
      User → ConversationRole → ℕ → Option Text → Action (List Row × Option Text)
  unfolding list_as
  list_conversations current_user role limit cursor = do
    given ← lift (read_cursor lib (decode_cursor lib) cursor)
    rows ← list_as role current_user.id limit (both_given given)
    next ← next_cursor started_at row_id (encode_cursor lib) limit rows
    pure (rows, next)

  unfoldable pub list_messages :
      (now : ℕ)
      → User
      → (conversation_id limit : ℕ) → Option Text
      → Action ((List Message × Option Text) × List Event)
  unfolding get_participant_conversation update_last_read_at list_with_deleted
  list_messages now current_user conversation_id limit cursor = do
    get_participant_conversation current_user conversation_id
    in_uow (update_last_read_at now conversation_id current_user.id)
    given ← lift (read_cursor lib (decode_cursor lib) cursor)
    msgs ← list_with_deleted conversation_id limit (both_given given)
    next ← next_cursor sent_at message_id (encode_cursor lib) limit msgs
    pure ((msgs, next), read_published conversation_id current_user.id ∷ [])

-- `MessageResponse.content`
abbrev pub content : Message → Option (List ℕ)
content m = if Models.Chat.is_deleted m then none else some m.body
