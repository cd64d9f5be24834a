-- ===== src/Chat/Participants.antt =====
-- Who takes no part in a conversation reads and writes nothing of it.
use kupio_backend.Base.{
  ℕ, ◌≡◌, refl, Bool, true, Option, some, none, List, [], ◌∷◌, map, ◌==◌, inl, inr, Option-cases,
}
use kupio_backend.Base.Lists.{All, head?, select, head?-select}
use kupio_backend.Models.{Database}
use kupio_backend.Models.Users.{User}
use kupio_backend.Models.Chat.{Conversation}
use kupio_backend.Core.Errors.{Error, conversation_not_found, not_conversation_participant}
use kupio_backend.Core.Action.{err, opened}
use kupio_backend.Core.Repository
use kupio_backend.Pagination.Cursors.{Codec}
use kupio_backend.Chat.{
  get_conversation, get_participant_conversation, send_message, delete_message, list_messages,
  is_outsider,
}
use kupio_backend.Chat.Rows.{get_conversation_by_id, get_with_unread_count, with_unread}
use kupio_backend.Chat.Reading.{head?-map}

map_nil :
    (f : Conversation → Conversation × ℕ) (cs : List Conversation)
    → head? cs ≡ none
    → head? (map f cs) ≡ none
map_nil f [] h = refl
map_nil f (c ∷ cs) h = cc

module _ (current_user : User) (conversation_id : ℕ) (db : Database) where
  abbrev pub conversation : Option Conversation
  conversation = head? (select (λ c. c.id == conversation_id) db.conversations)

  -- The reason why a request on the conversation is refused
  abbrev pub refusal : Option Conversation → Error
  refusal none = conversation_not_found
  refusal (some c) = not_conversation_participant

  refused :
      All
        (λ c. (c.id == conversation_id) ≡ true → is_outsider current_user c ≡ true)
        db.conversations
      → (get_participant_conversation current_user conversation_id (opened db)
          ≡ (err (refusal conversation), opened db))
        × (get_conversation current_user conversation_id (opened db)
            ≡ (err (refusal conversation), opened db))
  unfolding get_participant_conversation get_conversation_by_id Repository.get get_conversation
      get_with_unread_count
  refused outside = elim (Option-cases conversation) [
    | inl missing ↦
        let nothing = map_nil (with_unread current_user.id db.messages) _ missing in
        (rw missing refl, rw (nothing, missing) refl)
    | inr (c, found) ↦
        let row = head?-map (with_unread current_user.id db.messages) _ c found in
        let (not_in, here) =
          head?-select _ (λ c. c.id == conversation_id) db.conversations c outside found in
        let out = not_in here in (rw (found, out) refl, rw (row, found, out) refl)
  ]

  -- A request by a user who is neither the buyer nor the seller of a conversation with this id, to read
  -- it, to list its messages, to send one or to delete one, ends in ConversationNotFoundError if there
  -- is none and in NotConversationParticipantError otherwise, and changes nothing.
  pub outsider-refused :
      {Text J : Type 0} (lib : Codec Text J) (is_online : ℕ → ℕ → Bool)
      (id now message_id limit : ℕ) (body : List ℕ) (cursor : Option Text)
      → All
          (λ c. (c.id == conversation_id) ≡ true → is_outsider current_user c ≡ true)
          db.conversations
      → (get_conversation current_user conversation_id (opened db)
          ≡ (err (refusal conversation), opened db))
        × (list_messages lib now current_user conversation_id limit cursor (opened db)
            ≡ (err (refusal conversation), opened db))
        × (send_message is_online id now current_user conversation_id body (opened db)
            ≡ (err (refusal conversation), opened db))
        × (delete_message now current_user conversation_id message_id (opened db)
            ≡ (err (refusal conversation), opened db))
  unfolding list_messages send_message delete_message
  outsider-refused lib is_online id now message_id limit body cursor outside =
      let (participant, read) = refused outside in
      (read, rw participant refl, rw participant refl, rw participant refl)
