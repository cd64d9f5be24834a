-- ===== src/Chat/Sending.antt =====
-- send_message by a participant: what is stored, who is told, what becomes unread.
use Prim.Native.Nat.{zero, suc}
use kupio_backend.Base.{
  ℕ, ◌+◌, ◌≤◌, ◌≡◌, refl, ap, ◌∙◌, Bool, false, ◌&&◌, not, some, List, [], ◌∷◌, ◌++◌, ◌==◌, arith,
  if◌then◌else◌,
}
use kupio_backend.Base.Lists.{
  UniqueBy, length, take, select, some_row, update_where, length-append, select-append,
}
use kupio_backend.Models.{Database}
use kupio_backend.Models.Users.{User}
use kupio_backend.Models.Chat.{Conversation, Message}
use kupio_backend.Core.Action.{ok, opened, in_uow}
use kupio_backend.Core.Repository
use kupio_backend.Core.Repository.Single.{scalar-select}
use kupio_backend.Chat.{
  message_published, push_enqueued, get_participant_conversation, send_message, store_message,
  maybe_enqueue_push, recipient_of,
}
use kupio_backend.Chat.Rows.{
  conversations, messages, is_unread, unread_count, last_read_at, is_after, get_conversation_by_id,
  create_message, new_message, update_message_preview,
}
use kupio_backend.Chat.Reading.{found_of}

take-take : (m n : ℕ) (xs : List ℕ) → n ≤ m → take m (take n xs) ≡ take n xs
take-take zero zero xs h = refl
take-take (suc m) zero xs h = refl
take-take zero (suc n) xs h = absurd (omega (arith, h))
take-take (suc m) (suc n) [] h = refl
take-take (suc m) (suc n) (x ∷ xs) h = ap (λ l. x ∷ l) (take-take m n xs (omega (arith, h)))

-- One more message
unread_count-append :
    (v : ℕ) (ms : List Message) (m : Message) (c : Conversation)
    → unread_count v (ms ++ m ∷ []) c ≡ unread_count v ms c + (if is_unread v c m then 1 else 0)
unfolding unread_count select
unread_count-append v ms m c =
    ap length (select-append (is_unread v c) ms (m ∷ []))
    ∙ length-append (select (is_unread v c) ms) (select (is_unread v c) (m ∷ []))
    ∙ ap (λ k. unread_count v ms c + k) (one (is_unread v c) m)
  where
    one : (p : Message → Bool) (m : Message) → length (select p (m ∷ [])) ≡ (if p m then 1 else 0)
    one p m = ground arith

module _ (is_online : (conversation_id user_id : ℕ) → Bool) (id now conversation_id : ℕ)
    (current_user : User) (body : List ℕ) (db : Database) where
  abbrev pub msg : Message
  msg = new_message id now conversation_id current_user.id body

  abbrev pub previewed : Conversation → Conversation
  previewed c = record c { last_message_preview = some (take 100 body) }

  abbrev pub sent : Database
  sent = record db {
    messages = db.messages ++ msg ∷ [];
    conversations = update_where (λ c. c.id == conversation_id) previewed db.conversations;
  }

  -- A participant's message is stored with the conversation's preview, the first 100 characters of it,
  -- in one transaction, and is published; the other participant is sent a push with the same preview
  -- if not online. For any user and conversation there is one unread message more exactly if it is
  -- that conversation, the user is not the sender and has not read it since; where conversation ids
  -- are unique and the message id is new.
  pub send_message-sent :
      (conv : Conversation)
      → (get_participant_conversation current_user conversation_id (opened db)).0 ≡ ok conv
      → UniqueBy (λ c. c.id) db.conversations
      → some_row (messages.conflicts msg) db.messages ≡ false
      → (send_message is_online id now current_user conversation_id body (opened db) ≡ (
        ok (
          msg,
          message_published msg
              ∷ (if is_online conv.id (recipient_of conv current_user.id)
                  then []
                  else push_enqueued (recipient_of conv current_user.id) conv.id (take 100 body)
                    ∷ []),
        ),
        opened sent,
      ))
        × ((v : ℕ) (c : Conversation)
            → unread_count v sent.messages c
              ≡ unread_count v db.messages c
                + (if conversation_id == c.id
                      && (not (current_user.id == v) && is_after (last_read_at v c) now)
                    then 1
                    else 0))
  unfolding send_message get_participant_conversation get_conversation_by_id Repository.get in_uow
      store_message create_message Repository.add update_message_preview Repository.update
      maybe_enqueue_push
  send_message-sent conv h unique fresh =
      let (found, inside) = found_of now conversation_id current_user db conv h in
      let (o, single) =
        scalar-select (λ c. c.id) (λ c. c.id == conversation_id) conversation_id
          (λ c here. ground arith) conversations
          (λ c. record c { last_message_preview = some (take 255 (take 100 body)) })
          db.conversations unique in
      (
        rw (found, inside, fresh, single, take-take 255 100 body (omega arith)) refl,
        λ v c. unread_count-append v db.messages msg c,
      )
