-- ===== src/Chat/Deletion.antt =====
-- delete_message deletes a message of one's own and touches nothing else.
use kupio_backend.Base.{
  ℕ, ◌≡◌, ◌≢◌, refl, ap, ◌∙◌, Bool, true, false, ◌&&◌, not, some, is_none, List, [], ◌∷◌, ◌==◌,
  arith, inl, inr, ◌⊎◌, Bool-cases, Option-cases,
}
use kupio_backend.Base.Lists.{
  All, All-mono, All-trivial, All-update_where, UniqueBy, head?, select, update_where,
  head?-select-holds,
}
use kupio_backend.Base.Pairs.{found-or-other_key}
use kupio_backend.Models.{Database}
use kupio_backend.Models.Users.{User}
use kupio_backend.Models.Chat.{Message}
use kupio_backend.Core.Errors.{Error}
use kupio_backend.Core.Action.{Result, ok, err, DbSession, opened, in_uow}
use kupio_backend.Core.Repository
use kupio_backend.Core.Repository.{fits}
use kupio_backend.Chat.{
  Event, deletion_published, get_participant_conversation, delete_message, is_outsider,
}
use kupio_backend.Chat.Rows.{
  messages, get_conversation_by_id, get_by_id_in_conversation, soft_delete_message,
}

-- An update that a selection does not see
unseen_update :
    (q p : Message → Bool) (f : Message → Message) (ms : List Message)
    → All (λ m. p m ≡ true → (q m ≡ false) × (q (f m) ≡ false)) ms
    → select q (update_where p f ms) ≡ select q ms
unfolding select update_where
unseen_update q p f [] h = refl
unseen_update q p f (m ∷ ms) h = elim (Bool-cases (p m)) [
  | inl hit ↦ let (before, after) = h.0 hit in rw (hit, before, after) (unseen_update q p f ms h.1)
  | inr miss ↦ rw (miss, unseen_update q p f ms h.1) refl
]

module _ (now : ℕ) (current_user : User) (conversation_id message_id : ℕ) (db : Database) where
  abbrev is_target : Message → Bool
  is_target m = m.id == message_id && m.conversation_id == conversation_id

  abbrev deleted : Database
  deleted = record db {
    messages =
        update_where (fits messages (λ m. m.id == message_id))
          (λ m. record m { deleted_at = some now }) db.messages;
  }

  -- Every way in which the request ends
  delete_message-cases :
      (P : Result (List Event) × DbSession → Type 0)
      → ((e : Error) → P (err e, opened db))
      → ((m : Message)
          → head? (select is_target db.messages) ≡ some m
          → (m.sender_id == current_user.id) ≡ true
          → P (ok (deletion_published conversation_id message_id ∷ []), opened deleted))
      → P (delete_message now current_user conversation_id message_id (opened db))
  unfolding delete_message get_participant_conversation get_conversation_by_id Repository.get
      get_by_id_in_conversation soft_delete_message Repository.soft_delete
      Repository.soft_delete_count Repository.update_count in_uow
  delete_message-cases P failed went =
      elim (Option-cases (head? (select (λ c. c.id == conversation_id) db.conversations))) [
        | inl missing ↦ rw missing (failed _)
        | inr (conv, found) ↦ rw found (elim (Bool-cases (is_outsider current_user conv)) [
          | inl outside ↦ rw outside (failed _)
          | inr inside ↦ rw inside (elim (Option-cases (head? (select is_target db.messages))) [
            | inl no_message ↦ rw no_message (failed _)
            | inr (m, here) ↦ rw here (elim (Bool-cases (m.sender_id == current_user.id)) [
              | inl own ↦ rw own (went m here own)
              | inr not_own ↦ rw not_own (failed _)
            ])
          ])
        ])
      ]

  abbrev by_others : Message → Bool
  by_others m = not (m.sender_id == current_user.id)

  only_own :
      (m : Message)
      → UniqueBy (λ m. m.id) db.messages
      → head? (select is_target db.messages) ≡ some m
      → (m.sender_id == current_user.id) ≡ true
      → All
          (λ x.
            fits messages (λ x. x.id == message_id) x ≡ true
            → (by_others x ≡ false) × (by_others (record x { deleted_at = some now }) ≡ false))
          db.messages
  only_own m unique here own =
      let target = head?-select-holds is_target db.messages m here in
      All-mono db.messages
        (λ x (same : (x ≡ m) ⊎ (x.id ≢ m.id)) hit. elim same [
          | inl e ↦
              let by_user : (x.sender_id == current_user.id) ≡ true =
                ap (λ x. x.sender_id == current_user.id) e ∙ own in
              (rw by_user refl, rw by_user refl)
          | inr other ↦ absurd (other (ground arith))
        ])
        (found-or-other_key (λ x. x.id) is_target db.messages m unique here)

  deleted_now :
      All (λ m. (m.id == message_id) ≡ true → is_none m.deleted_at ≡ false) deleted.messages
  deleted_now =
      All-update_where _ _ _ db.messages (λ x _ same. ground arith) (All-trivial db.messages)

  -- However a deletion ends, the messages of all others and all conversations, with their previews, are
  -- as they were, where message ids are unique; and one that returns was of a message of the user's in
  -- the conversation, which is deleted now.
  pub delete_message-others :
      UniqueBy (λ m. m.id) db.messages
      → let q = delete_message now current_user conversation_id message_id (opened db) in
        (select by_others q.1.committed.messages ≡ select by_others db.messages)
        × (q.1.committed.conversations ≡ db.conversations)
        × ((es : List Event)
            → q.0 ≡ ok es
            → (m : Message) × (head? (select is_target db.messages) ≡ some m)
              × ((m.sender_id == current_user.id) ≡ true)
              × All
                  (λ m. (m.id == message_id) ≡ true → is_none m.deleted_at ≡ false)
                  q.1.committed.messages)
  delete_message-others unique =
      delete_message-cases
        (λ q.
          (select by_others q.1.committed.messages ≡ select by_others db.messages)
          × (q.1.committed.conversations ≡ db.conversations)
          × ((es : List Event)
              → q.0 ≡ ok es
              → (m : Message) × (head? (select is_target db.messages) ≡ some m)
                × ((m.sender_id == current_user.id) ≡ true)
                × All (λ m. (m.id == message_id) ≡ true → is_none m.deleted_at ≡ false)
                    q.1.committed.messages))
        (λ e. (refl, refl, λ es h. cc))
        (λ m here own. (
          unseen_update by_others _ _ db.messages (only_own m unique here own),
          refl,
          λ es h. (m, here, own, deleted_now),
        ))
