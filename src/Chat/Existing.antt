-- ===== src/Chat/Existing.antt =====
-- get_or_create_conversation where the buyer has a conversation on the listing: it is found, and another
-- one is refused.
use kupio_backend.Base.{
  ℕ, ◌≡◌, refl, inl, inr, Bool, Bool-cases, Option, some, true, false, ◌&&◌, none, List, [], ◌∷◌,
  map, ◌==◌, arith,
}
use kupio_backend.Base.Lists.{select, some_row, head?, some_row-select, some_row_mono}
use kupio_backend.Models.{Database}
use kupio_backend.Models.Users.{User}
use kupio_backend.Models.Listings.{Listing}
use kupio_backend.Models.Chat.{Conversation}
use kupio_backend.Core.Errors.{integrity_error}
use kupio_backend.Core.Action.{Action, err, opened, in_uow, ◌>>=◌, pure}
use kupio_backend.Core.Repository
use kupio_backend.Chat.{Event, get_or_create_conversation, open_conversation, start}
use kupio_backend.Chat.Rows.{
  conversations, new_conversation, get_by_listing_and_buyer, create_conversation,
  get_with_unread_count, unread_count, with_unread, Row,
}

-- A conversation to be returned, and the first message, where there is one, sent to it
abbrev pub sends :
    (is_online : ℕ → ℕ → Bool) (message_id now : ℕ)
    → User
    → Row
    → Option (List ℕ)
    → Action (Row × List Event)
sends is_online message_id now current_user row start_with =
    start is_online message_id now current_user row.0 start_with >>= λ events. pure (row, events)

found-some_row :
    (p : Conversation → Bool) (cs : List Conversation) (c : Conversation)
    → head? (select p cs) ≡ some c
    → some_row p cs ≡ true
found-some_row p cs c found = elim (Bool-cases (some_row p cs)) [
  | inl there ↦ there
  | inr missing ↦
      let nothing : head? (select p cs) ≡ none = rw (some_row-select p cs missing) refl in absurd cc
]

head?-map :
    (f : Conversation → Row) (cs : List Conversation) (c : Conversation)
    → head? cs ≡ some c
    → head? (map f cs) ≡ some (f c)
head?-map f [] c e = cc
head?-map f (d ∷ cs) c e = cc

-- Where the buyer has a conversation on the listing already
module _ (is_online : ℕ → ℕ → Bool) (id message_id now : ℕ) (current_user : User)
    (listing : Listing) (db : Database) (c : Conversation)
    (found : head?
        (select (λ d. d.listing_id == listing.id && d.buyer_id == current_user.id) db.conversations)
      ≡ some c) where
  pub finds :
      (listing.user_id == current_user.id) ≡ false
      → head? (select (λ d. d.id == c.id) db.conversations) ≡ some c
      → (start_with : Option (List ℕ))
      → get_or_create_conversation is_online id message_id now current_user listing start_with
          (opened db)
        ≡ sends is_online message_id now current_user
            (c, unread_count current_user.id db.messages c)
            start_with
            (opened db)
  unfolding get_or_create_conversation get_by_listing_and_buyer Repository.get get_with_unread_count
  finds other there start_with =
      let counted =
        head?-map (with_unread current_user.id db.messages)
          (select (λ d. d.id == c.id) db.conversations) c there in
      rw (other, found, counted) refl

  pub overtaken :
      open_conversation is_online id now current_user listing none (opened db)
      ≡ (err integrity_error, opened db)
  unfolding create_conversation Repository.add in_uow
  overtaken =
      let clash =
        some_row_mono _
          (conversations.conflicts
            (new_conversation id now listing.id current_user.id listing.user_id))
          db.conversations (λ d hit. ground arith) (found-some_row _ db.conversations c found) in
      rw clash refl
