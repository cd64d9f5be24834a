-- ===== src/Chat/Opening.antt =====
-- get_or_create_conversation: one conversation of a buyer on a listing, and the race that it leaves open.
use kupio_backend.Base.{
  ℕ, ◌≡◌, refl, ap, sym, subst, ◌∙◌, inl, inr, Bool, Bool-cases, Option, some, if◌then◌else◌, true,
  false, ◌&&◌, none, List, [], ◌∷◌, ◌++◌, map, ◌==◌, arith,
}
use kupio_backend.Base.Lists.{
  All, All-mono, All-of-some_row, select, take, select_none, some_row, head?, update_where,
  head?-select-update_where,
}
use kupio_backend.Base.Joins.{select_last}
use kupio_backend.Models.{Database}
use kupio_backend.Models.Users.{User}
use kupio_backend.Models.Listings.{Listing}
use kupio_backend.Models.Chat.{Conversation, Message}
use kupio_backend.Core.Errors.{integrity_error}
use kupio_backend.Core.Action.{Result, DbSession, ok, err, opened, in_uow}
use kupio_backend.Core.Repository
use kupio_backend.Chat.Existing.{sends, finds, overtaken}
use kupio_backend.Chat.{
  Event, get_or_create_conversation, open_conversation, send_message, get_participant_conversation,
  store_message, is_outsider,
}
use kupio_backend.Chat.Rows.{
  conversations, new_conversation, get_by_listing_and_buyer, create_conversation,
  get_with_unread_count, unread_count, messages, new_message, Row, get_conversation_by_id,
  create_message, update_message_preview,
}

update_where_same :
    (p : Conversation → Bool) (cs : List Conversation) → update_where p (λ c. c) cs ≡ cs
unfolding update_where
update_where_same p [] = refl
update_where_same p (c ∷ cs) = ground (arith, update_where_same p cs)

-- A change of a conversation that keeps its columns of the two unique constraints
abbrev Keeps : (Conversation → Conversation) → Type 0
Keeps g =
    (c : Conversation)
    → ((g c).id ≡ c.id) × ((g c).listing_id ≡ c.listing_id) × ((g c).buyer_id ≡ c.buyer_id)

module _ (is_online : ℕ → ℕ → Bool) (id message_id now : ℕ) (current_user : User)
    (listing : Listing) (db : Database) where
  abbrev pub conversation : Conversation
  conversation = new_conversation id now listing.id current_user.id listing.user_id

  abbrev pub started : Database
  started = record db { conversations = db.conversations ++ conversation ∷ [] }

  abbrev by_pair : Conversation → Bool
  by_pair c = c.listing_id == listing.id && c.buyer_id == current_user.id

  abbrev by_id : Conversation → Bool
  by_id c = c.id == id

  module _ (free : some_row (conversations.conflicts conversation) db.conversations ≡ false) where
    apart : All (λ c. conversations.conflicts conversation c ≡ false) db.conversations
    apart = All-of-some_row (conversations.conflicts conversation) db.conversations free

    no_pair : select by_pair db.conversations ≡ []
    no_pair = select_none by_pair db.conversations (
        All-mono db.conversations
          (λ c (fine : conversations.conflicts conversation c ≡ false). ground arith) apart)

    pair : select by_pair started.conversations ≡ conversation ∷ []
    pair =
        select_last by_pair db.conversations conversation
          (All-mono db.conversations
            (λ c (fine : conversations.conflicts conversation c ≡ false). ground arith) apart)
          (ground arith)

    same : select by_id started.conversations ≡ conversation ∷ []
    same =
        select_last by_id db.conversations conversation
          (All-mono db.conversations
            (λ c (fine : conversations.conflicts conversation c ≡ false). ground arith) apart)
          (ground arith)

    abbrev first_message : List ℕ → Message
    first_message body = new_message message_id now id current_user.id body

    abbrev with_preview : List ℕ → Conversation → Conversation
    with_preview body c = record c { last_message_preview = some (take 255 (take 100 body)) }

    abbrev stored : List ℕ → Database
    stored body = record started {
      messages = db.messages ++ first_message body ∷ [];
      conversations = update_where by_id (with_preview body) started.conversations;
    }

    store_message-fresh :
        (body : List ℕ)
        → some_row (messages.conflicts (first_message body)) db.messages ≡ false
        → store_message message_id now current_user id body (opened started)
          ≡ (ok (first_message body), record { committed = started; working = stored body })
    unfolding store_message create_message Repository.add update_message_preview Repository.update
    store_message-fresh body fresh =
        let single : Repository.scalar_one_or_none conversations
              (map (with_preview body) (select by_id started.conversations))
            ≡ ok (some (with_preview body conversation)) =
          rw same refl in
        rw (fresh, single) refl

    store_message-clash :
        (body : List ℕ)
        → some_row (messages.conflicts (first_message body)) db.messages ≡ true
        → store_message message_id now current_user id body (opened started)
          ≡ (err integrity_error, opened started)
    unfolding store_message create_message Repository.add
    store_message-clash body clash = rw clash refl

    inside : is_outsider current_user conversation ≡ false
    inside = ground arith

    -- Sending the first message keeps all conversations but for a preview.
    sends-Keeps :
        (start_with : Option (List ℕ))
        → (g : Conversation → Conversation) × Keeps g
          × ((sends is_online message_id now current_user
                (conversation, 0)
                start_with
                (opened started)).1.committed.conversations
              ≡ update_where by_id g started.conversations)
    unfolding send_message get_participant_conversation get_conversation_by_id Repository.get in_uow
    sends-Keeps none =
        (λ c. c, λ c. (refl, refl, refl), rw (update_where_same by_id started.conversations) refl)
    sends-Keeps (some body) =
        elim (Bool-cases (some_row (messages.conflicts (first_message body)) db.messages)) [
          | inl clash ↦
              let refused = store_message-clash body clash in
              (
                λ c. c,
                λ c. (refl, refl, refl),
                rw (same, inside, refused, update_where_same by_id started.conversations) refl,
              )
          | inr fresh ↦
              let done = store_message-fresh body fresh in
              (with_preview body, λ c. (refl, refl, refl), rw (same, inside, done) refl)
        ]

    opens :
        (listing.user_id == current_user.id) ≡ false
        → (start_with : Option (List ℕ))
        → get_or_create_conversation is_online id message_id now current_user listing start_with
            (opened db)
          ≡ sends is_online message_id now current_user
              (conversation, 0)
              start_with
              (opened started)
    unfolding get_or_create_conversation get_by_listing_and_buyer Repository.get create_conversation
        Repository.add in_uow get_with_unread_count
    opens other start_with = rw (other, no_pair, free) refl

    module _ (g : Conversation → Conversation) (keeps : Keeps g) where
      hit : (if by_id conversation then g conversation else conversation) ≡ g conversation
      hit = let own : (id == id) ≡ true = ground arith in rw own refl

      pair-updated :
          head? (select by_pair (update_where by_id g started.conversations))
          ≡ some (g conversation)
      pair-updated =
          head?-select-update_where by_pair by_id g started.conversations
            (λ c. let (a, b, d) = keeps c in rw (b, d) refl)
          ∙ rw pair (ap (λ c. some c) hit)

      same-updated :
          head?
            (select (λ c. c.id == (g conversation).id) (update_where by_id g started.conversations))
          ≡ some (g conversation)
      same-updated =
          let (own, _, _) = keeps conversation in
          let updated = update_where by_id g started.conversations in
          let by_key : head? (select by_id updated) ≡ some (g conversation) =
            head?-select-update_where by_id by_id g started.conversations
              (λ c. let (a, b, d) = keeps c in rw a refl)
            ∙ rw same (ap (λ c. some c) hit) in
          subst
            (λ k. head? (select (λ (c : Conversation). c.id == k) updated) ≡ some (g conversation))
            (sym own) by_key

  -- Where the listing is another user's and neither the id nor the pair of listing and buyer is taken, a
  -- request for the conversation creates it, and sends its first message to it, where it has one.
  -- However that ends, the conversation is there: a later request, with or without a first message,
  -- with whatever ids and clock, finds it, creates none, and sends its own first message to it. One
  -- that had looked before, and creates after, ends in an IntegrityError, which nothing handles, and
  -- changes nothing.
  pub get_or_create_conversation-again :
      (listing.user_id == current_user.id) ≡ false
      → some_row (conversations.conflicts conversation) db.conversations ≡ false
      → (start_with : Option (List ℕ))
      → let q =
          get_or_create_conversation is_online id message_id now current_user listing start_with
            (opened db) in
        (q
          ≡ sends is_online message_id now current_user
              (conversation, 0)
              start_with
              (opened started))
        × ((c : Conversation) × (c.id ≡ id)
            × ((id' message_id' now' : ℕ) (start_with' : Option (List ℕ))
                → let db' = q.1.committed in
                  (get_or_create_conversation is_online id' message_id' now' current_user listing
                      start_with'
                      (opened db')
                    ≡ sends is_online message_id' now' current_user
                        (c, unread_count current_user.id db'.messages c)
                        start_with'
                        (opened db'))
                  × (open_conversation is_online id' now' current_user listing none (opened db')
                      ≡ (err integrity_error, opened db'))))
  get_or_create_conversation-again other free start_with =
      let first = opens free other start_with in
      let (g, keeps, after) = sends-Keeps free start_with in
      let q =
        get_or_create_conversation is_online id message_id now current_user listing start_with
          (opened db) in
      let kept : q.1.committed.conversations ≡ update_where by_id g started.conversations =
        ap (λ (r : Result (Row × List Event) × DbSession). r.1.committed.conversations) first
        ∙ after in
      let found : head? (select by_pair q.1.committed.conversations) ≡ some (g conversation) =
        ap (λ cs. head? (select by_pair cs)) kept ∙ pair-updated free g keeps in
      let there : head? (select (λ c. c.id == (g conversation).id) q.1.committed.conversations)
          ≡ some (g conversation) =
        ap (λ cs. head? (select (λ (c : Conversation). c.id == (g conversation).id) cs)) kept
        ∙ same-updated free g keeps in
      (
        first,
        (
          g conversation,
          (keeps conversation).0,
          λ id' message_id' now' start_with'. (
            finds is_online id' message_id' now' current_user listing q.1.committed (g conversation)
                found other there start_with',
            overtaken is_online id' message_id' now' current_user listing q.1.committed
                (g conversation) found,
          ),
        ),
      )
