-- ===== src/Chat/Reading.antt =====
-- list_messages marks the conversation as read.
use mathlib.Core.Option
use kupio_backend.Base.{
  ℕ, ◌≤◌, ◌≡◌, refl, sym, ap, ◌∙◌, Bool, true, false, ◌&&◌, Option, some, List, [], ◌∷◌, map, ◌==◌,
  arith, if◌then◌else◌, inl, inr, Bool-cases, Option-cases,
}
use kupio_backend.Base.Lists.{
  All, All-mono, length, head?, select, select_none, update_where, head?-select-update_where,
  head?-select-holds,
}
use kupio_backend.Models.{Database}
use kupio_backend.Models.Users.{User}
use kupio_backend.Models.Chat.{Conversation, Message}
use kupio_backend.Core.Action.{ok, opened, in_uow, lift}
use kupio_backend.Core.Repository
use kupio_backend.Pagination.Cursors.{Codec, read_cursor, decode_cursor, encode_cursor}
use kupio_backend.Pagination.Pages.{next_cursor, next_cursor-reads, then_reads}
use kupio_backend.Chat.{get_conversation, get_participant_conversation, list_messages, is_outsider}
use kupio_backend.Chat.Rows.{
  is_unread, unread_count, last_read_at, with_unread, update_last_read_at, get_conversation_by_id,
  get_with_unread_count, list_with_deleted,
}

pub head?-map :
    (f : Conversation → Conversation × ℕ) (cs : List Conversation) (c : Conversation)
    → head? cs ≡ some c
    → head? (map f cs) ≡ some (f c)
head?-map f [] c h = cc
head?-map f (x ∷ cs) c h = ground arith

module _ (now conversation_id : ℕ) (current_user : User) (db : Database) where
  abbrev mark_buyer : Conversation → Conversation
  mark_buyer c = record c { buyer_last_read_at = some now }

  abbrev mark_seller : Conversation → Conversation
  mark_seller c = record c { seller_last_read_at = some now }

  abbrev as_buyer : Conversation → Bool
  as_buyer c = c.id == conversation_id && c.buyer_id == current_user.id

  abbrev as_seller : Conversation → Bool
  as_seller c = c.id == conversation_id && c.seller_id == current_user.id

  abbrev marked : List Conversation
  marked = update_where as_seller mark_seller (update_where as_buyer mark_buyer db.conversations)

  abbrev pub marked_read : Database
  marked_read = record db { conversations = marked }

  abbrev mark : Conversation → Conversation
  mark c =
      let c' = if as_buyer c then mark_buyer c else c in if as_seller c' then mark_seller c' else c'

  marked-head :
      (conv : Conversation)
      → head? (select (λ c. c.id == conversation_id) db.conversations) ≡ some conv
      → head? (select (λ c. c.id == conversation_id) marked) ≡ some (mark conv)
  marked-head conv h =
      head?-select-update_where (λ c. c.id == conversation_id) as_seller mark_seller
        (update_where as_buyer mark_buyer db.conversations) (λ c. refl)
      ∙ ap (Option.map (λ c. if as_seller c then mark_seller c else c)) (
          head?-select-update_where (λ c. c.id == conversation_id) as_buyer mark_buyer
            db.conversations (λ c. refl)
          ∙ ap (Option.map (λ c. if as_buyer c then mark_buyer c else c)) h)

  last_read_at-mark :
      (conv : Conversation)
      → (conv.id == conversation_id) ≡ true
      → is_outsider current_user conv ≡ false
      → last_read_at current_user.id (mark conv) ≡ some now
  last_read_at-mark conv same inside = elim (Bool-cases (conv.buyer_id == current_user.id)) [
    | inl buys ↦ elim (Bool-cases (conv.seller_id == current_user.id)) [
      | inl sells ↦ ground arith
      | inr not_seller ↦ ground arith
    ]
    | inr not_buyer ↦
        let sells : (conv.seller_id == current_user.id) ≡ true = ground arith in ground arith
  ]

  inside_still :
      (conv : Conversation)
      → is_outsider current_user conv ≡ false
      → is_outsider current_user (mark conv) ≡ false
  inside_still conv inside = ground arith

  nothing_unread :
      (c : Conversation)
      → last_read_at current_user.id c ≡ some now
      → (ms : List Message) → All (λ m. m.created_at ≤ now) ms
      → unread_count current_user.id ms c ≡ 0
  unfolding unread_count
  nothing_unread c read ms h = ap length (
      select_none (is_unread current_user.id c) ms
        (All-mono ms (λ m (before : m.created_at ≤ now). rw read (ground arith)) h))

  pub found_of :
      (conv : Conversation)
      → (get_participant_conversation current_user conversation_id (opened db)).0 ≡ ok conv
      → (head? (select (λ c. c.id == conversation_id) db.conversations) ≡ some conv)
        × (is_outsider current_user conv ≡ false)
  unfolding get_participant_conversation get_conversation_by_id Repository.get
  found_of conv h =
      elim (Option-cases (head? (select (λ c. c.id == conversation_id) db.conversations))) [
        | inl missing ↦ absurd (let h' = rw missing at h in cc)
        | inr (c, found) ↦ elim (Bool-cases (is_outsider current_user c)) [
          | inl outside ↦ absurd (let h' = rw outside at (rw found at h) in cc)
          | inr inside ↦
              let h' = rw inside at (rw found at h) in
              let same : c ≡ conv = cc in
              (found ∙ ap some same, sym (ap (is_outsider current_user) same) ∙ inside)
        ]
      ]

  module _ {Text J : Type 0} (lib : Codec Text J) (limit : ℕ) (cursor : Option Text) where
    list_messages-state :
        (conv : Conversation)
        → (get_participant_conversation current_user conversation_id (opened db)).0 ≡ ok conv
        → (list_messages lib now current_user conversation_id limit cursor (opened db)).1
          ≡ opened marked_read
    unfolding list_messages get_participant_conversation get_conversation_by_id Repository.get
        in_uow update_last_read_at Repository.update_only list_with_deleted
    list_messages-state conv h =
        let (found, inside) = found_of conv h in
        rw (found, inside)
          (then_reads _
            (λ given s.
              then_reads _ (λ next s'. refl) (next_cursor _ _ (encode_cursor lib) limit _) s
                (next_cursor-reads _ _ (encode_cursor lib) limit _ s))
            (lift (read_cursor lib (decode_cursor lib) cursor)) (opened marked_read) refl)

    -- A participant who lists messages, whatever page is asked for and however the request ends, has no
    -- unread message in the conversation afterwards, where no message was sent later than that.
    pub list_messages-get_conversation :
        (conv : Conversation)
        → (get_participant_conversation current_user conversation_id (opened db)).0 ≡ ok conv
        → All (λ m. m.created_at ≤ now) db.messages
        → let s = (list_messages lib now current_user conversation_id limit cursor (opened db)).1 in
          (c : Conversation) × (get_conversation current_user conversation_id s ≡ (ok (c, 0), s))
    unfolding get_conversation get_with_unread_count
    list_messages-get_conversation conv h before =
        let (found, inside) = found_of conv h in
        let same = head?-select-holds (λ c. c.id == conversation_id) db.conversations conv found in
        let none_left =
          nothing_unread (mark conv) (last_read_at-mark conv same inside) db.messages before in
        let row =
          head?-map (with_unread current_user.id db.messages) _ (mark conv)
            (marked-head conv found) in
        (
          mark conv,
          rw (list_messages-state conv h) (rw (row, inside_still conv inside, none_left) refl),
        )
