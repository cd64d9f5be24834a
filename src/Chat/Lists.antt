-- ===== src/Chat/Lists.antt =====
-- list_conversations, page after page.
use kupio_backend.Base.{ℕ, suc, ◌≡◌, ◌≢◌, ◌<◌, refl, none, List, [], ◌∷◌, map}
use kupio_backend.Base.Lists.{All, UniqueBy, length}
use kupio_backend.Base.Sorted.{UniqueBy-select}
use kupio_backend.Models.Users.{User}
use kupio_backend.Models.Chat.{Conversation, ConversationRole}
use kupio_backend.Core.Action.{ok, DbSession}
use kupio_backend.Pagination.Cursors.{Codec, IsCodec, read_cursor, encode_cursor, decode_cursor}
use kupio_backend.Pagination.Keyset.{newest_first}
use kupio_backend.Pagination.Pages.{follow, lift_then, read_page, follow-newest_first}
use kupio_backend.Pagination.RoundTrips.{decode_cursor-encode_cursor}
use kupio_backend.Chat.{list_conversations}
use kupio_backend.Chat.Rows.{Row, started_at, row_id, conversations_as, list_as, is_as, with_unread}

module _ (f : Conversation → Row) (keeps : (c : Conversation) → (f c).0.id ≡ c.id) where
  All-map :
      (k : ℕ) (cs : List Conversation) → All (λ c. c.id ≢ k) cs → All (λ r. row_id r ≢ k) (map f cs)
  All-map k [] h = tt
  All-map k (c ∷ cs) h = (rw (keeps c) h.0, All-map k cs h.1)

  UniqueBy-map : (cs : List Conversation) → UniqueBy (λ c. c.id) cs → UniqueBy row_id (map f cs)
  UniqueBy-map [] h = tt
  UniqueBy-map (c ∷ cs) h = (rw (keeps c) (All-map c.id cs h.0), UniqueBy-map cs h.1)

module _ {Text J : Type 0} (lib : Codec Text J) (sound : IsCodec lib) (current_user : User)
    (role : ConversationRole) (limit n fuel : ℕ) (full : limit ≡ suc n) (s : DbSession) where
  -- A user who lists conversations as the buyer or as the seller, and hands back each next cursor, gets
  -- every conversation with that role, once, the newest first, each with its unread count, and the
  -- list ends, whatever the page size above zero, where conversation ids are unique.
  pub follow-list_conversations :
      UniqueBy (λ c. c.id) s.working.conversations
      → length (conversations_as role current_user.id s.working) < fuel
      → follow (list_conversations lib current_user role limit) fuel none s
        ≡ (ok (newest_first started_at row_id (conversations_as role current_user.id s.working)), s)
  unfolding list_conversations list_as read_page encode_cursor
  follow-list_conversations unique low =
      follow-newest_first started_at row_id lib (decode_cursor lib) (encode_cursor lib) limit
        (conversations_as role current_user.id s.working) s
        (list_conversations lib current_user role limit)
        (λ cursor. lift_then (read_cursor lib (decode_cursor lib) cursor) _ _ s (λ given. refl))
        (λ t i. sound.truthy-dumps _) (decode_cursor-encode_cursor lib sound) n fuel full
        (UniqueBy-map (with_unread current_user.id s.working.messages) (λ c. refl) _
          (UniqueBy-select _ (is_as role current_user.id) s.working.conversations unique))
        low
