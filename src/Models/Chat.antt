-- ===== src/Models/Chat.antt =====
-- src/domains/chat/models.py and enums.py. A body is a list of characters, since the code cuts it.
use kupio_backend.Base.{ℕ, Option, Bool, List, is_some}

pub data ConversationRole : Type 0 where
  buyer seller : ConversationRole

pub record Conversation : Type 0 where
  pub id : ℕ
  pub listing_id : ℕ
  pub buyer_id : ℕ
  pub seller_id : ℕ
  pub last_message_preview : Option (List ℕ)
  pub buyer_last_read_at : Option ℕ
  pub seller_last_read_at : Option ℕ
  pub created_at : ℕ

pub record Message : Type 0 where
  pub id : ℕ
  pub conversation_id : ℕ
  pub sender_id : ℕ
  pub body : List ℕ
  pub created_at : ℕ
  pub deleted_at : Option ℕ

abbrev pub is_deleted : Message → Bool
is_deleted m = is_some m.deleted_at
