-- ===== src/Models/Promotions.antt =====
-- src/domains/promotions/models.py and enums.py
use kupio_backend.Base.{ℕ, Option, Bool, false, true, ◌==◌}
use kupio_backend.Base.Int.{ℤ}

pub data PromotionType : Type 0 where
  top highlight urgent vip : PromotionType

abbrev pub type_code : PromotionType → ℕ
type_code top = 0
type_code highlight = 1
type_code urgent = 2
type_code vip = 3

abbrev pub type_eq : PromotionType → PromotionType → Bool
type_eq a b = type_code a == type_code b

pub data PromotionStatus : Type 0 where
  pending active expired cancelled : PromotionStatus

abbrev pub is_active : PromotionStatus → Bool
is_active active = true
is_active _ = false

-- `price` is in cents.
pub record PromotionPacket : Type 0 where
  pub id : ℕ
  pub name : ℕ
  pub description : Option ℕ
  pub type : PromotionType
  pub duration_days : ℕ
  pub price : ℤ
  pub is_active : Bool

pub record ListingPromotion : Type 0 where
  pub id : ℕ
  pub listing_id : ℕ
  pub packet_id : ℕ
  pub transaction_id : ℕ
  pub starts_at : ℕ
  pub expires_at : ℕ
  pub status : PromotionStatus
  pub created_at : ℕ
