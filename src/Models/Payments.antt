-- ===== src/Models/Payments.antt =====
-- src/domains/payments/models.py and enums.py
use kupio_backend.Base.{ℕ, Option, Bool, false, true}
use kupio_backend.Base.Int.{ℤ}

pub data TransactionType : Type 0 where
  top_up debit refund : TransactionType

pub data PaymentSessionStatus : Type 0 where
  pending completed expired : PaymentSessionStatus

abbrev pub is_pending : PaymentSessionStatus → Bool
is_pending pending = true
is_pending _ = false

-- `amount` is negative for a deduction, positive for a credit.
pub record BalanceTransaction : Type 0 where
  pub id : ℕ
  pub user_id : ℕ
  pub amount : ℤ
  pub type : TransactionType
  pub created_at : ℕ

pub record PaymentSession : Type 0 where
  pub id : ℕ
  pub user_id : ℕ
  pub stripe_session_id : ℕ
  pub stripe_payment_intent_id : Option ℕ
  pub amount : ℤ
  pub status : PaymentSessionStatus
