-- ===== src/Payments.antt =====
-- src/domains/payments/repository.py and service.py. Stripe is outside: its client answers a checkout
-- request with a session id, and `construct_event` checks a signature and reads an event.
use kupio_backend.Base.{ℕ, ⊤, false, ◌||◌, not, Option, none, some, ◌==◌, if◌then◌else◌}
use kupio_backend.Base.Int.{ℤ}
use kupio_backend.Models.Payments.{
  BalanceTransaction, PaymentSession, PaymentSessionStatus, TransactionType, completed, expired,
  top_up, is_pending,
}
use kupio_backend.Core.Errors.{webhook_signature, value_error}
use kupio_backend.Core.Action.{Action, ◌>>=◌, ◌>>◌, pure, raise, in_uow}
use kupio_backend.Core.Repository
use kupio_backend.Core.Repository.{Model}
use kupio_backend.Users

abbrev pub balance_transactions : Model BalanceTransaction
balance_transactions = record {
  rows = λ db. db.balance_transactions;
  with_rows = λ ts db. record db { balance_transactions = ts };
  is_deleted = λ _. false;
  delete_at = λ _ t. t;
  conflicts = λ a b. a.id == b.id;
}

-- The primary key and `stripe_session_id` are unique.
abbrev pub payments_sessions : Model PaymentSession
payments_sessions = record {
  rows = λ db. db.payments_sessions;
  with_rows = λ ps db. record db { payments_sessions = ps };
  is_deleted = λ _. false;
  delete_at = λ _ p. p;
  conflicts = λ a b. a.id == b.id || a.stripe_session_id == b.stripe_session_id;
}

-- `BalanceTransactionRepository.create`; `id` is the `uuid4()` of the row.
unfoldable pub create_transaction : ℕ → ℕ → ℕ → ℤ → TransactionType → Action BalanceTransaction
create_transaction id now user_id amount type =
    Repository.add balance_transactions
      (record { id = id; user_id = user_id; amount = amount; type = type; created_at = now })

-- `PaymentSessionRepository.create`, with the default status
abbrev pub new_session : ℕ → ℕ → ℤ → ℕ → PaymentSession
new_session session_id user_id amount stripe_session_id = record {
  id = session_id;
  user_id = user_id;
  stripe_session_id = stripe_session_id;
  stripe_payment_intent_id = none;
  amount = amount;
  status = PaymentSessionStatus.pending;
}

unfoldable pub create_session : ℕ → ℕ → ℤ → ℕ → Action PaymentSession
create_session session_id user_id amount stripe_session_id =
    Repository.add payments_sessions (new_session session_id user_id amount stripe_session_id)

unfoldable pub get_by_stripe_id : ℕ → Action (Option PaymentSession)
get_by_stripe_id stripe_session_id =
    Repository.get payments_sessions (λ p. p.stripe_session_id == stripe_session_id)

abbrev pub or_kept : Option ℕ → Option ℕ → Option ℕ
or_kept none old = old
or_kept (some new) old = some new

-- A payment intent of None leaves the column alone.
unfoldable pub update_status : ℕ → PaymentSessionStatus → Option ℕ → Action ⊤
update_status session_id status payment_intent_id =
    Repository.update_only payments_sessions (λ p. p.id == session_id)
      (λ p. record p {
        stripe_payment_intent_id = or_kept payment_intent_id p.stripe_payment_intent_id;
        status = status;
      })

-- `CheckoutRequest.amount` is validated to be positive before the service is called.
-- `stripe_session_id` is the id that Stripe answers with.
unfoldable pub create_checkout_session : ℕ → ℕ → ℕ → ℤ → Action ℕ
create_checkout_session payment_session_id stripe_session_id user_id amount = do
  in_uow (create_session payment_session_id user_id amount stripe_session_id)
  pure payment_session_id

-- The `type` of a Stripe event
pub data EventType : Type 0 where
  checkout_session_completed checkout_session_expired other : EventType

-- The parts of an event that are read: the type, the id and payment intent of the object.
pub record Event : Type 0 where
  pub type : EventType
  pub session_object_id : ℕ
  pub payment_intent : Option ℕ

-- The body of the transaction for a completed checkout
unfoldable pub complete : ℕ → ℕ → PaymentSession → Option ℕ → Action ⊤
unfolding update_status create_transaction Users.add_balance
complete transaction_id now checkout payment_intent = do
  update_status checkout.id completed payment_intent
  Users.add_balance checkout.user_id checkout.amount
  create_transaction transaction_id now checkout.user_id checkout.amount top_up
  pure tt

-- The branches of `handle_webhook` once the lookup has answered
unfoldable pub complete_found : ℕ → ℕ → Option ℕ → Option PaymentSession → Action ⊤
complete_found transaction_id now payment_intent none = pure tt
complete_found transaction_id now payment_intent (some checkout) =
    if not (is_pending checkout.status)
    then pure tt
    else in_uow (complete transaction_id now checkout payment_intent)

unfoldable pub handle_completed : ℕ → ℕ → Event → Action ⊤
handle_completed transaction_id now event = do
  checkout ← get_by_stripe_id event.session_object_id
  complete_found transaction_id now event.payment_intent checkout

unfoldable pub expire_found : Option PaymentSession → Action ⊤
expire_found none = pure tt
expire_found (some checkout) =
    if not (is_pending checkout.status)
    then pure tt
    else in_uow (update_status checkout.id expired none)

unfoldable pub handle_expired : Event → Action ⊤
handle_expired event = do checkout ← get_by_stripe_id event.session_object_id; expire_found checkout

unfoldable pub dispatch : ℕ → ℕ → Event → EventType → Action ⊤
dispatch transaction_id now event checkout_session_completed =
    handle_completed transaction_id now event
dispatch transaction_id now event checkout_session_expired = handle_expired event
dispatch transaction_id now event other = pure tt

-- How `construct_event payload signature` ends: an event, `SignatureVerificationError`, or the
-- `ValueError` of a payload that is no JSON, which nothing handles.
pub data Constructed : Type 0 where
  constructed : Event → Constructed
  signature_refused payload_refused : Constructed

abbrev pub event_of : Constructed → Action Event
event_of (constructed event) = pure event
event_of signature_refused = raise webhook_signature
event_of payload_refused = raise value_error

module _ (construct_event : ℕ → ℕ → Constructed) where
  unfoldable pub handle_webhook : ℕ → ℕ → ℕ → Option ℕ → Action ⊤
  handle_webhook transaction_id now payload none = raise webhook_signature
  handle_webhook transaction_id now payload (some sig_header) = do
    event ← event_of (construct_event payload sig_header)
    dispatch transaction_id now event event.type
