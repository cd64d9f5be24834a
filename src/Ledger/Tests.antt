-- ===== src/Ledger/Tests.antt =====
-- A shop with one buyer, one packet and one open checkout, and the theorems on it.
use kupio_backend.Base.{ℕ, ◌≡◌, refl, none, some, true, false, [], ◌∷◌, arith, ◌==◌, if◌then◌else◌}
use mathlib.Core.Option
use kupio_backend.Base.Int.{pos, ◌+ℤ◌}
use kupio_backend.Base.Lists.{length, select, update_where, some_row}
use kupio_backend.Models.{Database, empty}
use kupio_backend.Models.Users.{User, user}
use kupio_backend.Models.Listings.{Listing, active, usd}
use kupio_backend.Models.Payments.{BalanceTransaction, PaymentSession, top_up, pending, completed}
use kupio_backend.Models.Promotions.{PromotionPacket, ListingPromotion, vip}
use kupio_backend.Models.Promotions
use kupio_backend.Core.Errors.{insufficient_balance}
use kupio_backend.Core.Repository
use kupio_backend.Core.Action.{ok, err, opened, in_uow}
use kupio_backend.Payments.{
  Event, Constructed, constructed, signature_refused, checkout_session_completed, complete,
  complete_found, handle_completed, handle_webhook, get_by_stripe_id,
}
use kupio_backend.Promotions.{purchase, get_packet, validate_purchase, pay_and_promote}
use kupio_backend.Ledger.Books.{IsLedger, credited}
use kupio_backend.Ledger.Purchase.{purchase-IsLedger}
use kupio_backend.Ledger.Webhook.{handle_webhook-IsLedger}
use kupio_backend.Ledger.Delivery.{
  balance_of, checkout_of, handle_completed-credits, handle_completed-redelivered,
  overlapping_deliveries_credit_twice,
}
use kupio_backend.Ledger.Interleaving.{here, next, pays, completes, interleaved-IsLedger}
use kupio_backend.Ledger.Charges.{IsPurchased, purchase-ok}

abbrev buyer : User
buyer = record {
  id = 1;
  username = some 11;
  email = 12;
  display_name = none;
  phone = none;
  password_hash = some 13;
  role = user;
  balance = pos 500;
  avatar_image_id = none;
  deleted_at = none;
}

abbrev flat : Listing
flat = record {
  id = 3;
  user_id = 1;
  category_id = 4;
  price = 90;
  is_free = false;
  is_tradable = false;
  title = 60;
  description = 61;
  currency = usd;
  custom_filters = none;
  phone = none;
  contact_name = none;
  is_calls_disabled = false;
  status = active;
  created_at = 5;
  deleted_at = none;
}

abbrev packet : PromotionPacket
packet = record {
  id = 7;
  name = 70;
  description = none;
  type = vip;
  duration_days = 30;
  price = pos 300;
  is_active = true;
}

abbrev first_top_up : BalanceTransaction
first_top_up = record { id = 20; user_id = 1; amount = pos 500; type = top_up; created_at = 2 }

abbrev open_checkout : PaymentSession
open_checkout = record {
  id = 30;
  user_id = 1;
  stripe_session_id = 31;
  stripe_payment_intent_id = none;
  amount = pos 200;
  status = pending;
}

abbrev shop : Database
shop = record empty {
  users = buyer ∷ [];
  listings = flat ∷ [];
  promotion_packets = packet ∷ [];
  balance_transactions = first_top_up ∷ [];
  payments_sessions = open_checkout ∷ [];
}

shop-IsLedger : IsLedger shop
unfolding credited ◌+ℤ◌ some_row
shop-IsLedger = record {
  unique = (tt, tt);
  books = (refl, tt);
  nonneg = (omega arith, tt);
  owned = (refl, tt);
  payers = (refl, tt);
  topups = (omega arith, tt);
}

abbrev bought : ListingPromotion
bought = record {
  id = 60;
  listing_id = 3;
  packet_id = 7;
  transaction_id = 50;
  starts_at = 1000;
  expires_at = 2593000;
  status = Promotions.active;
  created_at = 1000;
}

purchase_runs : (purchase 50 60 1000 buyer flat 7 (opened shop)).0 ≡ ok bought
unfolding purchase get_packet validate_purchase in_uow pay_and_promote Repository.add select
    some_row update_where
purchase_runs = refl

-- With 250 in cents the packet is too dear.
abbrev poor_shop : Database
poor_shop = record shop { users = record buyer { balance = pos 250 } ∷ [] }

poor_purchase_raises :
    (purchase 50 60 1000 buyer flat 7 (opened poor_shop)).0 ≡ err insufficient_balance
unfolding purchase get_packet validate_purchase in_uow pay_and_promote Repository.add select
    some_row update_where
poor_purchase_raises = refl

purchase-IsLedger_example : IsLedger (purchase 50 60 1000 buyer flat 7 (opened shop)).1.committed
purchase-IsLedger_example = purchase-IsLedger 50 60 1000 buyer flat 7 shop shop-IsLedger

purchase-ok_example :
    (packet : PromotionPacket) × ((get_packet 7 (opened shop)).0 ≡ ok packet)
    × IsPurchased 1000 buyer flat packet shop
        (purchase 50 60 1000 buyer flat 7 (opened shop)).1.committed
        bought
purchase-ok_example = purchase-ok 50 60 1000 buyer flat 7 shop bought shop-IsLedger purchase_runs

abbrev notice : Event
notice = record {
  type = checkout_session_completed;
  session_object_id = 31;
  payment_intent = some 99;
}

-- Stripe's library accepts the signature 5 alone.
abbrev stripe : ℕ → ℕ → Constructed
stripe payload sig = if sig == 5 then constructed notice else signature_refused

handle_webhook-IsLedger_example :
    IsLedger (handle_webhook stripe 51 1001 8 (some 5) (opened shop)).1.committed
handle_webhook-IsLedger_example =
    handle_webhook-IsLedger stripe 51 1001 8 (some 5) shop shop-IsLedger

notice_handled : (handle_completed 51 1001 notice (opened shop)).0 ≡ ok tt
unfolding handle_completed get_by_stripe_id Repository.get select complete_found in_uow complete
    Repository.add some_row
notice_handled = refl

handle_completed-credits_example :
    let db' = (handle_completed 51 1001 notice (opened shop)).1.committed in
    (Option.map (λ q. q.status) (checkout_of 31 db') ≡ some completed)
    × (balance_of 1 db' ≡ some (pos 700))
    × (length db'.balance_transactions ≡ 2)
unfolding ◌+ℤ◌ select
handle_completed-credits_example =
    handle_completed-credits 51 1001 1 notice open_checkout shop (unfold select in refl) refl
      notice_handled

handle_completed-redelivered_example :
    let db' = (handle_completed 51 1001 notice (opened shop)).1.committed in
    handle_completed 52 1002 notice (opened db') ≡ (ok tt, opened db')
handle_completed-redelivered_example =
    handle_completed-redelivered 51 52 1001 1002 notice notice shop refl notice_handled

first_handled : (complete_found 51 1001 (some 99) (some open_checkout) (opened shop)).0 ≡ ok tt
unfolding complete_found in_uow complete Repository.add some_row
first_handled = refl

second_handled :
    (complete_found 52 1001
      (some 99)
      (some open_checkout)
      (opened (complete_found 51 1001 (some 99) (some open_checkout) (opened shop)).1.committed)).0
    ≡ ok tt
unfolding complete_found in_uow complete Repository.add some_row
second_handled = refl

overlapping_deliveries_credit_twice_example :
    balance_of 1
      (complete_found 52 1001 (some 99) (some open_checkout) (
        opened
          (complete_found 51 1001
            (some 99)
            (some open_checkout)
            (opened shop)).1.committed)).1.committed
    ≡ some (pos 900)
unfolding ◌+ℤ◌ select
overlapping_deliveries_credit_twice_example =
    overlapping_deliveries_credit_twice 51 52 1001 1001 notice notice open_checkout shop refl refl
      first_handled second_handled

interleaved-IsLedger_example :
    IsLedger
      (in_uow (complete 51 1001 open_checkout none) (
        opened
          (in_uow
            (pay_and_promote 50 60 1000 buyer flat packet)
            (opened shop)).1.committed)).1.committed
unfolding in_uow pay_and_promote Repository.add select some_row update_where
interleaved-IsLedger_example = interleaved-IsLedger shop-IsLedger (
    next (next here (pays 50 60 1000 buyer flat packet))
      (completes 51 1001 open_checkout none (refl, omega arith)))
