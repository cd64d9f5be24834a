-- ===== src/Ledger/Interleaving.antt =====
-- Requests that overlap: each transaction runs on what the others have committed, with rows that
-- may have been read long before.
use kupio_backend.Base.{ℕ, ap, ◌≡◌, Option, [], ◌∷◌, arith}
use kupio_backend.Base.Int.{ℤ, pos, ◌≤ℤ◌}
use kupio_backend.Base.Lists.{All-append}
use kupio_backend.Models.{Database}
use kupio_backend.Models.Users.{User}
use kupio_backend.Models.Listings.{Listing}
use kupio_backend.Models.Promotions.{PromotionPacket}
use kupio_backend.Models.Payments.{PaymentSession, PaymentSessionStatus}
use kupio_backend.Core.Repository
use kupio_backend.Core.Repository.Insert.{add-ok}
use kupio_backend.Core.Action.{Result, DbSession, ok, opened, in_uow}
use kupio_backend.Core.Transactions.{in_uow-holds}
use kupio_backend.Payments.{complete, update_status, create_session, new_session, payments_sessions}
use kupio_backend.Promotions.{pay_and_promote}
use kupio_backend.Ledger.Books.{IsLedger, Exists}
use kupio_backend.Ledger.Webhook.{IsPayable, complete-IsLedger, update_status-IsLedger}
use kupio_backend.Ledger.Purchase.{payment-IsLedger}

-- A checkout that is started for an existing user and a positive amount keeps the books.
create_session-IsLedger :
    (id stripe_id user_id : ℕ) (amount : ℤ) (db : Database)
    → Exists db.users user_id
    → pos 0 ≤ℤ amount
    → IsLedger db
    → IsLedger (in_uow (create_session id user_id amount stripe_id) (opened db)).1.committed
unfolding create_session
create_session-IsLedger id stripe_id user_id amount db known fits l =
    in_uow-holds IsLedger (create_session id user_id amount stripe_id) db
      (unfold Repository.add in ground arith) l λ p e. session_added p e
  where
    session_added :
        (p : PaymentSession)
        → (create_session id user_id amount stripe_id (opened db)).0 ≡ ok p
        → IsLedger (create_session id user_id amount stripe_id (opened db)).1.working
    session_added p e =
        let done =
          ap (λ (r : Result PaymentSession × DbSession). r.1.working)
            (add-ok payments_sessions (new_session id user_id amount stripe_id) (opened db) p
              e).0 in
        rw done (record {
          unique = l.unique;
          books = l.books;
          nonneg = l.nonneg;
          owned = l.owned;
          payers =
              All-append (λ q. Exists db.users q.user_id) db.payments_sessions
                (new_session id user_id amount stripe_id ∷ []) l.payers (known, tt);
          topups =
              All-append (λ q. pos 0 ≤ℤ q.amount) db.payments_sessions
                (new_session id user_id amount stripe_id ∷ []) l.topups (fits, tt);
        })

-- One committed transaction that touches money. The rows it is given are arbitrary, but for a
-- checkout that was read from the table.
pub data Step (db : Database) : Database → Type 0 where
  pays :
      (transaction_id id now : ℕ) (user : User) (listing : Listing) (packet : PromotionPacket)
      → Step db
          (in_uow
            (pay_and_promote transaction_id id now user listing packet)
            (opened db)).1.committed
  completes :
      (transaction_id now : ℕ) (checkout : PaymentSession) (payment_intent : Option ℕ)
      → IsPayable db checkout
      → Step db
          (in_uow (complete transaction_id now checkout payment_intent) (opened db)).1.committed
  sets_status :
      (id : ℕ) (status : PaymentSessionStatus) (payment_intent : Option ℕ)
      → Step db (in_uow (update_status id status payment_intent) (opened db)).1.committed
  checks_out :
      (id stripe_id user_id : ℕ) (amount : ℤ)
      → Exists db.users user_id
      → pos 0 ≤ℤ amount
      → Step db (in_uow (create_session id user_id amount stripe_id) (opened db)).1.committed

pub data Reach (start : Database) : Database → Type 0 where
  here : Reach start start
  next : {db db' : Database} → Reach start db → Step db db' → Reach start db'

Step-IsLedger : {db db' : Database} → Step db db' → IsLedger db → IsLedger db'
Step-IsLedger {db} (pays t id now user listing packet) l =
    payment-IsLedger t id now user listing packet db l
Step-IsLedger {db} (completes t now checkout intent c) l =
    complete-IsLedger t now checkout intent db c l
Step-IsLedger {db} (sets_status id status intent) l = update_status-IsLedger id status intent db l
Step-IsLedger {db} (checks_out id stripe_id user_id amount known fits) l =
    create_session-IsLedger id stripe_id user_id amount db known fits l

-- However the transactions of concurrent requests follow one another, from books in order the
-- books stay in order: no balance ever goes below zero, and each is the sum of its transactions.
pub interleaved-IsLedger : {db db' : Database} → IsLedger db → Reach db db' → IsLedger db'
interleaved-IsLedger l here = l
interleaved-IsLedger l (next r s) = Step-IsLedger s (interleaved-IsLedger l r)
