-- ===== src/Ledger/Purchase.antt =====
-- A purchase of a promotion keeps the books.
use mathlib.Core.Path.{fun_ext}
use kupio_backend.Base.{
  ℕ, ◌≡◌, refl, ap, inl, inr, Bool, true, ◌&&◌, List, [], ◌∷◌, ◌++◌, arith, ◌==◌, Bool-cases,
}
use kupio_backend.Base.Int.{ℤ, pos, neg, ◌+ℤ◌, ◌-ℤ◌, ◌≤ℤ◌, leb_ℤ, int_laws, -ℤ_parts}
use kupio_backend.Base.Lists.{
  All, update_where, some_row, some_row-select, All-update_where, All-mono, All-append,
  some_row-update_where, UniqueBy-update_where,
}
use kupio_backend.Models.{Database}
use kupio_backend.Models.Users.{User}
use kupio_backend.Models.Listings.{Listing}
use kupio_backend.Models.Promotions.{PromotionPacket, ListingPromotion}
use kupio_backend.Models.Payments.{BalanceTransaction, debit}
use kupio_backend.Core.Repository
use kupio_backend.Core.Action.{DbSession, ok, opened, in_uow}
use kupio_backend.Core.Transactions.{in_uow-holds, read-holds}
use kupio_backend.Users
use kupio_backend.Promotions.{pay_and_promote, purchase, get_packet, validate_purchase}
use kupio_backend.Ledger.Books.{IsLedger, Exists, credited, books-credit, update_where_hit, add_to}

abbrev pub covers : ℕ → ℤ → User → Bool
covers user_id amount u = u.id == user_id && leb_ℤ amount u.balance

abbrev pub take_from : ℤ → User → User
take_from amount u = record u { balance = u.balance -ℤ amount }

-- The deduction reports success only if it found a balance that covers the amount.
deduct_balance-found :
    (user_id : ℕ) (amount : ℤ) (s : DbSession)
    → (Users.deduct_balance user_id amount s).0 ≡ ok true
    → some_row (covers user_id amount) s.working.users ≡ true
unfolding Users.deduct_balance Repository.update
deduct_balance-found user_id amount s h =
    elim (Bool-cases (some_row (covers user_id amount) s.working.users)) [
      | inl found ↦ found
      | inr missing ↦
          ground (arith, some_row-select (covers user_id amount) s.working.users missing)
    ]

deduct_balance-state :
    (user_id : ℕ) (amount : ℤ) (s : DbSession)
    → (Users.deduct_balance user_id amount s).1
      ≡ Repository.set_rows Users.users (covers user_id amount) (take_from amount) s
unfolding Users.deduct_balance Repository.update
deduct_balance-state user_id amount s = ground arith

take_from-eq-add_to : (amount : ℤ) → take_from amount ≡ add_to (neg amount)
take_from-eq-add_to amount =
    fun_ext λ u. ap (λ (b : ℤ). record u { balance = b }) (minus-eq-plus_neg u.balance)
  where
    minus-eq-plus_neg : (b : ℤ) → b -ℤ amount ≡ b +ℤ neg amount
    minus-eq-plus_neg b = omega int_laws

module _ (transaction_id id now : ℕ) (user : User) (listing : Listing)
    (packet : PromotionPacket) where
  abbrev pub payment : BalanceTransaction
  payment = record {
    id = transaction_id;
    user_id = user.id;
    amount = neg packet.price;
    type = debit;
    created_at = now;
  }

  pub pay_and_promote-local :
      (db : Database)
      → (pay_and_promote transaction_id id now user listing packet (opened db)).1.committed ≡ db
  unfolding pay_and_promote Repository.add Repository.update
  pay_and_promote-local db = ground arith

  -- What a purchase that returns has written to the user and transaction tables
  pub pay_and_promote-ok :
      (db : Database) (p : ListingPromotion)
      → (pay_and_promote transaction_id id now user listing packet (opened db)).0 ≡ ok p
      → let db' =
          (pay_and_promote transaction_id id now user listing packet (opened db)).1.working in
        (some_row (covers user.id packet.price) db.users ≡ true)
        × (db'.users ≡ update_where (covers user.id packet.price) (take_from packet.price) db.users)
        × (db'.balance_transactions ≡ db.balance_transactions ++ payment ∷ [])
        × (db'.payments_sessions ≡ db.payments_sessions)
  unfolding pay_and_promote Repository.add Repository.update
  pay_and_promote-ok db p h = elim (Bool-cases (some_row (covers user.id packet.price) db.users)) [
    | inl found ↦ (found, ground arith, ground arith, ground arith)
    | inr missing ↦
        let none_fit = some_row-select (covers user.id packet.price) db.users missing in
        absurd (ground (arith, none_fit))
  ]

  take_from-Exists :
      (p : User → Bool) (us : List User) (k : ℕ)
      → Exists us k
      → Exists (update_where p (take_from packet.price) us) k
  take_from-Exists p us k h =
      rw (some_row-update_where (λ u. u.id == k) p (take_from packet.price) us (λ u. refl)) h

  covers-Exists :
      (us : List User) → some_row (covers user.id packet.price) us ≡ true → Exists us user.id
  unfolding some_row
  covers-Exists [] h = cc
  covers-Exists (u ∷ us) h = ground (arith, covers-Exists us)

  books-payment :
      (db : Database)
      → IsLedger db
      → some_row (covers user.id packet.price) db.users ≡ true
      → All
          (λ u. u.balance ≡ credited u.id (db.balance_transactions ++ payment ∷ []))
          (update_where (covers user.id packet.price) (take_from packet.price) db.users)
  books-payment db l found =
      rw
        (update_where_hit user.id (λ u. leb_ℤ packet.price u.balance) (take_from packet.price)
          db.users l.unique found)
        (rw (take_from-eq-add_to packet.price)
          (books-credit db.balance_transactions payment db.users l.books))

  nonneg-payment :
      (db : Database)
      → IsLedger db
      → All
          (λ u. pos 0 ≤ℤ u.balance)
          (update_where (covers user.id packet.price) (take_from packet.price) db.users)
  nonneg-payment db l =
      All-update_where (λ u. pos 0 ≤ℤ u.balance) (covers user.id packet.price)
        (take_from packet.price) db.users (λ u n. ground (arith, -ℤ_parts u.balance packet.price))
        l.nonneg

  pay_and_promote-IsLedger :
      (db : Database) (p : ListingPromotion)
      → IsLedger db
      → (pay_and_promote transaction_id id now user listing packet (opened db)).0 ≡ ok p
      → IsLedger (pay_and_promote transaction_id id now user listing packet (opened db)).1.working
  pay_and_promote-IsLedger db p l h =
      let (found, eu, et, es) = pay_and_promote-ok db p h in
      let c = covers user.id packet.price in
      let f = take_from packet.price in
      record {
        unique = rw eu (UniqueBy-update_where (λ u. u.id) c f db.users (λ u. refl) l.unique);
        books = rw (eu, et) (books-payment db l found);
        nonneg = rw eu (nonneg-payment db l);
        owned =
            rw (eu, et)
              (All-append (λ t. Exists (update_where c f db.users) t.user_id)
                db.balance_transactions (payment ∷ [])
                (All-mono db.balance_transactions (λ t. take_from-Exists c db.users t.user_id)
                  l.owned)
                (take_from-Exists c db.users user.id (covers-Exists db.users found), tt));
        payers =
            rw (eu, es)
              (All-mono db.payments_sessions (λ p. take_from-Exists c db.users p.user_id) l.payers);
        topups = rw es l.topups;
      }

-- One payment transaction keeps the books, however old the rows are that it was given.
pub payment-IsLedger :
    (transaction_id id now : ℕ) (user : User) (listing : Listing) (packet : PromotionPacket)
    (db : Database)
    → IsLedger db
    → IsLedger
        (in_uow (pay_and_promote transaction_id id now user listing packet) (opened db)).1.committed
payment-IsLedger transaction_id id now user listing packet db l =
    in_uow-holds IsLedger (pay_and_promote transaction_id id now user listing packet) db
      (pay_and_promote-local transaction_id id now user listing packet db) l
      (λ p. pay_and_promote-IsLedger transaction_id id now user listing packet db p l)

pub get_packet-reads : (packet_id : ℕ) (s : DbSession) → (get_packet packet_id s).1 ≡ s
unfolding get_packet
get_packet-reads packet_id s = ground arith

pub validate_purchase-reads :
    (now : ℕ) (listing : Listing) (packet : PromotionPacket) (s : DbSession)
    → (validate_purchase now listing packet s).1 ≡ s
unfolding validate_purchase
validate_purchase-reads now listing packet s = ground arith

-- However a purchase ends, the books of the committed database are in order if they were: ids are
-- unique, every balance is the sum of its user's transactions and no balance is negative.
pub purchase-IsLedger :
    (transaction_id id now : ℕ) (user : User) (listing : Listing) (packet_id : ℕ) (db : Database)
    → IsLedger db
    → IsLedger (purchase transaction_id id now user listing packet_id (opened db)).1.committed
unfolding purchase
purchase-IsLedger transaction_id id now user listing packet_id db l =
    read-holds IsLedger (get_packet packet_id) _ db (get_packet-reads packet_id (opened db)) l
      λ packet _.
        read-holds IsLedger (validate_purchase now listing packet) _ db
          (validate_purchase-reads now listing packet (opened db)) l
          λ _ _. payment-IsLedger transaction_id id now user listing packet db l
