-- ===== src/Ledger/Delivery.antt =====
-- How often a checkout is credited: once when its notifications come one after the other, and
-- twice when two of them overlap.
use mathlib.Core.Option
use kupio_backend.Base.{
  ℕ, ◌+◌, ⊤, ◌≡◌, refl, ap, inl, inr, true, false, Option, none, some, arith, ◌==◌, if◌then◌else◌,
  Bool-cases, Option-cases, sym, ◌∙◌,
}
use kupio_backend.Base.Int.{ℤ, ◌+ℤ◌}
use kupio_backend.Base.Lists.{
  head?, select, length, length-append, head?-select-update_where, head?-select-holds,
}
use kupio_backend.Models.{Database}
use kupio_backend.Models.Payments.{PaymentSession, completed, is_pending}
use kupio_backend.Core.Repository
use kupio_backend.Core.Action.{Result, DbSession, ok, opened, in_uow}
use kupio_backend.Payments.{
  Event, complete, complete_found, handle_completed, get_by_stripe_id, or_kept,
}
use kupio_backend.Ledger.Books.{add_to}
use kupio_backend.Ledger.Webhook.{paid}

abbrev pub checkout_of : ℕ → Database → Option PaymentSession
checkout_of stripe_id db =
    head? (select (λ p. p.stripe_session_id == stripe_id) db.payments_sessions)

-- The balance that a user's profile shows
abbrev pub balance_of : ℕ → Database → Option ℤ
balance_of user_id db = Option.map (λ u. u.balance) (head? (select (λ u. u.id == user_id) db.users))

handle_completed-eq :
    (transaction_id now : ℕ) (event : Event) (db : Database)
    → handle_completed transaction_id now event (opened db)
      ≡ complete_found transaction_id now event.payment_intent
          (checkout_of event.session_object_id db)
          (opened db)
unfolding handle_completed get_by_stripe_id Repository.get
handle_completed-eq transaction_id now event db = refl

complete_found-ok :
    (transaction_id now : ℕ) (payment_intent : Option ℕ) (p : PaymentSession) (db : Database)
    → is_pending p.status ≡ true
    → (complete_found transaction_id now payment_intent (some p) (opened db)).0 ≡ ok tt
    → (complete_found transaction_id now payment_intent (some p) (opened db)).1
      ≡ opened (paid transaction_id now p payment_intent db)
unfolding complete_found in_uow complete Repository.add
complete_found-ok transaction_id now payment_intent p db open_session h = ground arith

-- After the payment the lookup finds the same checkout, completed.
checkout_of-paid :
    (transaction_id now stripe_id : ℕ) (payment_intent : Option ℕ) (p : PaymentSession)
    (db : Database)
    → checkout_of stripe_id db ≡ some p
    → checkout_of stripe_id (paid transaction_id now p payment_intent db)
      ≡ some (record p {
        stripe_payment_intent_id = or_kept payment_intent p.stripe_payment_intent_id;
        status = completed;
      })
checkout_of-paid transaction_id now stripe_id payment_intent p db h =
    rw
      (head?-select-update_where (λ q. q.stripe_session_id == stripe_id) (λ q. q.id == p.id)
        (λ q. record q {
          stripe_payment_intent_id = or_kept payment_intent q.stripe_payment_intent_id;
          status = completed;
        })
        db.payments_sessions (λ q. refl))
      (rw h (ground arith))

balance_of-paid :
    (transaction_id now user_id : ℕ) (payment_intent : Option ℕ) (p : PaymentSession)
    (db : Database)
    → balance_of user_id (paid transaction_id now p payment_intent db)
      ≡ Option.map (λ b. if user_id == p.user_id then b +ℤ p.amount else b) (balance_of user_id db)
balance_of-paid transaction_id now user_id payment_intent p db =
    rw
      (head?-select-update_where (λ u. u.id == user_id) (λ u. u.id == p.user_id) (add_to p.amount)
        db.users (λ u. refl))
      (elim (Option-cases (head? (select (λ u. u.id == user_id) db.users))) [
        | inl missing ↦ rw missing
        | inr (u, found) ↦
            let same = head?-select-holds (λ v. v.id == user_id) db.users u found in
            rw found (ground arith)
      ])

-- A notification of a pending checkout, handled without an error, completes the checkout, adds its
-- amount to the balance of its user and to no other balance, and adds one transaction.
pub handle_completed-credits :
    (transaction_id now user_id : ℕ) (event : Event) (p : PaymentSession) (db : Database)
    → checkout_of event.session_object_id db ≡ some p
    → is_pending p.status ≡ true
    → (handle_completed transaction_id now event (opened db)).0 ≡ ok tt
    → let db' = (handle_completed transaction_id now event (opened db)).1.committed in
      (Option.map (λ q. q.status) (checkout_of event.session_object_id db') ≡ some completed)
      × (balance_of user_id db'
          ≡ Option.map
              (λ b. if user_id == p.user_id then b +ℤ p.amount else b)
              (balance_of user_id db))
      × (length db'.balance_transactions ≡ length db.balance_transactions + 1)
handle_completed-credits transaction_id now user_id event p db found open_session h =
    let e =
      handle_completed-eq transaction_id now event db
      ∙ ap (λ o. complete_found transaction_id now event.payment_intent o (opened db)) found in
    let done =
      ap (λ (r : Result ⊤ × DbSession). r.1.committed) e
      ∙ ap (λ (s : DbSession). s.committed)
          (complete_found-ok transaction_id now event.payment_intent p db open_session
            (sym (ap (λ (r : Result ⊤ × DbSession). r.0) e) ∙ h)) in
    rw done (
      rw (
          checkout_of-paid transaction_id now event.session_object_id event.payment_intent p db
            found),
      balance_of-paid transaction_id now user_id event.payment_intent p db,
      rw length-append (omega arith),
    )

closed_found :
    (transaction_id now : ℕ) (payment_intent : Option ℕ) (o : Option PaymentSession) (s : DbSession)
    → ((p : PaymentSession) → o ≡ some p → is_pending p.status ≡ false)
    → complete_found transaction_id now payment_intent o s ≡ (ok tt, s)
unfolding complete_found
closed_found transaction_id now payment_intent none s h = refl
closed_found transaction_id now payment_intent (some p) s h = rw (h p refl)

-- After a notification was handled, its checkout is not pending any more.
closed_after :
    (transaction_id now stripe_id : ℕ) (payment_intent : Option ℕ) (o : Option PaymentSession)
    (db : Database) (p : PaymentSession)
    → checkout_of stripe_id db ≡ o
    → (complete_found transaction_id now payment_intent o (opened db)).0 ≡ ok tt
    → checkout_of stripe_id
        (complete_found transaction_id now payment_intent o (opened db)).1.committed
      ≡ some p
    → is_pending p.status ≡ false
closed_after transaction_id now stripe_id payment_intent none db p found h e =
    unfold complete_found in cc (found, e)
closed_after transaction_id now stripe_id payment_intent (some q) db p found h e =
    elim (Bool-cases (is_pending q.status)) [
      | inl open_session ↦
          let paid_for =
            ap (λ (s : DbSession). checkout_of stripe_id s.committed)
              (complete_found-ok transaction_id now payment_intent q db open_session h) in
          let done = checkout_of-paid transaction_id now stripe_id payment_intent q db found in
          ground (arith, paid_for, done)
      | inr closed ↦
          let kept =
            ap (λ (r : Result ⊤ × DbSession). checkout_of stripe_id r.1.committed)
              (closed_found transaction_id now payment_intent (some q) (opened db)
                (λ p' e'. ground arith)) in
          ground (arith, kept)
    ]

-- Stripe may deliver a notification again. Once one for a checkout was handled without an error,
-- any later one for it returns without an error and changes nothing, so the user is paid once.
pub handle_completed-redelivered :
    (transaction_id transaction_id' now now' : ℕ) (event event' : Event) (db : Database)
    → event'.session_object_id ≡ event.session_object_id
    → (handle_completed transaction_id now event (opened db)).0 ≡ ok tt
    → let db' = (handle_completed transaction_id now event (opened db)).1.committed in
      handle_completed transaction_id' now' event' (opened db') ≡ (ok tt, opened db')
handle_completed-redelivered transaction_id transaction_id' now now' event event' db same h =
    let stripe_id = event.session_object_id in
    let o = checkout_of stripe_id db in
    rw (handle_completed-eq transaction_id now event db) (
      rw (handle_completed-eq transaction_id' now' event' _, same)
        (closed_found transaction_id' now' event'.payment_intent _ _ (λ p.
          closed_after transaction_id now stripe_id event.payment_intent o db p refl
            (rw (handle_completed-eq transaction_id now event db) at h))))

-- The lookup and the transaction are two steps, and the transaction does not look again. So where
-- two notifications of one pending checkout overlap, each looking before the other has committed,
-- and both end without an error, the user is credited twice.
pub overlapping_deliveries_credit_twice :
    (t t' now now' : ℕ) (event event' : Event) (p : PaymentSession) (db : Database)
    → checkout_of event.session_object_id db ≡ some p
    → is_pending p.status ≡ true
    → let first = complete_found t now event.payment_intent (some p) (opened db) in
      let second =
        complete_found t' now' event'.payment_intent (some p) (opened first.1.committed) in
      first.0 ≡ ok tt
      → second.0 ≡ ok tt
      → balance_of p.user_id second.1.committed
        ≡ Option.map (λ b. b +ℤ p.amount +ℤ p.amount) (balance_of p.user_id db)
overlapping_deliveries_credit_twice t t' now now' event event' p db found open_session h h' =
    let one = complete_found-ok t now event.payment_intent p db open_session h in
    let db' = (complete_found t now event.payment_intent (some p) (opened db)).1.committed in
    let two = complete_found-ok t' now' event'.payment_intent p db' open_session h' in
    rw
      (
        two,
        balance_of-paid t' now' p.user_id event'.payment_intent p db',
        one,
        balance_of-paid t now p.user_id event.payment_intent p db,
      )
      (map_twice (balance_of p.user_id db))
  where
    map_twice :
        (o : Option ℤ)
        → Option.map
            (λ b. if p.user_id == p.user_id then b +ℤ p.amount else b)
            (Option.map (λ b. if p.user_id == p.user_id then b +ℤ p.amount else b) o)
          ≡ Option.map (λ b. b +ℤ p.amount +ℤ p.amount) o
    map_twice none = refl
    map_twice (some b) = ground arith
