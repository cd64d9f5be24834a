-- ===== src/Ledger/Webhook.antt =====
-- Stripe's notifications keep the books and are credited once.
use kupio_backend.Base.{
  ℕ, ⊤, ◌≡◌, refl, ap, inl, inr, Option, none, some, List, [], ◌∷◌, ◌++◌, arith, ◌==◌, Bool-cases,
  ◌∙◌,
}
use kupio_backend.Base.Int.{pos, ◌≤ℤ◌, +ℤ_parts}
use kupio_backend.Base.Lists.{
  update_where, All-update_where, All-mono, head?-select, All-append, some_row-update_where,
  UniqueBy-update_where,
}
use kupio_backend.Models.{Database}
use kupio_backend.Models.Users.{User}
use kupio_backend.Models.Payments.{
  BalanceTransaction, PaymentSession, PaymentSessionStatus, completed, expired, top_up, is_pending,
}
use kupio_backend.Core.Repository
use kupio_backend.Core.Action.{DbSession, ok, err, opened, in_uow, ◌>>=◌}
use kupio_backend.Core.Errors.{webhook_signature}
use kupio_backend.Core.Transactions.{in_uow-holds, read-holds}
use kupio_backend.Payments.{
  Event, EventType, checkout_session_completed, checkout_session_expired, other, complete,
  complete_found, expire_found, handle_completed, handle_expired, dispatch, handle_webhook,
  get_by_stripe_id, update_status, or_kept, Constructed, constructed, signature_refused,
  payload_refused, event_of,
}
use kupio_backend.Ledger.Books.{IsLedger, Exists, books-credit, add_to}

-- A row that could have been read from the payment sessions: it is of an existing user and not
-- for a negative amount.
abbrev pub IsPayable : Database → PaymentSession → Type 0
IsPayable db p = Exists db.users p.user_id × (pos 0 ≤ℤ p.amount)

module _ (transaction_id now : ℕ) (checkout : PaymentSession) where
  abbrev pub credit : BalanceTransaction
  credit = record {
    id = transaction_id;
    user_id = checkout.user_id;
    amount = checkout.amount;
    type = top_up;
    created_at = now;
  }

  -- The tables after a completed checkout
  abbrev pub paid : Option ℕ → Database → Database
  paid payment_intent db = record db {
    payments_sessions =
        update_where (λ p. p.id == checkout.id)
          (λ p. record p {
            stripe_payment_intent_id = or_kept payment_intent p.stripe_payment_intent_id;
            status = completed;
          })
          db.payments_sessions;
    users = update_where (λ u. u.id == checkout.user_id) (add_to checkout.amount) db.users;
    balance_transactions = db.balance_transactions ++ credit ∷ [];
  }

  pub complete-local :
      (payment_intent : Option ℕ) (db : Database)
      → (complete transaction_id now checkout payment_intent (opened db)).1.committed ≡ db
  unfolding complete Repository.add
  complete-local payment_intent db = ground arith

  pub complete-ok :
      (payment_intent : Option ℕ) (db : Database) (r : ⊤)
      → (complete transaction_id now checkout payment_intent (opened db)).0 ≡ ok r
      → (complete transaction_id now checkout payment_intent (opened db)).1.working
        ≡ paid payment_intent db
  unfolding complete Repository.add
  complete-ok payment_intent db r h = ground arith

  credit-Exists :
      (us : List User) (k : ℕ)
      → Exists us k
      → Exists (update_where (λ u. u.id == checkout.user_id) (add_to checkout.amount) us) k
  credit-Exists us k h =
      rw
        (some_row-update_where (λ u. u.id == k) (λ u. u.id == checkout.user_id)
          (add_to checkout.amount) us (λ u. refl))
        h

  paid-IsLedger :
      (payment_intent : Option ℕ) (db : Database)
      → IsPayable db checkout
      → IsLedger db
      → IsLedger (paid payment_intent db)
  paid-IsLedger payment_intent db c l = record {
    unique = UniqueBy-update_where (λ u. u.id) _ _ db.users (λ u. refl) l.unique;
    books = books-credit db.balance_transactions credit db.users l.books;
    nonneg =
        All-update_where (λ u. pos 0 ≤ℤ u.balance) _ _ db.users
          (λ u n. ground (arith, +ℤ_parts u.balance checkout.amount, c.1)) l.nonneg;
    owned =
        All-append _ db.balance_transactions (credit ∷ [])
          (All-mono db.balance_transactions (λ t. credit-Exists db.users t.user_id) l.owned)
          (credit-Exists db.users checkout.user_id c.0, tt);
    payers =
        All-update_where _ _ _ db.payments_sessions
          (λ p e. ground (arith, credit-Exists db.users p.user_id e)) l.payers;
    topups =
        All-update_where (λ p. pos 0 ≤ℤ p.amount) _ _ db.payments_sessions (λ p e. ground arith)
          l.topups;
  }

  pub complete-IsLedger :
      (payment_intent : Option ℕ) (db : Database)
      → IsPayable db checkout
      → IsLedger db
      → IsLedger
          (in_uow (complete transaction_id now checkout payment_intent) (opened db)).1.committed
  complete-IsLedger payment_intent db c l =
      in_uow-holds IsLedger (complete transaction_id now checkout payment_intent) db
        (complete-local payment_intent db) l
        (λ r e. rw (complete-ok payment_intent db r e) (paid-IsLedger payment_intent db c l))

get_by_stripe_id-reads : (id : ℕ) (s : DbSession) → (get_by_stripe_id id s).1 ≡ s
unfolding get_by_stripe_id Repository.get
get_by_stripe_id-reads id s = refl

-- What the lookup finds can be paid.
found-IsPayable :
    (id : ℕ) (db : Database) (p : PaymentSession)
    → IsLedger db
    → (get_by_stripe_id id (opened db)).0 ≡ ok (some p)
    → IsPayable db p
unfolding get_by_stripe_id Repository.get
found-IsPayable id db p l e = (
  (head?-select (λ q. Exists db.users q.user_id) (λ q. q.stripe_session_id == id)
      db.payments_sessions p l.payers (cc)).0,
  (head?-select (λ q. pos 0 ≤ℤ q.amount) (λ q. q.stripe_session_id == id) db.payments_sessions p
      l.topups (cc)).0,
)

complete_found-IsLedger :
    (transaction_id now : ℕ) (payment_intent : Option ℕ) (db : Database)
    (found : Option PaymentSession)
    → IsLedger db
    → ((p : PaymentSession) → found ≡ some p → IsPayable db p)
    → IsLedger (complete_found transaction_id now payment_intent found (opened db)).1.committed
unfolding complete_found
complete_found-IsLedger transaction_id now payment_intent db none l c = l
complete_found-IsLedger transaction_id now payment_intent db (some p) l c =
    elim (Bool-cases (is_pending p.status)) [
      | inl open_session ↦
          rw open_session (complete-IsLedger transaction_id now p payment_intent db (c p refl) l)
      | inr closed ↦ rw closed l
    ]

pub update_status-IsLedger :
    (id : ℕ) (status : PaymentSessionStatus) (payment_intent : Option ℕ) (db : Database)
    → IsLedger db
    → IsLedger (in_uow (update_status id status payment_intent) (opened db)).1.committed
unfolding update_status Repository.update_only in_uow
update_status-IsLedger id status payment_intent db l = record {
  unique = l.unique;
  books = l.books;
  nonneg = l.nonneg;
  owned = l.owned;
  payers =
      All-update_where (λ p. Exists db.users p.user_id) _ _ db.payments_sessions
        (λ p e. ground arith) l.payers;
  topups =
      All-update_where (λ p. pos 0 ≤ℤ p.amount) _ _ db.payments_sessions (λ p e. ground arith)
        l.topups;
}

expire_found-IsLedger :
    (db : Database) (found : Option PaymentSession)
    → IsLedger db
    → IsLedger (expire_found found (opened db)).1.committed
unfolding expire_found
expire_found-IsLedger db none l = l
expire_found-IsLedger db (some p) l = elim (Bool-cases (is_pending p.status)) [
  | inl open_session ↦ rw open_session (update_status-IsLedger p.id expired none db l)
  | inr closed ↦ rw closed l
]

dispatch-IsLedger :
    (transaction_id now : ℕ) (event : Event) (type : EventType) (db : Database)
    → IsLedger db
    → IsLedger (dispatch transaction_id now event type (opened db)).1.committed
unfolding dispatch handle_completed handle_expired
dispatch-IsLedger transaction_id now event checkout_session_completed db l =
    read-holds IsLedger (get_by_stripe_id event.session_object_id) _ db
      (get_by_stripe_id-reads event.session_object_id (opened db)) l
      λ found e.
        complete_found-IsLedger transaction_id now event.payment_intent db found l
          λ p q. found-IsPayable event.session_object_id db p l (e ∙ ap ok q)
dispatch-IsLedger transaction_id now event checkout_session_expired db l =
    read-holds IsLedger (get_by_stripe_id event.session_object_id) _ db
      (get_by_stripe_id-reads event.session_object_id (opened db)) l
      λ found _. expire_found-IsLedger db found l
dispatch-IsLedger transaction_id now event other db l = l

constructed-IsLedger :
    (transaction_id now : ℕ) (answer : Constructed) (db : Database)
    → IsLedger db
    → IsLedger
        ((event_of answer >>= λ event. dispatch transaction_id now event event.type)
          (opened db)).1.committed
constructed-IsLedger transaction_id now (constructed event) db l =
    dispatch-IsLedger transaction_id now event event.type db l
constructed-IsLedger transaction_id now signature_refused db l = l
constructed-IsLedger transaction_id now payload_refused db l = l

module _ (construct_event : ℕ → ℕ → Constructed) where
  -- Whatever Stripe, or anyone else, posts to the webhook, the books of the committed database
  -- are in order afterwards if they were before.
  pub handle_webhook-IsLedger :
      (transaction_id now payload : ℕ) (sig_header : Option ℕ) (db : Database)
      → IsLedger db
      → IsLedger
          (handle_webhook construct_event transaction_id now payload sig_header
            (opened db)).1.committed
  unfolding handle_webhook
  handle_webhook-IsLedger transaction_id now payload none db l = l
  handle_webhook-IsLedger transaction_id now payload (some sig) db l =
      constructed-IsLedger transaction_id now (construct_event payload sig) db l

  -- Without a signature, or with one that Stripe's library rejects, the webhook raises
  -- `WebhookSignatureError` and touches nothing.
  pub handle_webhook-forged :
      (transaction_id now payload : ℕ) (sig_header : Option ℕ) (s : DbSession)
      → ((sig : ℕ) → sig_header ≡ some sig → construct_event payload sig ≡ signature_refused)
      → handle_webhook construct_event transaction_id now payload sig_header s
        ≡ (err webhook_signature, s)
  unfolding handle_webhook
  handle_webhook-forged transaction_id now payload none s h = refl
  handle_webhook-forged transaction_id now payload (some sig) s h = rw (h sig refl)
