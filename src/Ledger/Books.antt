-- ===== src/Ledger/Books.antt =====
-- The invariant of the books, and how one more transaction with its balance update keeps it.
use kupio_backend.Base.{
  ℕ, ◌≡◌, refl, ◌≢◌, inl, inr, Bool, true, false, ◌&&◌, List, [], ◌∷◌, ◌++◌, arith, ◌==◌,
  if◌then◌else◌, Bool-cases,
}
use kupio_backend.Base.Int.{ℤ, pos, ◌+ℤ◌, ◌≤ℤ◌, int_laws}
use kupio_backend.Base.Lists.{All, UniqueBy, update_where, some_row, All-update_where}
use kupio_backend.Models.{Database}
use kupio_backend.Models.Users.{User}
use kupio_backend.Models.Payments.{BalanceTransaction}

-- The sum of a user's transactions
unfoldable pub credited : ℕ → List BalanceTransaction → ℤ
credited user_id [] = pos 0
credited user_id (t ∷ ts) =
    let rest = credited user_id ts in if t.user_id == user_id then rest +ℤ t.amount else rest

abbrev pub Exists : List User → ℕ → Type 0
Exists us user_id = some_row (λ u. u.id == user_id) us ≡ true

-- User ids are unique, every balance is the sum of its user's transactions and is not negative,
-- transactions and payment sessions belong to rows of the user table, and no payment session is
-- for a negative amount.
pub record IsLedger (db : Database) : Type 0 where
  pub unique : UniqueBy (λ u. u.id) db.users
  pub books : All (λ u. u.balance ≡ credited u.id db.balance_transactions) db.users
  pub nonneg : All (λ u. pos 0 ≤ℤ u.balance) db.users
  pub owned : All (λ t. Exists db.users t.user_id) db.balance_transactions
  pub payers : All (λ p. Exists db.users p.user_id) db.payments_sessions
  pub topups : All (λ p. pos 0 ≤ℤ p.amount) db.payments_sessions

pub credited-append :
    (user_id : ℕ) (ts : List BalanceTransaction) (t : BalanceTransaction)
    → credited user_id (ts ++ t ∷ [])
      ≡ (if t.user_id == user_id then credited user_id ts +ℤ t.amount else credited user_id ts)
unfolding credited
credited-append user_id [] t = refl
credited-append user_id (x ∷ ts) t = grind (int_laws, credited-append user_id ts t)

-- A transaction of nobody's leaves the sum at zero.
pub credited_none :
    (user_id : ℕ) (us : List User) (ts : List BalanceTransaction)
    → some_row (λ u. u.id == user_id) us ≡ false
    → All (λ t. Exists us t.user_id) ts
    → credited user_id ts ≡ pos 0
unfolding credited
credited_none user_id us [] h k = refl
credited_none user_id us (t ∷ ts) h k = ground (arith, credited_none user_id us ts h k.1)

abbrev pub add_to : ℤ → User → User
add_to amount u = record u { balance = u.balance +ℤ amount }

-- The books balance again once the amount of a new transaction is in its user's balance.
pub books-credit :
    (ts : List BalanceTransaction) (t : BalanceTransaction) (us : List User)
    → All (λ u. u.balance ≡ credited u.id ts) us
    → All
        (λ u. u.balance ≡ credited u.id (ts ++ t ∷ []))
        (update_where (λ u. u.id == t.user_id) (add_to t.amount) us)
books-credit ts t us =
    All-update_where (λ u. u.balance ≡ credited u.id (ts ++ t ∷ [])) (λ u. u.id == t.user_id)
      (add_to t.amount) us λ u e. ground (arith, credited-append u.id ts t)

module _ (user_id : ℕ) (q : User → Bool) (f : User → User) where
  update_where-others :
      (us : List User)
      → All (λ u. u.id ≢ user_id) us
      → update_where (λ u. u.id == user_id && q u) f us ≡ update_where (λ u. u.id == user_id) f us
  unfolding update_where
  update_where-others [] h = refl
  update_where-others (u ∷ us) h = ground (arith, update_where-others us h.1)

  some_row-others :
      (us : List User)
      → All (λ u. u.id ≢ user_id) us
      → some_row (λ u. u.id == user_id && q u) us ≡ false
  unfolding some_row
  some_row-others [] h = refl
  some_row-others (u ∷ us) h = ground (arith, some_row-others us h.1)

  All-other_id :
      (k : ℕ) (us : List User) → k ≡ user_id → All (λ u. u.id ≢ k) us → All (λ u. u.id ≢ user_id) us
  All-other_id k [] e h = tt
  All-other_id k (u ∷ us) e h = (ground arith, All-other_id k us e h.1)

  -- Where ids are unique, a conditional update that hits is the update of that user.
  pub update_where_hit :
      (us : List User)
      → UniqueBy (λ u. u.id) us
      → some_row (λ u. u.id == user_id && q u) us ≡ true
      → update_where (λ u. u.id == user_id && q u) f us ≡ update_where (λ u. u.id == user_id) f us
  unfolding update_where some_row
  update_where_hit [] n h = refl
  update_where_hit (u ∷ us) n h = elim (Bool-cases (u.id == user_id)) [
    | inl same ↦
        let others : All (λ v. v.id ≢ user_id) us = All-other_id u.id us (ground arith) n.0 in
        ground (arith, update_where-others us others, some_row-others us others)
    | inr other ↦ ground (arith, update_where_hit us n.1)
  ]
