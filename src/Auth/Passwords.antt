-- ===== src/Auth/Passwords.antt =====
-- Changing a password signs the user out everywhere else.
use mathlib.Core.List.{append-nil}
use kupio_backend.Base.{
  ℕ, ◌<◌, ◌≡◌, ◌∙◌, inl, inr, ◌≢◌, true, false, ◌&&◌, not, Option, some, List, [], ◌∷◌, ◌++◌, arith,
  ◌==◌, Bool-cases, Option-cases, is_none,
}
use kupio_backend.Base.Lists.{
  All-trivial, All, All-update_where, select, update_where, head?, head?-select-holds,
  select-append, select_none, select-update_where,
}
use kupio_backend.Models.{Database}
use kupio_backend.Models.Auth.{Session}
use kupio_backend.Models.Users.{User}
use kupio_backend.Core.Action.{Result, DbSession, ok, opened}
use kupio_backend.Core.Transactions.{in_uow-cases}
use kupio_backend.Core.Repository
use kupio_backend.Users
use kupio_backend.Auth.{
  Crypto, AuthConfig, Fresh, TokensResponse, replace_password, check_and_replace, change_password,
  password_fits,
}
use kupio_backend.Auth.Rows.{live, revoke}
use kupio_backend.Auth.Login.{issued}

module _ (crypto : Crypto) (config : AuthConfig) (fresh : Fresh) where
  abbrev signed_out : ℕ → List Session → List Session
  signed_out user_id =
      update_where (λ s. s.user_id == user_id && not s.is_revoked) (revoke fresh.now)

  signed_out-free :
      (user_id : ℕ) (ss : List Session)
      → All (λ s. (s.user_id == user_id && live fresh.now s) ≡ false) (signed_out user_id ss)
  signed_out-free user_id ss = All-update_where _ _ _ ss (λ s _. ground arith) (All-trivial ss)

  abbrev new_hash : ℕ → User → User
  new_hash password u = record u { password_hash = some (crypto.hash_password fresh.salt password) }

  -- What holds once a password was replaced: the user's row has the hash of the new password, the
  -- user's only live session is the new one, and the sessions of other users are as they were.
  pub record IsReplaced (user : User) (password device_id : ℕ) (db db' : Database) : Type 0 where
    pub stored : db'.users ≡ update_where (λ u. u.id == user.id) (new_hash password) db.users
    pub alone :
        select (λ s. s.user_id == user.id && live fresh.now s) db'.sessions
        ≡ issued crypto config fresh user.id device_id ∷ []
    pub others :
        select (λ s. not (s.user_id == user.id)) db'.sessions
        ≡ select (λ s. not (s.user_id == user.id)) db.sessions

  module _ (user : User) (password device_id : ℕ) (db : Database) where
    replace_password-local :
        (replace_password crypto config fresh user password device_id (opened db)).1.committed ≡ db
    unfolding replace_password Repository.add Repository.update_count Repository.get
    replace_password-local = ground arith

    abbrev row_again : Option User
    row_again = head? (
        select (Repository.fits Users.users (λ u. u.id == user.id))
          (update_where (λ u. u.id == user.id) (new_hash password) db.users))

    row_again-id : (u : User) → row_again ≡ some u → u.id ≡ user.id
    row_again-id u e =
        let test = head?-select-holds (Repository.fits Users.users (λ u. u.id == user.id)) _ u e in
        ground arith

    replace_password-ok :
        (r : TokensResponse)
        → (replace_password crypto config fresh user password device_id (opened db)).0 ≡ ok r
        → let db' =
            (replace_password crypto config fresh user password device_id (opened db)).1.working in
          (db'.users ≡ update_where (λ u. u.id == user.id) (new_hash password) db.users)
          × (db'.sessions
              ≡ signed_out user.id db.sessions ++ issued crypto config fresh user.id device_id ∷ [])
    unfolding replace_password Repository.add Repository.update_count Repository.get
    replace_password-ok r = elim (Option-cases row_again) [
      | inl gone ↦ rw gone (λ h. absurd (ground arith))
      | inr (u, there) ↦
          let same = row_again-id u there in rw there (λ h. (ground arith, ground arith))
    ]

    replace_password-IsReplaced :
        (r : TokensResponse)
        → 0 < config.refresh_ttl
        → (replace_password crypto config fresh user password device_id (opened db)).0 ≡ ok r
        → IsReplaced user password device_id db
            (replace_password crypto config fresh user password device_id (opened db)).1.working
    unfolding select
    replace_password-IsReplaced r ttl h =
        let (eu, es) = replace_password-ok r h in
        let new = issued crypto config fresh user.id device_id in
        record {
          stored = eu;
          alone = rw es (
              rw
                (select-append (λ s. s.user_id == user.id && live fresh.now s)
                  (signed_out user.id db.sessions) (new ∷ []))
                (rw (select_none _ _ (signed_out-free user.id db.sessions)) (ground arith)));
          others = rw es (
              rw
                (select-append (λ s. not (s.user_id == user.id)) (signed_out user.id db.sessions)
                  (new ∷ []))
                (rw
                  (select-update_where (λ s. not (s.user_id == user.id))
                    (λ s. s.user_id == user.id && not s.is_revoked) (revoke fresh.now) db.sessions
                    (λ s t. (ground arith, ground arith)))
                  (ground
                    (arith, append-nil (select (λ s. not (s.user_id == user.id)) db.sessions)))));
        }

    check_and_replace-local :
        (current_password : ℕ)
        → (check_and_replace crypto config fresh user current_password password device_id
            (opened db)).1.committed
          ≡ db
    unfolding check_and_replace
    check_and_replace-local current_password = ground (arith, replace_password-local)

    check_and_replace-ok :
        (current_password : ℕ) (r : TokensResponse)
        → (check_and_replace crypto config fresh user current_password password device_id
            (opened db)).0
          ≡ ok r
        → (password_fits crypto config fresh current_password (some user) ≡ true)
          × ((replace_password crypto config fresh user password device_id (opened db)).0 ≡ ok r)
          × ((check_and_replace crypto config fresh user current_password password device_id
                (opened db)).1
              ≡ (replace_password crypto config fresh user password device_id (opened db)).1)
    unfolding check_and_replace
    check_and_replace-ok current_password r h = (ground arith, ground arith, ground arith)

-- Where the configured lifetime of a session is more than zero days: a `change_password` that returns
-- tokens was given the user's current password, and another one as the new. After it the user's row
-- has the hash of the new password, the user's only live session is the new one, on this device, and
-- the sessions of other users are as they were.
pub change_password-IsReplaced :
    (crypto : Crypto) (config : AuthConfig) (fresh : Fresh) (user : User)
    (current_password password device_id : ℕ) (db : Database) (r : TokensResponse)
    → 0 < config.refresh_ttl
    → (change_password crypto config fresh user current_password password device_id (opened db)).0
      ≡ ok r
    → (password_fits crypto config fresh current_password (some user) ≡ true)
      × (current_password ≢ password)
      × IsReplaced crypto config fresh user password device_id db
          (change_password crypto config fresh user current_password password device_id
            (opened db)).1.committed
unfolding change_password
change_password-IsReplaced crypto config fresh user current_password password device_id db r ttl =
    elim (Bool-cases (current_password == password)) [
      | inl same ↦ rw same (λ h. absurd (ground arith))
      | inr other ↦ rw other (elim (Bool-cases (is_none user.password_hash)) [
        | inl no_hash ↦ rw no_hash (λ h. absurd (ground arith))
        | inr has_hash ↦ rw has_hash (
            in_uow-cases P
              (check_and_replace crypto config fresh user current_password password device_id) db
              (check_and_replace-local crypto config fresh user password device_id db
                current_password)
              (λ _ h. absurd (ground arith))
              (λ a e h.
                let (right, e', same_state) =
                  check_and_replace-ok crypto config fresh user password device_id db
                    current_password r (e ∙ h) in
                (
                  right,
                  (λ e''. ground arith),
                  rw same_state (
                      replace_password-IsReplaced crypto config fresh user password device_id db r
                        ttl e'),
                )))
      ])
    ]
  where
    P : Result TokensResponse × DbSession → Type 0
    P q =
        q.0 ≡ ok r
        → (password_fits crypto config fresh current_password (some user) ≡ true)
          × (current_password ≢ password)
          × IsReplaced crypto config fresh user password device_id db q.1.committed
