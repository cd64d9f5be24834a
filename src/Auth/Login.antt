-- ===== src/Auth/Login.antt =====
-- Login and token refresh: one live session on each device.
use kupio_backend.Base.{
  ℕ, ◌<◌, ◌≡◌, refl, ◌∙◌, inl, inr, ◌≢◌, true, false, ◌&&◌, Option, none, some, List, [], ◌∷◌, ◌++◌,
  arith, ◌==◌, Bool-cases,
}
use kupio_backend.Base.Lists.{All, select, head?, select-append, select_none}
use kupio_backend.Models.{Database}
use kupio_backend.Models.Auth.{Session}
use kupio_backend.Models.Users.{User}
use kupio_backend.Core.Errors.{multiple_results_found}
use kupio_backend.Core.Action.{Result, DbSession, ok, err, opened, in_uow, aexit}
use kupio_backend.Core.Transactions.{in_uow-cases}
use kupio_backend.Core.Repository
use kupio_backend.Users
use kupio_backend.Auth.{
  Crypto, AuthConfig, Fresh, TokensResponse, relogin, login, login_found, password_fits,
  refresh_expires_at,
}
use kupio_backend.Auth.Rows.{live}
use kupio_backend.Auth.Exclusive.{
  IsExclusive, of_device, revoke-IsExclusive, add-IsExclusive, revoke_device, revoke_device-free,
  revoke_device-single,
}

module _ (crypto : Crypto) (config : AuthConfig) (fresh : Fresh) where
  -- The session that a pair of tokens belongs to
  abbrev pub issued : ℕ → ℕ → Session
  issued user_id device_id = record {
    id = fresh.session_id;
    user_id = user_id;
    token_hash = crypto.hash_refresh_token fresh.refresh_token;
    device_id = device_id;
    expires_at = refresh_expires_at crypto config fresh;
    last_used_at = fresh.now;
    is_revoked = false;
  }

  -- What holds of the end of a login or a refresh: on no device a user has two live sessions, and
  -- the request did not end in the error of a query that finds two rows.
  abbrev pub EndsExclusive : Result TokensResponse × DbSession → Type 0
  EndsExclusive r =
      IsExclusive fresh.now r.1.committed.sessions × (r.0 ≢ err multiple_results_found)

  aexit-EndsExclusive :
      (r : Result TokensResponse) (s : DbSession)
      → IsExclusive fresh.now s.committed.sessions
      → (r ≢ err multiple_results_found)
      → ((a : TokensResponse) → r ≡ ok a → IsExclusive fresh.now s.working.sessions)
      → EndsExclusive (aexit (r, s))
  aexit-EndsExclusive (ok a) s x single went = (went a refl, λ e. cc)
  aexit-EndsExclusive (err e) s x single went = (x, single)

  module _ (user : User) (device_id : ℕ) (db : Database) where
    relogin-local :
        (relogin crypto config fresh (some user) user.id device_id (opened db)).1.committed ≡ db
    unfolding relogin Repository.add Repository.update
    relogin-local = ground arith

    relogin-ok :
        (r : TokensResponse)
        → (relogin crypto config fresh (some user) user.id device_id (opened db)).0 ≡ ok r
        → ((relogin crypto config fresh
              (some user)
              user.id
              device_id
              (opened db)).1.working.sessions
            ≡ revoke_device fresh.now user.id device_id db.sessions
              ++ issued user.id device_id ∷ [])
          × (r.refresh_token ≡ fresh.refresh_token)
    unfolding relogin Repository.add Repository.update
    relogin-ok r h = (ground arith, ground arith)

    relogin-single :
        IsExclusive fresh.now db.sessions
        → (relogin crypto config fresh (some user) user.id device_id (opened db)).0
          ≢ err multiple_results_found
    unfolding relogin Repository.add Repository.update
    relogin-single x h =
        let (o, e) =
          revoke_device-single fresh.now user.id device_id (λ s. record s { is_revoked = true })
            db.sessions x in
        ground arith

    relogin-IsExclusive :
        IsExclusive fresh.now db.sessions
        → IsExclusive fresh.now
            (revoke_device fresh.now user.id device_id db.sessions ++ issued user.id device_id ∷ [])
    relogin-IsExclusive x =
        add-IsExclusive fresh.now _ (issued user.id device_id)
          (revoke_device-free fresh.now user.id device_id db.sessions)
          (revoke-IsExclusive fresh.now _ _ db.sessions (λ s. refl) x)

    relogin_alone :
        (ss : List Session)
        → live fresh.now (issued user.id device_id) ≡ true
        → All (λ s. (live fresh.now s && of_device user.id device_id s) ≡ false) ss
        → select
            (λ s. live fresh.now s && of_device user.id device_id s)
            (ss ++ issued user.id device_id ∷ [])
          ≡ issued user.id device_id ∷ []
    unfolding select
    relogin_alone ss alive free =
        rw
          (select-append (λ s. live fresh.now s && of_device user.id device_id s) ss
            (issued user.id device_id ∷ []))
          (rw (select_none _ ss free) (ground arith))

  abbrev pub found_by : ℕ → Database → Option User
  found_by email db = head? (select (Repository.fits Users.users (λ u. u.email == email)) db.users)

  login_found-EndsExclusive :
      (user : Option User) (password device_id : ℕ) (db : Database)
      → IsExclusive fresh.now db.sessions
      → EndsExclusive (login_found crypto config fresh user password device_id (opened db))
  unfolding login_found in_uow
  login_found-EndsExclusive none password device_id db x = (x, λ e. cc)
  login_found-EndsExclusive (some user) password device_id db x =
      elim (Bool-cases (password_fits crypto config fresh password (some user))) [
        | inr wrong ↦ rw wrong (x, λ e. cc)
        | inl right ↦ rw right (
            aexit-EndsExclusive
              (relogin crypto config fresh (some user) user.id device_id (opened db)).0
              (relogin crypto config fresh (some user) user.id device_id (opened db)).1
              (rw (relogin-local user device_id db) x) (relogin-single user device_id db x)
              (λ r h.
                rw (relogin-ok user device_id db r h).0 (relogin-IsExclusive user device_id db x)))
      ]

  -- From a database where no user has two live sessions on one device, `login` ends in such a
  -- database, and the statement that revokes the old session, which expects one row at most, never
  -- finds two.
  pub login-EndsExclusive :
      (email password device_id : ℕ) (db : Database)
      → IsExclusive fresh.now db.sessions
      → EndsExclusive (login crypto config fresh email password device_id (opened db))
  unfolding login Users.get_by_email Repository.get
  login-EndsExclusive email password device_id db x =
      login_found-EndsExclusive (found_by email db) password device_id db x

  -- After a login that returns tokens, the user's only live session on the device is the one that
  -- the returned refresh token belongs to.
  pub login-select :
      (email password device_id : ℕ) (db : Database) (user : User) (r : TokensResponse)
      → 0 < config.refresh_ttl
      → found_by email db ≡ some user
      → (login crypto config fresh email password device_id (opened db)).0 ≡ ok r
      → (r.refresh_token ≡ fresh.refresh_token)
        × (select
              (λ s. live fresh.now s && of_device user.id device_id s)
              (login crypto config fresh email password device_id (opened db)).1.committed.sessions
            ≡ issued user.id device_id ∷ [])
  unfolding login Users.get_by_email Repository.get login_found in_uow
  login-select email password device_id db user r ttl found =
      rw found (elim (Bool-cases (password_fits crypto config fresh password (some user))) [
        | inr wrong ↦ rw wrong (λ h. absurd (ground arith))
        | inl right ↦ rw right (
            in_uow-cases P (relogin crypto config fresh (some user) user.id device_id) db
              (relogin-local user device_id db) (λ _ h. absurd (ground arith))
              (λ a e h.
                let (es, er) = relogin-ok user device_id db r (e ∙ h) in
                (
                  er,
                  rw es (
                      relogin_alone user device_id db
                        (revoke_device fresh.now user.id device_id db.sessions) (ground arith)
                        (revoke_device-free fresh.now user.id device_id db.sessions)),
                )))
      ])
    where
      P : Result TokensResponse × DbSession → Type 0
      P q =
          q.0 ≡ ok r
          → (r.refresh_token ≡ fresh.refresh_token)
            × (select (λ s. live fresh.now s && of_device user.id device_id s)
                  q.1.committed.sessions
                ≡ issued user.id device_id ∷ [])
