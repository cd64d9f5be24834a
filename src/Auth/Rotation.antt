-- ===== src/Auth/Rotation.antt =====
-- Token refresh: the old token dies, and a device keeps one live session.
use kupio_backend.Base.{
  ℕ, ◌≡◌, refl, inl, inr, ◌≢◌, Bool, ◌&&◌, not, Option, none, some, List, [], ◌∷◌, ◌++◌, arith,
  ◌==◌, Option-cases,
}
use kupio_backend.Base.Lists.{
  All-append, All-update_where, UniqueBy, select, update_where, head?, head?-select-holds,
  select_none,
}
use kupio_backend.Base.Pairs.{found-or-other_key}
use kupio_backend.Models.{Database}
use kupio_backend.Models.Auth.{Session}
use kupio_backend.Models.Users.{User}
use kupio_backend.Core.Errors.{Error, attribute_error, invalid_refresh_token}
use kupio_backend.Core.Action.{Result, DbSession, ok, err, opened, in_uow}
use kupio_backend.Core.Transactions.{in_uow-cases}
use kupio_backend.Core.Repository
use kupio_backend.Core.Repository.Single.{scalar-select}
use kupio_backend.Users
use kupio_backend.Auth.{Crypto, AuthConfig, Fresh, TokensResponse, refresh, refresh_found, rotate}
use kupio_backend.Auth.Rows.{live, revoke, sessions, get_active_by_token_and_device}
use kupio_backend.Auth.Exclusive.{
  IsExclusive, revoke-IsExclusive, add-IsExclusive, revoke_found-free,
}
use kupio_backend.Auth.Login.{issued}

module _ (crypto : Crypto) (config : AuthConfig) (fresh : Fresh) where
  -- The row that a refresh token gives
  abbrev pub active_test : ℕ → ℕ → ℕ → Session → Bool
  active_test now token device_id s =
      s.token_hash == crypto.hash_refresh_token token && s.device_id == device_id && live now s

  abbrev pub session_for : ℕ → ℕ → ℕ → Database → Option Session
  session_for now token device_id db = head? (select (active_test now token device_id) db.sessions)

  abbrev pub user_of : ℕ → Database → Option User
  user_of user_id db = head? (select (Repository.fits Users.users (λ u. u.id == user_id)) db.users)

  abbrev rotated : Session → List Session → List Session
  rotated a ss =
      update_where (λ s. s.id == a.id && not s.is_revoked) (revoke fresh.now) ss
      ++ issued crypto config fresh a.user_id a.device_id ∷ []

  rotate-local :
      (a : Session) (user : Option User) (db : Database)
      → (rotate crypto config fresh a user (opened db)).1.committed ≡ db
  unfolding rotate Repository.add Repository.update
  rotate-local a none db = ground arith
  rotate-local a (some user) db = ground arith

  rotate-ok :
      (a : Session) (user : User) (db : Database) (r : TokensResponse)
      → user.id ≡ a.user_id
      → (rotate crypto config fresh a (some user) (opened db)).0 ≡ ok r
      → (rotate crypto config fresh a (some user) (opened db)).1.working.sessions
        ≡ rotated a db.sessions
  unfolding rotate Repository.add Repository.update
  rotate-ok a user db r same h = ground arith

  rotate_nobody :
      (a : Session) (db : Database) (r : TokensResponse)
      → (rotate crypto config fresh a none (opened db)).0 ≢ ok r
  unfolding rotate Repository.update
  rotate_nobody a db r h = ground arith

  user_of-id :
      (user_id : ℕ) (db : Database) (user : User)
      → user_of user_id db ≡ some user
      → user.id ≡ user_id
  user_of-id user_id db user found =
      let test =
        head?-select-holds (Repository.fits Users.users (λ u. u.id == user_id)) db.users user
          found in
      ground arith

  -- A refresh for a session raises and changes nothing, or its user is there and its session was
  -- replaced.
  refresh_found-cases :
      (P : Result TokensResponse × DbSession → Type 0) (a : Session) (db : Database)
      → ((e : Error) → P (err e, opened db))
      → ((user : User) (r : TokensResponse)
          → user.id ≡ a.user_id
          → (rotate crypto config fresh a (some user) (opened db)).0 ≡ ok r
          → P (ok r, opened (rotate crypto config fresh a (some user) (opened db)).1.working))
      → P (refresh_found crypto config fresh (some a) (opened db))
  unfolding refresh_found Users.get_by_id Repository.get
  refresh_found-cases P a db failed went = elim (Option-cases (user_of a.user_id db)) [
    | inl gone ↦ rw gone (
        in_uow-cases P (rotate crypto config fresh a none) db (rotate-local a none db) failed
          (λ r h. absurd (rotate_nobody a db r h)))
    | inr (user, there) ↦ rw there (
        in_uow-cases P (rotate crypto config fresh a (some user)) db (rotate-local a (some user) db)
          failed (λ r h. went user r (user_of-id a.user_id db user there) h))
  ]

  new_alone :
      (token device_id : ℕ) (db : Database) (a : Session)
      → IsExclusive fresh.now db.sessions
      → session_for fresh.now token device_id db ≡ some a
      → IsExclusive fresh.now (rotated a db.sessions)
  new_alone token device_id db a x found =
      let test = head?-select-holds (active_test fresh.now token device_id) db.sessions a found in
      add-IsExclusive fresh.now _ (issued crypto config fresh a.user_id a.device_id)
        (revoke_found-free fresh.now a.user_id a.device_id (active_test fresh.now token device_id)
          db.sessions a x found (ground arith) (ground arith))
        (revoke-IsExclusive fresh.now _ _ db.sessions (λ s. refl) x)

  -- A refresh, however it ends, leaves no user with two live sessions on one device.
  pub refresh-IsExclusive :
      (token device_id : ℕ) (db : Database)
      → IsExclusive fresh.now db.sessions
      → IsExclusive fresh.now
          (refresh crypto config fresh token device_id (opened db)).1.committed.sessions
  unfolding refresh get_active_by_token_and_device Repository.get
  refresh-IsExclusive token device_id db x =
      elim (Option-cases (session_for fresh.now token device_id db)) [
        | inl missing ↦ rw missing (unfold refresh_found in x)
        | inr (a, found) ↦ rw found (
            refresh_found-cases (λ q. IsExclusive fresh.now q.1.committed.sessions) a db (λ _. x)
              (λ user r same h.
                rw (rotate-ok a user db r same h) (new_alone token device_id db a x found)))
      ]

  -- The token that was exchanged is in no live row any more.
  old_dead :
      (token device_id device_id' now : ℕ) (db : Database) (a : Session)
      → UniqueBy (λ s. s.token_hash) db.sessions
      → crypto.hash_refresh_token fresh.refresh_token ≢ crypto.hash_refresh_token token
      → session_for fresh.now token device_id db ≡ some a
      → session_for now token device_id' (record db { sessions = rotated a db.sessions }) ≡ none
  old_dead token device_id device_id' now db a unique new found =
      let test = head?-select-holds (active_test fresh.now token device_id) db.sessions a found in
      rw (
        select_none (active_test now token device_id') (rotated a db.sessions) (
          All-append _ _ (issued crypto config fresh a.user_id a.device_id ∷ [])
            (All-update_where _ _ _ db.sessions
              (λ s k. elim k [ inl same ↦ ground arith | inr other ↦ ground arith ])
              (found-or-other_key (λ s. s.token_hash) (active_test fresh.now token device_id)
                db.sessions a unique found))
            (ground arith, tt)))

fails :
    (crypto : Crypto) (config : AuthConfig) (fresh : Fresh) (a : Session) (db : Database)
    → UniqueBy (λ s. s.id) db.sessions
    → in_uow (rotate crypto config fresh a none) (opened db) ≡ (err attribute_error, opened db)
unfolding in_uow rotate Repository.update
fails crypto config fresh a db unique =
    let (o, e) =
      scalar-select (λ s. s.id) (λ s. s.id == a.id && not s.is_revoked) a.id (λ s h. ground arith)
        sessions (revoke fresh.now) db.sessions unique in
    rw e

-- A refresh token works once: after a refresh that returned new tokens, the old token is refused,
-- at any later time, on any device, and the refused request changes nothing. Token hashes are
-- unique in the table, and the hashes of the new and the old token differ.
pub refresh-refresh :
    (crypto : Crypto) (config : AuthConfig) (fresh fresh' : Fresh) (token device_id device_id' : ℕ)
    (db : Database) (r : TokensResponse)
    → UniqueBy (λ s. s.token_hash) db.sessions
    → crypto.hash_refresh_token fresh.refresh_token ≢ crypto.hash_refresh_token token
    → (refresh crypto config fresh token device_id (opened db)).0 ≡ ok r
    → let db' = (refresh crypto config fresh token device_id (opened db)).1.committed in
      refresh crypto config fresh' token device_id' (opened db')
      ≡ (err invalid_refresh_token, opened db')
unfolding refresh get_active_by_token_and_device Repository.get
refresh-refresh crypto config fresh fresh' token device_id device_id' db r unique new =
    elim (Option-cases (session_for crypto config fresh fresh.now token device_id db)) [
      | inl missing ↦ rw missing (unfold refresh_found in λ h. absurd (ground arith))
      | inr (a, found) ↦ rw found (
          refresh_found-cases crypto config fresh P a db (λ _ h. absurd (ground arith))
            (λ user r' same h _.
              let after = (rotate crypto config fresh a (some user) (opened db)).1.working in
              let dead : session_for crypto config fresh fresh'.now token device_id' after ≡ none =
                rw (rotate-ok crypto config fresh a user db r' same h) (
                  old_dead crypto config fresh token device_id device_id' fresh'.now db a unique new
                    found) in
              rw dead (unfold refresh_found in refl)))
    ]
  where
    P : Result TokensResponse × DbSession → Type 0
    P q =
        q.0 ≡ ok r
        → refresh_found crypto config fresh'
            (session_for crypto config fresh fresh'.now token device_id' q.1.committed)
            (opened q.1.committed)
          ≡ (err invalid_refresh_token, opened q.1.committed)

-- A banned user's refresh is not refused as a bad token: where the user of the session is deleted
-- and session ids are unique, the request fails with an AttributeError on None, and changes nothing.
pub refresh_of_banned_user :
    (crypto : Crypto) (config : AuthConfig) (fresh : Fresh) (token device_id : ℕ) (db : Database)
    (a : Session)
    → UniqueBy (λ s. s.id) db.sessions
    → session_for crypto config fresh fresh.now token device_id db ≡ some a
    → user_of crypto config fresh a.user_id db ≡ none
    → refresh crypto config fresh token device_id (opened db) ≡ (err attribute_error, opened db)
unfolding refresh get_active_by_token_and_device Repository.get refresh_found Users.get_by_id
refresh_of_banned_user crypto config fresh token device_id db a unique found gone =
    rw found (rw gone (fails crypto config fresh a db unique))
