-- ===== src/Auth/Logout.antt =====
-- Ending sessions: logout, and revocation from another device.
use kupio_backend.Base.{
  ℕ, ◌≡◌, refl, inl, inr, ◌≢◌, Bool, true, false, ◌&&◌, not, Option, none, some, List, [], ◌∷◌,
  arith, ◌==◌, ltb, holds, Bool-cases, Option-cases,
}
use kupio_backend.Base.Lists.{
  length, All-mono, All-update_where, UniqueBy, select, update_where, head?, head?-select-holds,
  select_none, select-update_where,
}
use kupio_backend.Base.Pairs.{found-or-other_key}
use kupio_backend.Models.{Database}
use kupio_backend.Models.Auth.{Session}
use kupio_backend.Models.Users.{User, NotificationToken}
use kupio_backend.Core.Errors.{invalid_refresh_token}
use kupio_backend.Core.Action.{ok, err, opened, in_uow}
use kupio_backend.Core.Repository
use kupio_backend.Core.Repository.Single.{scalar-select}
use kupio_backend.Auth.{Crypto, AuthConfig, Fresh, logout, refresh, refresh_found, revoke_session}
use kupio_backend.Auth.Rows.{
  revoke, sessions, get_active_by_token_and_device, revoke_by_id_and_user_id,
}
use kupio_backend.Auth.Rotation.{active_test}

module _ (crypto : Crypto) (config : AuthConfig) (fresh : Fresh) where
  abbrev of_token : ℕ → Session → Bool
  of_token token s = s.token_hash == crypto.hash_refresh_token token

  abbrev row_of : ℕ → Database → Option Session
  row_of token db = head? (select (of_token token) db.sessions)

  abbrev ended : Session → List Session → List Session
  ended a = update_where (λ s. s.id == a.id && not s.is_revoked) (revoke fresh.now)

  abbrev unregistered : Session → List NotificationToken → List NotificationToken
  unregistered a = select (λ t. not (t.user_id == a.user_id && holds t.device_id a.device_id))

  -- The state after `logout`, by what the token's row is
  logout-state :
      (token : ℕ) (db : Database)
      → UniqueBy (λ s. s.id) db.sessions
      → (a : Session) → row_of token db ≡ some a
      → a.is_revoked ≡ false
      → logout crypto config fresh token (opened db) ≡ (
        ok tt,
        opened (record db {
          sessions = ended a db.sessions;
          notification_tokens = unregistered a db.notification_tokens;
        }),
      )
  unfolding logout Repository.get Repository.delete Repository.update in_uow
  logout-state token db unique a found going =
      let (o, e) =
        scalar-select (λ s. s.id) (λ s. s.id == a.id && not s.is_revoked) a.id (λ s h. ground arith)
          sessions (revoke fresh.now) db.sessions unique in
      rw found (rw going (rw e))

  logout-nothing :
      (token : ℕ) (db : Database)
      → ((a : Session) → row_of token db ≡ some a → a.is_revoked ≡ true)
      → logout crypto config fresh token (opened db) ≡ (ok tt, opened db)
  unfolding logout Repository.get in_uow
  logout-nothing token db h = elim (Option-cases (row_of token db)) [
    | inl missing ↦ rw missing
    | inr (a, found) ↦ rw found (rw (h a found))
  ]

  no_live_row :
      (token now device_id : ℕ) (ss : List Session) (a : Session)
      → UniqueBy (λ s. s.token_hash) ss
      → head? (select (of_token token) ss) ≡ some a
      → select (active_test crypto config fresh now token device_id) (ended a ss) ≡ []
  no_live_row token now device_id ss a unique found =
      let test = head?-select-holds (of_token token) ss a found in
      select_none _ _ (
        All-update_where _ _ _ ss
          (λ s k. elim k [ inl same ↦ ground arith | inr other ↦ ground arith ])
          (found-or-other_key (λ s. s.token_hash) (of_token token) ss a unique found))

  missing_row :
      (token now device_id : ℕ) (ss : List Session)
      → head? (select (of_token token) ss) ≡ none
      → select (active_test crypto config fresh now token device_id) ss ≡ []
  unfolding select
  missing_row token now device_id [] h = refl
  missing_row token now device_id (s ∷ ss) h = ground (arith, missing_row token now device_id ss)

  revoked_row :
      (token now device_id : ℕ) (ss : List Session) (a : Session)
      → UniqueBy (λ s. s.token_hash) ss
      → head? (select (of_token token) ss) ≡ some a
      → a.is_revoked ≡ true
      → select (active_test crypto config fresh now token device_id) ss ≡ []
  revoked_row token now device_id ss a unique found gone =
      let test = head?-select-holds (of_token token) ss a found in
      select_none _ _ (
        All-mono ss (λ s k. elim k [ inl same ↦ ground arith | inr other ↦ ground arith ])
          (found-or-other_key (λ s. s.token_hash) (of_token token) ss a unique found))

  refused :
      (fresh' : Fresh) (token device_id : ℕ) (db : Database)
      → select (active_test crypto config fresh fresh'.now token device_id) db.sessions ≡ []
      → refresh crypto config fresh' token device_id (opened db)
        ≡ (err invalid_refresh_token, opened db)
  unfolding refresh get_active_by_token_and_device Repository.get refresh_found
  refused fresh' token device_id db e = rw e refl

  ended_refused :
      (fresh' : Fresh) (token device_id : ℕ) (db : Database)
      → UniqueBy (λ s. s.id) db.sessions
      → UniqueBy (λ s. s.token_hash) db.sessions
      → let db' = (logout crypto config fresh token (opened db)).1.committed in
        select (active_test crypto config fresh fresh'.now token device_id) db'.sessions ≡ []
  ended_refused fresh' token device_id db ids hashes = elim (Option-cases (row_of token db)) [
    | inl missing ↦
        rw (logout-nothing token db (λ a e. absurd (ground arith)))
          (missing_row token fresh'.now device_id db.sessions missing)
    | inr (a, found) ↦ elim (Bool-cases a.is_revoked) [
      | inl gone ↦
          rw (logout-nothing token db (λ b e. ground arith))
            (revoked_row token fresh'.now device_id db.sessions a hashes found gone)
      | inr going ↦
          rw (logout-state token db ids a found going)
            (no_live_row token fresh'.now device_id db.sessions a hashes found)
    ]
  ]

-- Where the ids and the token hashes of the sessions are unique, logging out never fails, whether
-- or not the token is known, and afterwards a refresh with the same token is refused, at any time
-- and on any device, and changes nothing.
pub logout-refresh :
    (crypto : Crypto) (config : AuthConfig) (fresh fresh' : Fresh) (token device_id : ℕ)
    (db : Database)
    → UniqueBy (λ s. s.id) db.sessions
    → UniqueBy (λ s. s.token_hash) db.sessions
    → let (r, s) = logout crypto config fresh token (opened db) in
      (r ≡ ok tt)
      × (refresh crypto config fresh' token device_id (opened s.committed)
          ≡ (err invalid_refresh_token, opened s.committed))
logout-refresh crypto config fresh fresh' token device_id db ids hashes = (
  elim (Option-cases (row_of crypto config fresh token db)) [
    | inl missing ↦
        rw (logout-nothing crypto config fresh token db (λ a e. absurd (ground arith))) refl
    | inr (a, found) ↦ elim (Bool-cases a.is_revoked) [
      | inl gone ↦ rw (logout-nothing crypto config fresh token db (λ b e. ground arith)) refl
      | inr going ↦ rw (logout-state crypto config fresh token db ids a found going) refl
    ]
  ],
  refused crypto config fresh fresh' token device_id _
      (ended_refused crypto config fresh fresh' token device_id db ids hashes),
)

-- Revoking a session of one's own leaves the sessions of every other user as they were.
pub revoke_session-others :
    (crypto : Crypto) (config : AuthConfig) (fresh : Fresh) (current_user : User)
    (session_id other : ℕ) (db : Database)
    → other ≢ current_user.id
    → select
        (λ s. s.user_id == other)
        (revoke_session crypto config fresh current_user session_id
          (opened db)).1.committed.sessions
      ≡ select (λ s. s.user_id == other) db.sessions
unfolding revoke_session revoke_by_id_and_user_id Repository.update_count in_uow
revoke_session-others crypto config fresh current_user session_id other db apart =
    let same =
      select-update_where (λ s. s.user_id == other)
        (λ s. s.id == session_id && s.user_id == current_user.id && not s.is_revoked)
        (revoke fresh.now) db.sessions (λ s h. (ground arith, ground arith)) in
    elim (Bool-cases (
      ltb 0 (
        length (
          select (λ s. s.id == session_id && s.user_id == current_user.id && not s.is_revoked)
            db.sessions)))) [ inl hit ↦ rw hit same | inr miss ↦ rw miss refl ]
