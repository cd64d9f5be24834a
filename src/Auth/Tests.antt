-- ===== src/Auth/Tests.antt =====
-- A user with one session, and the theorems on it. The stand-ins for hashes and tokens are arithmetic.
use kupio_backend.Base.{ℕ, ◌+◌, ◌≡◌, refl, ◌≢◌, true, false, none, some, [], ◌∷◌, arith, ◌==◌}
use kupio_backend.Base.Int.{pos}
use kupio_backend.Base.Lists.{select, update_where, some_row}
use kupio_backend.Models.{Database, empty}
use kupio_backend.Models.Users.{User, user}
use kupio_backend.Models.Auth.{Session}
use kupio_backend.Core.Errors.{invalid_refresh_token, integrity_error, attribute_error}
use kupio_backend.Core.Repository
use kupio_backend.Core.Action.{ok, err, opened, in_uow}
use kupio_backend.Users
use kupio_backend.Auth.{
  Crypto, AuthConfig, Fresh, TokensResponse, login, login_found, relogin, refresh, refresh_found,
  rotate, issue_token_pair, logout, register, sign_up, change_password, check_and_replace,
  replace_password, password_fits,
}
use kupio_backend.Auth.Rows.{
  get_active_by_token_and_device, create_session, revoke_by_id, revoke_active_for_device,
  revoke_all_by_user_id,
}
use kupio_backend.Auth.Exclusive.{IsExclusive}
use kupio_backend.Auth.Login.{EndsExclusive, login-EndsExclusive}
use kupio_backend.Auth.Rotation.{refresh-refresh, refresh_of_banned_user}
use kupio_backend.Auth.Passwords.{IsReplaced, change_password-IsReplaced}
use kupio_backend.Auth.Logout.{logout-refresh}
use kupio_backend.Auth.Register.{register_of_deleted_email}

abbrev crypto : Crypto
crypto = record {
  hash_password = λ salt password. password + 1;
  verify_password = λ password hash. hash == password + 1;
  hash_refresh_token = λ token. token + 2;
  encode_access_token = λ user_id expires_at jti device_id. jti;
}

abbrev config : AuthConfig
config = record { access_ttl = 15; refresh_ttl = 7 }

abbrev first : Fresh
first = record { now = 1000; jti = 5; refresh_token = 80; session_id = 41; user_id = 2; salt = 0 }

abbrev later : Fresh
later = record { now = 2000; jti = 6; refresh_token = 81; session_id = 42; user_id = 3; salt = 0 }

abbrev anna : User
anna = record {
  id = 1;
  username = some 11;
  email = 12;
  display_name = none;
  phone = none;
  password_hash = some 14;
  role = user;
  balance = pos 0;
  avatar_image_id = none;
  deleted_at = none;
}

abbrev banned : User
banned = record anna { deleted_at = some 900 }

abbrev on_phone : Session
on_phone = record {
  id = 40;
  user_id = 1;
  token_hash = 72;
  device_id = 9;
  expires_at = 5000;
  last_used_at = 0;
  is_revoked = false;
}

abbrev home : Database
home = record empty { users = anna ∷ []; sessions = on_phone ∷ [] }

abbrev abandoned : Database
abandoned = record empty { users = banned ∷ []; sessions = on_phone ∷ [] }

home-IsExclusive : IsExclusive 1000 home.sessions
home-IsExclusive = (tt, tt)

abbrev logged_in : TokensResponse
logged_in = record {
  access_token = 5;
  refresh_token = 80;
  access_expires_at = 1900;
  refresh_expires_at = 605800;
  needs_username = false;
}

login-EndsExclusive_example :
    EndsExclusive crypto config first (login crypto config first 12 13 9 (opened home))
login-EndsExclusive_example = login-EndsExclusive crypto config first 12 13 9 home home-IsExclusive

login_works : (login crypto config first 12 13 9 (opened home)).0 ≡ ok logged_in
unfolding login login_found Users.get_by_email Repository.get select in_uow relogin
    revoke_active_for_device Repository.update issue_token_pair create_session Repository.add
    some_row update_where
login_works = refl

refresh_works : (refresh crypto config first 70 9 (opened home)).0 ≡ ok logged_in
unfolding refresh refresh_found get_active_by_token_and_device Users.get_by_id Repository.get select
    in_uow rotate revoke_by_id Repository.update issue_token_pair create_session Repository.add
    some_row update_where
refresh_works = refl

refresh-refresh_example :
    let db' = (refresh crypto config first 70 9 (opened home)).1.committed in
    refresh crypto config later 70 9 (opened db') ≡ (err invalid_refresh_token, opened db')
refresh-refresh_example =
    refresh-refresh crypto config first later 70 9 9 home logged_in (tt, tt) (omega arith)
      refresh_works

refresh_of_banned_user_example :
    refresh crypto config first 70 9 (opened abandoned) ≡ (err attribute_error, opened abandoned)
refresh_of_banned_user_example =
    refresh_of_banned_user crypto config first 70 9 abandoned on_phone (tt, tt)
      (unfold select in refl) (unfold select in refl)

change_works : (change_password crypto config first anna 13 15 9 (opened home)).0 ≡ ok logged_in
unfolding change_password check_and_replace replace_password Users.update_password Users.get_by_id
    Repository.update_only Repository.get select in_uow revoke_all_by_user_id
    Repository.update_count issue_token_pair create_session Repository.add some_row update_where
change_works = refl

change_password-IsReplaced_example :
    (password_fits crypto config first 13 (some anna) ≡ true)
    × (◌≢◌ {A = ℕ} 13 15)
    × IsReplaced crypto config first anna 15 9 home
        (change_password crypto config first anna 13 15 9 (opened home)).1.committed
change_password-IsReplaced_example =
    change_password-IsReplaced crypto config first anna 13 15 9 home logged_in (omega arith)
      change_works

logout-refresh_example :
    let (r, s) = logout crypto config first 70 (opened home) in
    (r ≡ ok tt)
    × (refresh crypto config later 70 9 (opened s.committed)
        ≡ (err invalid_refresh_token, opened s.committed))
logout-refresh_example = logout-refresh crypto config first later 70 9 home (tt, tt) (tt, tt)

register_of_deleted_email_example :
    register crypto config first 12 21 22 9 (opened abandoned)
    ≡ (err integrity_error, opened abandoned)
register_of_deleted_email_example =
    register_of_deleted_email crypto config first 12 21 22 9 abandoned (unfold some_row in refl)
      (unfold select in refl) (unfold select in refl)

register_works : (register crypto config first 20 21 22 9 (opened home)).0 ≡ ok logged_in
unfolding register sign_up Users.get_by_email Users.get_by_username Users.create Repository.get
    select in_uow issue_token_pair create_session Repository.add some_row
register_works = refl
