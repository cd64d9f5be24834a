-- ===== src/Auth/Register.antt =====
-- src/domains/auth/service.py, register: the unique columns and the deleted users.
use kupio_backend.Base.{
  inl, inr, ◌++◌, ℕ, ◌≡◌, refl, Bool, true, false, none, some, [], ◌∷◌, arith, ◌==◌, holds,
  Bool-cases,
}
use kupio_backend.Base.Lists.{select, some_row, head?, some_row_mono}
use kupio_backend.Models.{Database}
use kupio_backend.Models.Users.{User}
use kupio_backend.Core.Errors.{integrity_error}
use kupio_backend.Core.Action.{ok, err, opened, in_uow}
use kupio_backend.Core.Transactions.{aexit-ok}
use kupio_backend.Core.Repository
use kupio_backend.Users
use kupio_backend.Auth.{Crypto, AuthConfig, Fresh, TokensResponse, register, sign_up}

-- A user row has the email, deleted or not.
abbrev pub in_table : ℕ → Database → Bool
in_table email db = some_row (λ u. u.email == email) db.users

module _ (crypto : Crypto) (config : AuthConfig) (fresh : Fresh) where
  -- Where only deleted users have an email, and no user that is not deleted has the username, the
  -- email can't be registered again: the checks pass, and the INSERT breaks the unique constraint,
  -- which no handler turns into EmailAlreadyTakenError. Nothing changes.
  pub register_of_deleted_email :
      (email username password device_id : ℕ) (db : Database)
      → in_table email db ≡ true
      → head? (select (Repository.fits Users.users (λ u. u.email == email)) db.users) ≡ none
      → head? (select (Repository.fits Users.users (λ u. holds u.username username)) db.users)
        ≡ none
      → register crypto config fresh email username password device_id (opened db)
        ≡ (err integrity_error, opened db)
  unfolding register in_uow sign_up Users.get_by_email Users.get_by_username Users.create
      Repository.get Repository.add
  register_of_deleted_email email username password device_id db there gone free =
      let refused =
        some_row_mono (λ u. u.email == email)
          (Users.users.conflicts (
            Users.new_user fresh.user_id email (some username)
              (some (crypto.hash_password fresh.salt password))))
          db.users (λ u h. ground arith) there in
      rw (gone, free, refused) refl

  abbrev pub registered : ℕ → ℕ → ℕ → User
  registered email username password =
      Users.new_user fresh.user_id email (some username)
        (some (crypto.hash_password fresh.salt password))

  clash_of_email :
      (email username password : ℕ) (db : Database)
      → some_row (Users.users.conflicts (registered email username password)) db.users ≡ false
      → in_table email db ≡ false
  clash_of_email email username password db h = elim (Bool-cases (in_table email db)) [
    | inl there ↦
        let refused =
          some_row_mono (λ u. u.email == email)
            (Users.users.conflicts (registered email username password)) db.users
            (λ u e. ground arith) there in
        absurd (ground arith)
    | inr free ↦ free
  ]

  sign_up-ok :
      (email username password device_id : ℕ) (db : Database) (r : TokensResponse)
      → (sign_up crypto config fresh email username password device_id (opened db)).0 ≡ ok r
      → (some_row (Users.users.conflicts (registered email username password)) db.users ≡ false)
        × ((sign_up crypto config fresh email username password device_id (opened db)).1.committed
            ≡ db)
        × ((sign_up crypto config fresh email username password device_id
              (opened db)).1.working.users
            ≡ db.users ++ registered email username password ∷ [])
  unfolding sign_up Users.get_by_email Users.get_by_username Users.create Repository.get
      Repository.add
  sign_up-ok email username password device_id db r h = (ground arith, ground arith, ground arith)

  -- A registration that returns tokens adds one user with this email and username, the hash of
  -- this password and a zero balance, and no user, deleted or not, had the email before.
  pub register-ok :
      (email username password device_id : ℕ) (db : Database) (r : TokensResponse)
      → (register crypto config fresh email username password device_id (opened db)).0 ≡ ok r
      → (in_table email db ≡ false)
        × ((register crypto config fresh email username password device_id
              (opened db)).1.committed.users
            ≡ db.users ++ registered email username password ∷ [])
  unfolding register in_uow
  register-ok email username password device_id db r h =
      let went =
        aexit-ok (sign_up crypto config fresh email username password device_id (opened db)) r h in
      let (free, _, new) = sign_up-ok email username password device_id db r went.0 in
      (clash_of_email email username password db free, rw went.1 new)
