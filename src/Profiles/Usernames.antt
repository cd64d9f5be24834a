-- ===== src/Profiles/Usernames.antt =====
-- What `set_username` does on every branch.
use kupio_backend.Base.{
  ℕ, ◌≡◌, refl, inl, inr, ◌⊎◌, false, Option, none, some, List, ◌==◌, Bool-cases, Option-cases,
  holds,
}
use kupio_backend.Base.Lists.{update_where, head?, select}
use kupio_backend.Models.{Database}
use kupio_backend.Models.Users.{User}
use kupio_backend.Core.Errors.{user_username_conflict, username_already_set}
use kupio_backend.Core.Action.{Result, DbSession, err, opened, in_uow}
use kupio_backend.Core.Repository
use kupio_backend.Core.Repository.{fits, has_clash}
use kupio_backend.Users
use kupio_backend.Profiles.{set_username, update_username, is_other}

module _ (current_user : User) (username : ℕ) (db : Database) where
  abbrev pub named : List User
  named =
      update_where (λ u. u.id == current_user.id) (λ u. record u { username = some username })
        db.users

  abbrev holder : Option User
  holder = head? (select (fits Users.users (λ u. holds u.username username)) db.users)

  -- The username was refused with one of two errors, and nothing has changed; or the user had none,
  -- no two rows of the table share a unique column, and the user's row has the username.
  abbrev pub EndsNamed : Result (Option User) × DbSession → Type 0
  EndsNamed q =
      (q ≡ (err username_already_set, opened db))
      ⊎ ((q ≡ (err user_username_conflict, opened db))
          ⊎ ((current_user.username ≡ none)
              × (has_clash Users.users named ≡ false)
              × (q.1 ≡ opened (record db { users = named }))))

  -- Choosing a username ends in one of three ways: it is refused with UsernameAlreadySetError or
  -- with UserUsernameConflictError and nothing changes, whichever rows clash; or the user had none,
  -- the user's row gets it as the only change, and no unique column has a value twice.
  pub set_username-EndsNamed : EndsNamed (set_username current_user username (opened db))
  unfolding set_username Users.get_by_username Repository.get update_username in_uow
      Repository.update_only_checked Repository.update_only Users.get_by_id
  set_username-EndsNamed = elim (Option-cases current_user.username) [
    | inr (old, chosen) ↦ rw chosen (inl refl)
    | inl free ↦ rw free (elim (Bool-cases (is_other current_user holder)) [
      | inl taken ↦ rw taken (inr (inl refl))
      | inr mine ↦ rw mine (elim (Bool-cases (has_clash Users.users named)) [
        | inl clash ↦ rw clash (inr (inl refl))
        | inr apart ↦ rw apart (inr (inr (refl, refl, refl)))
      ])
    ])
  ]
