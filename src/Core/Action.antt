-- ===== src/Core/Action.antt =====
-- src/core/database/uow.py. A request works in one database session: what it has flushed stands in
-- `working`, what it has committed in `committed`. A body may raise, and keeps the session.
use kupio_backend.Base.{⊤, Bool, true, false, Option, none, some}
use kupio_backend.Models.{Database}
use kupio_backend.Core.Errors.{Error, integrity_error}

pub data Result {ℓ} (A : Type ℓ) : Type ℓ where
  ok : A → Result A
  err : Error → Result A

pub record DbSession : Type 0 where
  pub committed : Database
  pub working : Database

-- A session that has just been opened.
abbrev pub opened : Database → DbSession
opened db = record { committed = db; working = db }

abbrev pub Action {ℓ} : Type ℓ → Type ℓ
Action A = DbSession → Result A × DbSession

module _ {ℓ} {A : Type ℓ} where
  abbrev pub pure : A → Action A
  pure a s = (ok a, s)

  -- A computation that does not touch the database
  abbrev pub lift : Result A → Action A
  lift r s = (r, s)

  abbrev pub raise : Error → Action A
  raise e s = (err e, s)

  -- `if … is None: raise …`
  abbrev pub or_raise : Option A → Error → Action A
  or_raise none e s = (err e, s)
  or_raise (some a) e s = (ok a, s)

abbrev pub raise_if : Bool → Error → Action ⊤
raise_if true e s = (err e, s)
raise_if false e s = (ok tt, s)

module _ {ℓ κ} {A : Type ℓ} {B : Type κ} where
  abbrev pub continue : Result A → (A → Action B) → Action B
  continue (ok a) f s = f a s
  continue (err e) f s = (err e, s)

  infixl 10 ◌>>=◌ ◌>>◌
  abbrev pub ◌>>=◌ : Action A → (A → Action B) → Action B
  ◌>>=◌ m f s = let (r, s') = m s in continue r f s'

  abbrev pub ◌>>◌ : Action A → Action B → Action B
  m >> n = m >>= λ _. n

abbrev pub commit : DbSession → DbSession
commit s = record { committed = s.working; working = s.working }

abbrev pub rollback : DbSession → DbSession
rollback s = record { committed = s.committed; working = s.committed }

-- `UoW.__aexit__`: roll back and raise on, or commit.
abbrev pub aexit {ℓ} : {A : Type ℓ} → Result A × DbSession → Result A × DbSession
aexit (err e, s) = (err e, rollback s)
aexit (ok a, s) = (ok a, commit s)

-- `async with self.uow: body`
unfoldable pub in_uow {ℓ} : {A : Type ℓ} → Action A → Action A
in_uow body s = aexit (body s)

-- `try: body except IntegrityError: handler`
abbrev pub handle_integrity_error {ℓ} :
    {A : Type ℓ} → Action A → Result A × DbSession → Result A × DbSession
handle_integrity_error handler (err integrity_error, s) = handler s
handle_integrity_error handler (err e, s) = (err e, s)
handle_integrity_error handler (ok a, s) = (ok a, s)

abbrev pub except_integrity_error {ℓ} : {A : Type ℓ} → Action A → Action A → Action A
except_integrity_error body handler s = handle_integrity_error handler (body s)
