-- ===== src/Core/Transactions.antt =====
-- What `async with uow` promises of a body that does not commit by itself.
use kupio_backend.Base.{◌≡◌, refl}
use kupio_backend.Models.{Database}
use kupio_backend.Core.Errors.{Error}
use kupio_backend.Core.Action.{
  Result, ok, err, DbSession, opened, Action, aexit, in_uow, continue, ◌>>=◌,
}

module _ {A : Type 0} where
  aexit-err :
      (r : Result A) (s : DbSession) (e : Error)
      → r ≡ err e
      → aexit (r, s) ≡ (err e, opened s.committed)
  aexit-err (ok a) s e h = cc
  aexit-err (err e') s e h = cc

  aexit-holds :
      (P : Database → Type 0) (r : Result A) (s : DbSession)
      → P s.committed
      → ((a : A) → r ≡ ok a → P s.working)
      → P (aexit (r, s)).1.committed
  aexit-holds P (ok a) s old new = new a refl
  aexit-holds P (err e) s old new = old

  -- A transaction whose body raises an error raises that error, and leaves the database as it was
  -- last committed, whatever the body has written.
  pub in_uow-err :
      (body : Action A) (s : DbSession) (e : Error)
      → (body s).0 ≡ err e
      → in_uow body s ≡ (err e, opened (body s).1.committed)
  unfolding in_uow
  in_uow-err body s e h = aexit-err (body s).0 (body s).1 e h

  -- To prove a property of what a transaction commits, suppose that its body returned.
  pub in_uow-holds :
      (P : Database → Type 0) (body : Action A) (db : Database)
      → (body (opened db)).1.committed ≡ db
      → P db
      → ((a : A) → (body (opened db)).0 ≡ ok a → P (body (opened db)).1.working)
      → P (in_uow body (opened db)).1.committed
  unfolding in_uow
  in_uow-holds P body db local old new =
      aexit-holds P (body (opened db)).0 (body (opened db)).1 (rw local old) new

module _ {A B : Type 0} where
  continue-holds :
      (P : Database → Type 0) (r : Result A) (f : A → Action B) (db : Database)
      → P db
      → ((a : A) → r ≡ ok a → P (f a (opened db)).1.committed)
      → P (continue r f (opened db)).1.committed
  continue-holds P (ok a) f db old new = new a refl
  continue-holds P (err e) f db old new = old

  -- A first part that only reads is passed over.
  pub read-holds :
      (P : Database → Type 0) (m : Action A) (f : A → Action B) (db : Database)
      → (m (opened db)).1 ≡ opened db
      → P db
      → ((a : A) → (m (opened db)).0 ≡ ok a → P (f a (opened db)).1.committed)
      → P ((m >>= f) (opened db)).1.committed
  read-holds P m f db same old new = rw same (continue-holds P (m (opened db)).0 f db old new)

  continue-cases :
      (P : Result B × DbSession → Type 0) (r : Result A) (f : A → Action B) (db : Database)
      → ((e : Error) → P (err e, opened db))
      → ((a : A) → r ≡ ok a → P (f a (opened db)))
      → P (continue r f (opened db))
  continue-cases P (ok a) f db failed went = went a refl
  continue-cases P (err e) f db failed went = failed e

  -- A first part that only reads ends the request with its error, or hands on what it has read.
  pub read-cases :
      (P : Result B × DbSession → Type 0) (m : Action A) (f : A → Action B) (db : Database)
      → (m (opened db)).1 ≡ opened db
      → ((e : Error) → P (err e, opened db))
      → ((a : A) → (m (opened db)).0 ≡ ok a → P (f a (opened db)))
      → P ((m >>= f) (opened db))
  read-cases P m f db same failed went =
      rw same (continue-cases P (m (opened db)).0 f db failed went)

module _ {A : Type 0} where
  aexit-cases :
      (P : Result A × DbSession → Type 0) (r : Result A) (s : DbSession)
      → ((e : Error) → P (err e, opened s.committed))
      → ((a : A) → r ≡ ok a → P (ok a, opened s.working))
      → P (aexit (r, s))
  aexit-cases P (ok a) s failed went = went a refl
  aexit-cases P (err e) s failed went = failed e

  pub in_uow-cases :
      (P : Result A × DbSession → Type 0) (body : Action A) (db : Database)
      → (body (opened db)).1.committed ≡ db
      → ((e : Error) → P (err e, opened db))
      → ((a : A) → (body (opened db)).0 ≡ ok a → P (ok a, opened (body (opened db)).1.working))
      → P (in_uow body (opened db))
  unfolding in_uow
  in_uow-cases P body db local failed went =
      aexit-cases P (body (opened db)).0 (body (opened db)).1 (rw local failed) went

  -- A transaction that returns has committed what its body wrote.
  pub aexit-ok :
      (q : Result A × DbSession) (a : A)
      → (aexit q).0 ≡ ok a
      → (q.0 ≡ ok a) × (aexit q ≡ (ok a, opened q.1.working))
  aexit-ok (ok b, s) a h = (h, rw h refl)
  aexit-ok (err e, s) a h = cc

module _ {A B : Type 0} where
  aexit_then-ok :
      (q : Result A × DbSession) (f : A → Action B) (b : B)
      → (continue (aexit q).0 f (aexit q).1).0 ≡ ok b
      → (a : A) × (q.0 ≡ ok a) × (continue (aexit q).0 f (aexit q).1 ≡ f a (opened q.1.working))
  aexit_then-ok (ok a, s) f b h = (a, refl, refl)
  aexit_then-ok (err e, s) f b h = cc

  -- A request that returns after a transaction has committed what the body wrote.
  pub in_uow_then-ok :
      (body : Action A) (f : A → Action B) (s : DbSession) (b : B)
      → ((in_uow body >>= f) s).0 ≡ ok b
      → (a : A) × ((body s).0 ≡ ok a) × ((in_uow body >>= f) s ≡ f a (opened (body s).1.working))
  unfolding in_uow
  in_uow_then-ok body f s b h = aexit_then-ok (body s) f b h

  aexit_then-holds :
      (P : Database → Type 0) (q : Result A × DbSession) (f : A → Action B)
      → ((a : A) (s : DbSession) → (f a s).1 ≡ s)
      → P q.1.committed
      → ((a : A) → q.0 ≡ ok a → P q.1.working)
      → P (continue (aexit q).0 f (aexit q).1).1.committed
  aexit_then-holds P (ok a, s) f reads old new = rw (reads a) (new a refl)
  aexit_then-holds P (err e, s) f reads old new = old

  -- So does a transaction that is followed by a query, for a property of what is committed.
  pub in_uow_then-holds :
      (P : Database → Type 0) (body : Action A) (f : A → Action B) (db : Database)
      → ((a : A) (s : DbSession) → (f a s).1 ≡ s)
      → (body (opened db)).1.committed ≡ db
      → P db
      → ((a : A) → (body (opened db)).0 ≡ ok a → P (body (opened db)).1.working)
      → P ((in_uow body >>= f) (opened db)).1.committed
  unfolding in_uow
  in_uow_then-holds P body f db reads local old new =
      aexit_then-holds P (body (opened db)) f reads (rw local old) new
