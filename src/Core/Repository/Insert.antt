-- ===== src/Core/Repository/Insert.antt =====
-- What an INSERT that is not refused has done.
use kupio_backend.Base.{◌≡◌, inl, inr, false, [], ◌∷◌, ◌++◌, arith, Bool-cases}
use kupio_backend.Base.Lists.{some_row}
use kupio_backend.Core.Action.{ok, DbSession}
use kupio_backend.Core.Repository.{Model, add, write}

module _ {R : Type 0} (m : Model R) (r : R) (s : DbSession) where
  pub add-ok :
      (r' : R)
      → (add m r s).0 ≡ ok r'
      → (add m r s ≡ (ok r, write (λ db. m.with_rows (m.rows db ++ r ∷ []) db) s))
        × (some_row (m.conflicts r) (m.rows s.working) ≡ false)
  unfolding add
  add-ok r' h = elim (Bool-cases (some_row (m.conflicts r) (m.rows s.working))) [
    | inl taken ↦ absurd (ground arith)
    | inr free ↦ (rw free, free)
  ]
