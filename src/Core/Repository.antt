-- ===== src/Core/Repository.antt =====
-- src/core/database/base_repository.py: the statements that `BaseRepository` builds, on the rows of a
-- table. A statement with no ORDER BY is taken to return its rows in table order; no modelled
-- operation depends on which order that is, where at most one row can fit.
pub mod Insert
pub mod Single
use kupio_backend.Base.{
  ℕ, ⊤, Bool, true, false, not, Option, none, some, List, [], ◌∷◌, ◌++◌, map, ltb, if◌then◌else◌,
}
use kupio_backend.Base.Lists.{length, head?, select, update_where, some_row}
use kupio_backend.Models.{Database}
use kupio_backend.Core.Errors.{integrity_error, multiple_results_found}
use kupio_backend.Core.Action.{Result, ok, err, Action, DbSession, ◌>>=◌, pure}

-- A mapped class: its table, its `deleted_at` test if it has `SoftDeleteMixin` (none is deleted
-- otherwise), how `deleted_at` is set, and which two rows break one of its unique constraints.
pub record Model (R : Type 0) : Type 0 where
  pub rows : Database → List R
  pub with_rows : List R → Database → Database
  pub is_deleted : R → Bool
  pub delete_at : ℕ → R → R
  pub conflicts : R → R → Bool

abbrev pub write : (Database → Database) → DbSession → DbSession
write f s = record s { working = f s.working }

module _ {R : Type 0} (m : Model R) where
  abbrev pub fits : (R → Bool) → R → Bool
  fits p r = if m.is_deleted r then false else p r

  unfoldable pub get : (R → Bool) → Action (Option R)
  get p s = (ok (head? (select (fits p) (m.rows s.working))), s)

  unfoldable pub get_many : (R → Bool) → Action (List R)
  get_many p s = (ok (select (fits p) (m.rows s.working)), s)

  -- INSERT … RETURNING: refused if a row of the table breaks a constraint with the new one.
  unfoldable pub add : R → Action R
  add r s =
      if some_row (m.conflicts r) (m.rows s.working)
      then (err integrity_error, s)
      else (ok r, write (λ db. m.with_rows (m.rows db ++ r ∷ []) db) s)

  abbrev pub set_rows : (R → Bool) → (R → R) → DbSession → DbSession
  set_rows p f = write (λ db. m.with_rows (update_where p f (m.rows db)) db)

  -- `scalar_one_or_none` of the rows that come back
  abbrev pub scalar_one_or_none : List R → Result (Option R)
  scalar_one_or_none [] = ok none
  scalar_one_or_none (r ∷ []) = ok (some r)
  scalar_one_or_none (r ∷ r' ∷ rest) = err multiple_results_found

  -- `_update` with some columns to set
  unfoldable pub update : (R → Bool) → (R → R) → Action (Option R)
  update p f s = (scalar_one_or_none (map f (select p (m.rows s.working))), set_rows p f s)

  abbrev pub has_clash : List R → Bool
  has_clash [] = false
  has_clash (r ∷ rs) = if some_row (m.conflicts r) rs then true else has_clash rs

  -- `_update` of a unique column: refused if two rows of the table would break a constraint
  unfoldable pub update_checked : (R → Bool) → (R → R) → Action (Option R)
  unfolding update
  update_checked p f s =
      if has_clash (update_where p f (m.rows s.working))
      then (err integrity_error, s)
      else update p f s

  -- `_update(…, load_result=False)`
  unfoldable pub update_only : (R → Bool) → (R → R) → Action ⊤
  update_only p f s = (ok tt, set_rows p f s)

  -- The same for a unique column
  unfoldable pub update_only_checked : (R → Bool) → (R → R) → Action ⊤
  unfolding update_only
  update_only_checked p f s =
      if has_clash (update_where p f (m.rows s.working))
      then (err integrity_error, s)
      else update_only p f s

  -- `session.execute(update(…))`, with its row count
  unfoldable pub update_count : (R → Bool) → (R → R) → Action ℕ
  update_count p f s = (ok (length (select p (m.rows s.working))), set_rows p f s)

  -- `_soft_delete(…, return_rowcount=True)`
  unfoldable pub soft_delete_count : ℕ → (R → Bool) → Action ℕ
  unfolding update_count
  soft_delete_count now p = update_count (fits p) (m.delete_at now)

  unfoldable pub soft_delete : ℕ → (R → Bool) → Action Bool
  unfolding soft_delete_count
  soft_delete now p = do n ← soft_delete_count now p; pure (ltb 0 n)

  unfoldable pub delete : (R → Bool) → Action Bool
  delete p s = (
    ok (some_row p (m.rows s.working)),
    write (λ db. m.with_rows (select (λ r. not (p r)) (m.rows db)) db) s,
  )
