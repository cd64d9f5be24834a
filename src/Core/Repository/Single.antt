-- ===== src/Core/Repository/Single.antt =====
-- A statement whose test fixes a unique key touches one row at most.
use kupio_backend.Base.{
  ℕ, ◌≡◌, ◌≢◌, refl, inl, inr, Bool, true, Option, none, some, List, [], ◌∷◌, map, Bool-cases,
}
use kupio_backend.Base.Lists.{All, UniqueBy, select}
use kupio_backend.Core.Action.{ok}
use kupio_backend.Core.Repository.{Model, scalar_one_or_none}

module _ {R : Type 0} (key : R → ℕ) (p : R → Bool) (k : ℕ)
    (fixes : (r : R) → p r ≡ true → key r ≡ k) where
  none_other : (rs : List R) → All (λ r. key r ≢ k) rs → select p rs ≡ []
  unfolding select
  none_other [] h = refl
  none_other (r ∷ rs) h = elim (Bool-cases (p r)) [
    | inl t ↦ absurd (h.0 (fixes r t))
    | inr t ↦ rw t (none_other rs h.1)
  ]

  moved_key : (rs : List R) (j : ℕ) → j ≡ k → All (λ r. key r ≢ j) rs → All (λ r. key r ≢ k) rs
  moved_key rs j e h = rw e at h

  pub scalar-select :
      (m : Model R) (f : R → R) (rs : List R)
      → UniqueBy key rs
      → (o : Option R) × (scalar_one_or_none m (map f (select p rs)) ≡ ok o)
  unfolding select
  scalar-select m f [] h = (none, refl)
  scalar-select m f (r ∷ rs) h = elim (Bool-cases (p r)) [
    | inl t ↦ (some (f r), rw (t, none_other rs (moved_key rs (key r) (fixes r t) h.0)))
    | inr t ↦ let (o, e) = scalar-select m f rs h.1 in (o, rw t e)
  ]
