-- ===== src/Categories/Forest.antt =====
-- Chains of parents end: a rank that falls from a category to its parent, and the ancestors that
-- the recursive query finds.
use Prim.Native.Nat.{zero, suc}
use kupio_backend.Base.{
  ℕ, ◌<◌, ◌≡◌, refl, ◌∙◌, ap, inl, inr, Option, none, some, List, [], ◌∷◌, arith, ◌==◌, Bool-cases,
  Option-cases,
}
use kupio_backend.Base.Lists.{All-both, All, All-mono, UniqueBy, select}
use kupio_backend.Models.Categories.{Category}
use kupio_backend.Categories.{ancestor_ids, row_with}

-- The rank of a parent, if there is one, is below a rank.
abbrev pub Rises : (ℕ → ℕ) → Option ℕ → ℕ → Type 0
Rises rank none k = Unit
Rises rank (some p) k = rank p < k

-- Every parent ranks below its child: no chain of parents comes back.
abbrev pub IsRanked : (ℕ → ℕ) → List Category → Type 0
IsRanked rank = All (λ c. Rises rank c.parent_id (rank c.id))

-- A table with such a rank has no cycle of parents.
abbrev pub IsForest : List Category → Type 0
IsForest cs = (rank : ℕ → ℕ) × IsRanked rank cs

-- Where keys are unique, a search by a row's key finds the row.
pub found_by_key :
    (xs : List Category) → UniqueBy (λ c. c.id) xs → All (λ c. row_with c.id xs ≡ some c) xs
unfolding select
found_by_key [] h = tt
found_by_key (x ∷ xs) h = (
  ground arith,
  All-mono xs (λ c k. let (other, found) = k in ground arith)
      (All-both _ _ xs h.0 (found_by_key xs h.1)),
)

Rises-some :
    (rank : ℕ → ℕ) (o : Option ℕ) (p x : ℕ) → o ≡ some p → Rises rank o (rank x) → rank p < rank x
Rises-some rank none p x e h = cc
Rises-some rank (some q) p x e h = let same : q ≡ p = ground arith in rw (← same) h

pub parent_ranked :
    (rank : ℕ → ℕ) (cs : List Category) (x : ℕ) (c : Category) (p : ℕ)
    → IsRanked rank cs
    → row_with x cs ≡ some c
    → c.parent_id ≡ some p
    → rank p < rank x
unfolding select
parent_ranked rank (d ∷ cs) x c p h found up = elim (Bool-cases (d.id == x)) [
  | inl hit ↦
      let one : d ≡ c = ground arith in
      let same : d.id ≡ x = ground arith in
      let above : d.parent_id ≡ some p = ap (λ y. y.parent_id) one ∙ up in
      rw (← same) (Rises-some rank d.parent_id p d.id above h.0)
  | inr miss ↦ parent_ranked rank cs x c p h.1 (ground arith) up
]
parent_ranked rank [] x c p h found up = cc

-- Any two heights above the rank of a category give the same ancestors.
pub ancestor_ids-enough :
    (rank : ℕ → ℕ) (cs : List Category) (height height' x : ℕ)
    → IsRanked rank cs
    → rank x < height
    → rank x < height'
    → ancestor_ids height cs x ≡ ancestor_ids height' cs x
unfolding ancestor_ids
ancestor_ids-enough rank cs zero height' x h low low' = absurd (omega (arith, low))
ancestor_ids-enough rank cs (suc height) zero x h low low' = absurd (omega (arith, low'))
ancestor_ids-enough rank cs (suc height) (suc height') x h low low' =
    elim (Option-cases (row_with x cs)) [
      | inl missing ↦ rw missing refl
      | inr (c, found) ↦ rw found (
          ap (λ ids. c.id ∷ ids)
            (elim (Option-cases c.parent_id) [
              | inl root ↦ rw root refl
              | inr (p, up) ↦
                  let below = parent_ranked rank cs x c p h found up in
                  rw up (
                    ancestor_ids-enough rank cs height height' p h (omega (arith, below))
                      (omega (arith, below)))
            ]))
    ]
