-- ===== src/Categories/Moves.antt =====
-- update_category keeps the categories a forest.
use Prim.Native.Nat.{zero, suc}
use kupio_backend.Base.{
  ℕ, ◌+◌, ◌<◌, ◌≡◌, ◌≢◌, refl, sym, ◌∙◌, ap, inl, inr, ◌⊎◌, Bool, true, false, Option, none, some,
  List, ◌∷◌, arith, ◌==◌, Bool-cases, if◌then◌else◌,
}
use kupio_backend.Base.Lists.{All-both, All, All-update_where, UniqueBy, update_where, some_row}
use kupio_backend.Models.Categories.{Category}
use kupio_backend.Categories.{ancestor_ids, row_with}
use kupio_backend.Categories.Forest.{
  Rises, IsRanked, found_by_key, ancestor_ids-enough, parent_ranked,
}

module _ (rank : ℕ → ℕ) (height : ℕ) (cs : List Category) (ranked : IsRanked rank cs) where
  abbrev pub is_under : ℕ → ℕ → Bool
  is_under u x = some_row (λ i. i == u) (ancestor_ids height cs x)

  ancestors_of_child :
      (n : ℕ) (c : Category) (q : ℕ)
      → row_with c.id cs ≡ some c
      → c.parent_id ≡ some q
      → ancestor_ids (suc n) cs c.id ≡ c.id ∷ ancestor_ids n cs q
  unfolding ancestor_ids
  ancestors_of_child n c q found up = rw (found, up) refl

  is_under-parent :
      (n : ℕ) (u : ℕ) (c : Category) (q : ℕ)
      → n ≡ height
      → rank c.id < n
      → row_with c.id cs ≡ some c
      → c.parent_id ≡ some q
      → c.id ≢ u
      → is_under u c.id ≡ is_under u q
  unfolding some_row
  is_under-parent zero u c q same low found up other = absurd (omega (arith, low))
  is_under-parent (suc n) u c q same low found up other =
      let below = parent_ranked rank cs c.id c q ranked found up in
      let enough =
        ancestor_ids-enough rank cs n (suc n) q ranked (omega (arith, below, low))
          (omega (arith, below, low)) in
      let chain = ancestors_of_child n c q found up ∙ ap (λ ids. c.id ∷ ids) enough in
      rw (← same) (ap (λ ids. some_row (λ i. i == u) ids) chain ∙ ground arith)

  is_under_itself :
      (n : ℕ) (c : Category)
      → n ≡ height
      → rank c.id < n
      → row_with c.id cs ≡ some c
      → is_under c.id c.id ≡ true
  unfolding some_row ancestor_ids
  is_under_itself zero c same low found = absurd (omega (arith, low))
  is_under_itself (suc n) c same low found = rw (← same) (rw found (ground arith))

  -- The rank after the subtree of a category has moved under a parent
  abbrev pub moved : ℕ → ℕ → ℕ → ℕ
  moved u p x = if is_under u x then rank x + suc (rank p) else rank x

  moved-child :
      (u p : ℕ) (c : Category) (o : Option ℕ)
      → rank c.id < height
      → row_with c.id cs ≡ some c
      → c.parent_id ≡ o
      → c.id ≢ u
      → Rises rank o (rank c.id)
      → Rises (moved u p) o (moved u p c.id)
  moved-child u p c none low found up other h = tt
  moved-child u p c (some q) low found up other h =
      let same = is_under-parent height u c q refl low found up other in ground (arith, same, h)

  -- A category may move under any category that is not under it.
  pub moved-IsRanked :
      (u p : ℕ) (f : Category → Category)
      → ((c : Category) → ((f c).id ≡ c.id) × ((f c).parent_id ≡ some p))
      → UniqueBy (λ c. c.id) cs
      → All (λ c. rank c.id < height) cs
      → is_under u p ≡ false
      → IsRanked (moved u p) (update_where (λ c. c.id == u) f cs)
  moved-IsRanked u p f moves unique low apart =
      All-update_where _ _ _ cs
        (λ c k.
          let (below, rest) = k in
          let (found, up) = rest in
          elim (Bool-cases (c.id == u)) [
            | inl hit ↦
                let (same_id, new) = moves c in
                let same : c.id ≡ u = ground arith in
                let self =
                  ap (λ v. is_under v c.id) (sym same)
                  ∙ is_under_itself height c refl below found in
                rw hit (rw (same_id, new) (ground (arith, self, apart)))
            | inr miss ↦ rw miss (moved-child u p c c.parent_id below found refl (ground arith) up)
          ])
        (All-both _ _ cs low (All-both _ _ cs (found_by_key cs unique) ranked))

  -- A category whose parent goes, or stays, keeps its rank.
  pub kept-IsRanked :
      (u : ℕ) (f : Category → Category)
      → ((c : Category)
          → row_with c.id cs ≡ some c
          → c.id ≡ u
          → ((f c).id ≡ c.id) × (((f c).parent_id ≡ none) ⊎ ((f c).parent_id ≡ c.parent_id)))
      → UniqueBy (λ c. c.id) cs
      → IsRanked rank (update_where (λ c. c.id == u) f cs)
  kept-IsRanked u f keeps unique =
      All-update_where _ _ _ cs
        (λ c k.
          let (found, up) = k in
          elim (Bool-cases (c.id == u)) [
            | inl hit ↦
                let (same_id, parent) = keeps c found (ground arith) in
                rw hit
                  (rw same_id (elim parent [ inl gone ↦ rw gone tt | inr stays ↦ rw stays up ]))
            | inr miss ↦ rw miss up
          ])
        (All-both _ _ cs (found_by_key cs unique) ranked)
