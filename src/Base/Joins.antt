-- ===== src/Base/Joins.antt =====
-- SELECT … FROM a JOIN b WHERE …, and keys that stay unique through it.
use Prim.Native.Nat.{ℕ, suc, ◌+◌}
use mathlib.Core.Path.{◌≡◌, refl, sym, ap, ◌∙◌}
use mathlib.Core.Logic.{◌≢◌, ◌⊎◌, inl, inr}
use mathlib.Core.Bool.{Bool, true, false}
use mathlib.Core.List.{List, [], ◌∷◌, ◌++◌, map}
use native.Mathlib.Omega.{arith}
use kupio_backend.Base.Tests.{Bool-cases}
use kupio_backend.Base.Lists.{
  All, All-mono, All-append, UniqueBy, length, length-append, select, select_none,
}
use kupio_backend.Base.Pairs.{AllPairs}

module _ {A B : Type 0} where
  -- `p` holds what ON and WHERE ask of two rows.
  unfoldable pub join_where : (A → B → Bool) → List A → List B → List (A × B)
  join_where p [] bs = []
  join_where p (a ∷ others) bs = map (λ b. (a, b)) (select (p a) bs) ++ join_where p others bs

-- A test that fixes a unique key finds one row at most.
pub select_one {ℓ} :
    {A : Type ℓ} (key : A → ℕ) (k : ℕ) (p : A → Bool) (xs : List A)
    → ((x : A) → p x ≡ true → key x ≡ k)
    → UniqueBy key xs
    → (select p xs ≡ []) ⊎ ((x : A) × (select p xs ≡ x ∷ []) × (p x ≡ true))
unfolding select
select_one key k p [] fixes h = inl refl
select_one key k p (x ∷ xs) fixes h = elim (Bool-cases (p x)) [
  | inl hit ↦
      let others = select_none p xs (
        All-mono xs
          (λ y ne. elim (Bool-cases (p y)) [
            | inl also ↦ absurd (ne (fixes y also ∙ sym (fixes x hit)))
            | inr miss ↦ miss
          ])
          h.0) in
      inr (x, rw (hit, others) refl, hit)
  | inr miss ↦ rw miss (select_one key k p xs fixes h.1)
]

module _ {A B : Type 0} (p : A → B → Bool) (bs : List B) where
  All-row :
      (Q : A × B → Type 0) (a : A) (ys : List B)
      → ((b : B) → p a b ≡ true → Q (a, b))
      → All Q (map (λ b. (a, b)) (select (p a) ys))
  unfolding select
  All-row Q a [] h = tt
  All-row Q a (b ∷ ys) h = elim (Bool-cases (p a b)) [
    | inl hit ↦ rw hit (h b hit, All-row Q a ys h)
    | inr miss ↦ rw miss (All-row Q a ys h)
  ]

  pub All-join_where :
      (Q : A × B → Type 0) (rows : List A)
      → All (λ a. (b : B) → p a b ≡ true → Q (a, b)) rows
      → All Q (join_where p rows bs)
  unfolding join_where
  All-join_where Q [] h = tt
  All-join_where Q (a ∷ rows) h =
      All-append Q (map (λ b. (a, b)) (select (p a) bs)) (join_where p rows bs) (All-row Q a bs h.0)
        (All-join_where Q rows h.1)

  -- No two rows of the result have one key, if each left row fits one right row at most, and of left
  -- rows with one key only one fits any.
  pub UniqueBy-join_where :
      (key : A → ℕ) (rows : List A)
      → ((a : A) → (select (p a) bs ≡ []) ⊎ ((b : B) × (select (p a) bs ≡ b ∷ []) × (p a b ≡ true)))
      → AllPairs (λ a a'. (b b' : B) → p a b ≡ true → p a' b' ≡ true → key a' ≢ key a) rows
      → UniqueBy (λ r. key r.0) (join_where p rows bs)
  unfolding join_where
  UniqueBy-join_where key [] single apart = tt
  UniqueBy-join_where key (a ∷ rows) single apart = elim (single a) [
    | inl missing ↦ rw missing (UniqueBy-join_where key rows single apart.1)
    | inr (b, found, fits) ↦ rw found (
      All-join_where (λ r. key r.0 ≢ key a) rows
          (All-mono rows (λ a' differ b' fits'. differ b b' fits fits') apart.0),
      UniqueBy-join_where key rows single apart.1,
    )
  ]

pub UniqueBy-AllPairs {ℓ} :
    {A : Type ℓ} {rel : A → A → Type 0} (key : A → ℕ) (xs : List A)
    → UniqueBy key xs
    → ((x y : A) → key y ≢ key x → rel x y)
    → AllPairs rel xs
UniqueBy-AllPairs key [] h g = tt
UniqueBy-AllPairs key (x ∷ xs) h g = (All-mono xs (λ y. g x y) h.0, UniqueBy-AllPairs key xs h.1 g)

-- The sum of what each row counts
abbrev pub sum_by {ℓ} : {A : Type ℓ} → (A → ℕ) → List A → ℕ
sum_by count [] = 0
sum_by count (x ∷ xs) = count x + sum_by count xs

sum_none : {B : Type 0} (ys : List B) → sum_by (λ y. 0) ys ≡ 0
sum_none [] = refl
sum_none (y ∷ ys) = omega (arith, sum_none ys)

length-map : {A B : Type 0} (f : A → B) (xs : List A) → length (map f xs) ≡ length xs
length-map f [] = refl
length-map f (x ∷ xs) = ap suc (length-map f xs)

module _ {A B : Type 0} where
  sum_split :
      (p : A → B → Bool) (x : A) (xs : List A) (ys : List B)
      → sum_by (λ y. length (select (λ x. p x y) (x ∷ xs))) ys
        ≡ length (select (p x) ys) + sum_by (λ y. length (select (λ x. p x y) xs)) ys
  unfolding select
  sum_split p x xs [] = refl
  sum_split p x xs (y ∷ ys) = elim (Bool-cases (p x y)) [
    | inl hit ↦ rw hit (omega (arith, sum_split p x xs ys))
    | inr miss ↦ rw miss (omega (arith, sum_split p x xs ys))
  ]

  -- Pairs are counted from either side.
  pub length-join_where-flip :
      (p : A → B → Bool) (xs : List A) (ys : List B)
      → length (join_where p xs ys) ≡ sum_by (λ y. length (select (λ x. p x y) xs)) ys
  unfolding join_where select
  length-join_where-flip p [] ys = sym (sum_none ys)
  length-join_where-flip p (x ∷ xs) ys =
      let pair : B → A × B = λ y. (x, y) in
      let paired = length-map pair (select (p x) ys) in
      length-append (map (λ y. (x, y)) (select (p x) ys)) (join_where p xs ys)
      ∙ omega (arith, length-join_where-flip p xs ys, paired, sum_split p x xs ys)

-- The one row that a test finds, where it is the last
pub select_last {ℓ} :
    {A : Type ℓ} (p : A → Bool) (xs : List A) (new : A)
    → All (λ x. p x ≡ false) xs
    → p new ≡ true
    → select p (xs ++ new ∷ []) ≡ new ∷ []
unfolding select
select_last p [] new none_before fits = rw fits refl
select_last p (x ∷ xs) new none_before fits =
    rw none_before.0 (select_last p xs new none_before.1 fits)
