-- ===== src/Base/Pairs.antt =====
-- Relations between any two rows of a table.
use Prim.Native.Nat.{ℕ}
use mathlib.Core.Path.{◌≡◌, sym}
use mathlib.Core.Logic.{◌⊎◌, ◌≢◌, inl, inr}
use mathlib.Core.Bool.{Bool}
use mathlib.Core.Option.{some}
use mathlib.Core.List.{List, [], ◌∷◌, ◌++◌}
use native.Mathlib.Omega.{arith}
use kupio_backend.Base.Tests.{if◌then◌else◌, Bool-cases}
use kupio_backend.Base.Lists.{
  All, UniqueBy, All-mono, All-append, All-update_where, select, update_where, head?, head?-select,
}

-- Every row is related to each row below it.
abbrev pub AllPairs {ℓ} : {A : Type ℓ} → (A → A → Type 0) → List A → Type 0
AllPairs rel [] = Unit
AllPairs rel (x ∷ xs) = All (λ y. rel x y) xs × AllPairs rel xs

module _ {ℓ} {A : Type ℓ} (rel : A → A → Type 0) where
  pub AllPairs-update_where :
      (rel' : A → A → Type 0) (p : A → Bool) (f : A → A) (xs : List A)
      → ((x y : A) → rel x y → rel' (if p x then f x else x) (if p y then f y else y))
      → AllPairs rel xs
      → AllPairs rel' (update_where p f xs)
  unfolding update_where
  AllPairs-update_where rel' p f [] g h = tt
  AllPairs-update_where rel' p f (x ∷ xs) g h = (
    All-update_where (λ y. rel' (if p x then f x else x) y) p f xs (λ y. g x y) h.0,
    AllPairs-update_where rel' p f xs g h.1,
  )

  pub AllPairs-append :
      (xs : List A) (r : A) → All (λ y. rel y r) xs → AllPairs rel xs → AllPairs rel (xs ++ r ∷ [])
  AllPairs-append [] r n h = (tt, tt)
  AllPairs-append (x ∷ xs) r n h =
      (All-append (rel x) xs (r ∷ []) h.0 (n.0, tt), AllPairs-append xs r n.1 h.1)

  pub AllPairs-mono :
      (rel' : A → A → Type 0) (xs : List A)
      → ((x y : A) → rel x y → rel' x y)
      → AllPairs rel xs
      → AllPairs rel' xs
  AllPairs-mono rel' [] g h = tt
  AllPairs-mono rel' (x ∷ xs) g h = (All-mono xs (λ y. g x y) h.0, AllPairs-mono rel' xs g h.1)

  -- Every row is the one that a test finds, or is related to it.
  pub found-or-related :
      (q : A → Bool) (xs : List A) (a : A)
      → ((x y : A) → rel x y → rel y x)
      → AllPairs rel xs
      → head? (select q xs) ≡ some a
      → All (λ t. (t ≡ a) ⊎ rel a t) xs
  unfolding select
  found-or-related q [] a flip h e = tt
  found-or-related q (x ∷ xs) a flip h e = elim (Bool-cases (q x)) [
    | inl t ↦
        let same : x ≡ a = ground arith in
        (inl same, All-mono xs (λ y r. inr (subst_left x a y same r)) h.0)
    | inr t ↦
        let rest : head? (select q xs) ≡ some a = ground arith in
        (
          inr (flip x a (head?-select (rel x) q xs a h.0 rest).0),
          found-or-related q xs a flip h.1 rest,
        )
  ]
    where
      subst_left : (x a y : A) → x ≡ a → rel x y → rel a y
      subst_left x a y p r = rw (← p) r

-- Every row is the one that a test finds, or has another key.
pub found-or-other_key {ℓ} :
    {A : Type ℓ} (key : A → ℕ) (q : A → Bool) (xs : List A) (a : A)
    → UniqueBy key xs
    → head? (select q xs) ≡ some a
    → All (λ t. (t ≡ a) ⊎ (key t ≢ key a)) xs
unfolding select
found-or-other_key key q [] a h e = tt
found-or-other_key key q (x ∷ xs) a h e = elim (Bool-cases (q x)) [
  | inl t ↦
      let same : x ≡ a = ground arith in (inl same, All-mono xs (λ y ne. inr (rw (← same) ne)) h.0)
  | inr t ↦
      let rest : head? (select q xs) ≡ some a = ground arith in
      let apart = (head?-select (λ y. key y ≢ key x) q xs a h.0 rest).0 in
      (inr (λ e'. apart (sym e')), found-or-other_key key q xs a h.1 rest)
]
