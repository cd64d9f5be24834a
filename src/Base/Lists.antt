-- ===== src/Base/Lists.antt =====
-- Tables as lists of rows: selection, bulk update and deletion, and their laws.
use Prim.Native.Nat.{ℕ, zero, suc, ◌+◌}
use mathlib.Core.Path.{◌≡◌, refl, subst}
use mathlib.Core.Logic.{◌≢◌, inl, inr}
use mathlib.Core.Bool.{Bool, true, false}
use mathlib.Core.Option
use mathlib.Core.Option.{Option, none, some}
use mathlib.Core.List.{List, [], ◌∷◌, ◌++◌}
use native.Mathlib.Omega.{arith}
use kupio_backend.Base.Tests.{ltb, if◌then◌else◌, Bool-cases}

-- Every row has the property.
abbrev pub All {ℓ κ} : {A : Type ℓ} → (A → Type κ) → List A → Type κ
All P [] = Unit
All P (x ∷ xs) = P x × All P xs

module _ {ℓ} {A : Type ℓ} where
  abbrev pub length : List A → ℕ
  length [] = 0
  length (x ∷ xs) = suc (length xs)

  abbrev pub take : ℕ → List A → List A
  take zero xs = []
  take (suc n) [] = []
  take (suc n) (x ∷ xs) = x ∷ take n xs

  abbrev pub head? : List A → Option A
  head? [] = none
  head? (x ∷ xs) = some x

  -- The rows that a WHERE clause selects, in table order.
  unfoldable pub select : (A → Bool) → List A → List A
  select p [] = []
  select p (x ∷ xs) = let rest = select p xs in if p x then x ∷ rest else rest

  -- UPDATE … SET … WHERE, on every row that fits.
  unfoldable pub update_where : (A → Bool) → (A → A) → List A → List A
  update_where p f [] = []
  update_where p f (x ∷ xs) = (if p x then f x else x) ∷ update_where p f xs

  unfoldable pub some_row : (A → Bool) → List A → Bool
  some_row p [] = false
  some_row p (x ∷ xs) = if p x then true else some_row p xs

-- No two rows have the same key.
abbrev pub UniqueBy {ℓ} : {A : Type ℓ} → (A → ℕ) → List A → Type 0
UniqueBy key [] = Unit
UniqueBy key (x ∷ xs) = All (λ y. key y ≢ key x) xs × UniqueBy key xs

module _ {ℓ κ μ} {A : Type ℓ} where
  pub All-mono :
      {P : A → Type κ} {Q : A → Type μ} (xs : List A) → ((x : A) → P x → Q x) → All P xs → All Q xs
  All-mono [] g h = tt
  All-mono (x ∷ xs) g h = (g x h.0, All-mono xs g h.1)

  pub All-update_where :
      {P : A → Type κ} (Q : A → Type μ) (p : A → Bool) (f : A → A) (xs : List A)
      → ((x : A) → P x → Q (if p x then f x else x))
      → All P xs
      → All Q (update_where p f xs)
  unfolding update_where
  All-update_where Q p f [] g h = tt
  All-update_where Q p f (x ∷ xs) g h = (g x h.0, All-update_where Q p f xs g h.1)

module _ {ℓ} {A : Type ℓ} where
  pub All-append : (P : A → Type 0) (xs ys : List A) → All P xs → All P ys → All P (xs ++ ys)
  All-append P [] ys h k = k
  All-append P (x ∷ xs) ys h k = (h.0, All-append P xs ys h.1 k)

  pub All-trivial : (xs : List A) → All (λ _. Unit {0}) xs
  All-trivial [] = tt
  All-trivial (x ∷ xs) = (tt, All-trivial xs)

  pub some_row-append :
      (p : A → Bool) (xs ys : List A)
      → some_row p (xs ++ ys) ≡ (if some_row p xs then true else some_row p ys)
  unfolding some_row
  some_row-append p [] ys = refl
  some_row-append p (x ∷ xs) ys = ground (arith, some_row-append p xs ys)

  -- An update that keeps a test keeps whether a row passes it.
  pub some_row-update_where :
      (q p : A → Bool) (f : A → A) (xs : List A)
      → ((x : A) → q (f x) ≡ q x)
      → some_row q (update_where p f xs) ≡ some_row q xs
  unfolding some_row update_where
  some_row-update_where q p f [] g = refl
  some_row-update_where q p f (x ∷ xs) g = ground (arith, g x, some_row-update_where q p f xs g)

  pub some_row-select : (p : A → Bool) (xs : List A) → some_row p xs ≡ false → select p xs ≡ []
  unfolding some_row select
  some_row-select p [] h = refl
  some_row-select p (x ∷ xs) h = ground (arith, some_row-select p xs)

  -- What a selection returns first passes the test and stands in the table.
  pub head?-select :
      (P : A → Type 0) (p : A → Bool) (xs : List A) (x : A)
      → All P xs
      → head? (select p xs) ≡ some x
      → P x × (p x ≡ true)
  unfolding select
  head?-select P p [] x h e = cc
  head?-select P p (y ∷ ys) x h e = elim (Bool-cases (p y)) [
    | inl t ↦ (subst P (ground arith) h.0, ground arith)
    | inr t ↦ head?-select P p ys x h.1 (ground arith)
  ]

  pub UniqueBy-update_where :
      (key : A → ℕ) (p : A → Bool) (f : A → A) (xs : List A)
      → ((x : A) → key (f x) ≡ key x)
      → UniqueBy key xs
      → UniqueBy key (update_where p f xs)
  unfolding update_where
  UniqueBy-update_where key p f [] g h = tt
  UniqueBy-update_where key p f (x ∷ xs) g h = (
    All-update_where (λ y. key y ≢ key (if p x then f x else x)) p f xs
        (λ y ne. ground (arith, g x, g y)) h.0,
    UniqueBy-update_where key p f xs g h.1,
  )

  -- A row whose key is new keeps the keys unique.
  pub UniqueBy-append :
      (key : A → ℕ) (xs : List A) (r : A)
      → All (λ y. key r ≢ key y) xs
      → UniqueBy key xs
      → UniqueBy key (xs ++ r ∷ [])
  UniqueBy-append key [] r n h = (tt, tt)
  UniqueBy-append key (x ∷ xs) r n h =
      (All-append (λ y. key y ≢ key x) xs (r ∷ []) h.0 (n.0, tt), UniqueBy-append key xs r n.1 h.1)

  -- No row passes a test: each fails it.
  pub All-of-some_row :
      (p : A → Bool) (xs : List A) → some_row p xs ≡ false → All (λ x. p x ≡ false) xs
  unfolding some_row
  All-of-some_row p [] h = tt
  All-of-some_row p (x ∷ xs) h = (ground arith, All-of-some_row p xs (ground arith))

  pub length-append : (xs ys : List A) → length (xs ++ ys) ≡ length xs + length ys
  length-append [] ys = omega arith
  length-append (x ∷ xs) ys = omega (arith, length-append xs ys)

  -- The first row that a test finds, after an update that keeps the test
  pub head?-select-update_where :
      (p q : A → Bool) (f : A → A) (xs : List A)
      → ((x : A) → p (f x) ≡ p x)
      → head? (select p (update_where q f xs))
        ≡ Option.map (λ x. if q x then f x else x) (head? (select p xs))
  unfolding select update_where
  head?-select-update_where p q f [] g = refl
  head?-select-update_where p q f (x ∷ xs) g = elim (Bool-cases (q x)) [
    | inl hit ↦ rw hit (
        rw g (elim (Bool-cases (p x)) [
          | inl t ↦ rw (t, hit)
          | inr t ↦ rw t (head?-select-update_where p q f xs g)
        ]))
    | inr miss ↦ rw miss (elim (Bool-cases (p x)) [
      | inl t ↦ rw (t, miss)
      | inr t ↦ rw t (head?-select-update_where p q f xs g)
    ])
  ]

  pub head?-select-append :
      (p : A → Bool) (xs : List A) (r : A)
      → p r ≡ false
      → head? (select p (xs ++ r ∷ [])) ≡ head? (select p xs)
  unfolding select
  head?-select-append p [] r e = ground arith
  head?-select-append p (x ∷ xs) r e = ground (arith, head?-select-append p xs r e)

  pub head?-select-holds :
      (p : A → Bool) (xs : List A) (x : A) → head? (select p xs) ≡ some x → p x ≡ true
  unfolding select
  head?-select-holds p [] x e = cc
  head?-select-holds p (y ∷ ys) x e = elim (Bool-cases (p y)) [
    | inl t ↦ ground arith
    | inr t ↦ head?-select-holds p ys x (ground arith)
  ]

  pub select-append :
      (p : A → Bool) (xs ys : List A) → select p (xs ++ ys) ≡ select p xs ++ select p ys
  unfolding select
  select-append p [] ys = refl
  select-append p (x ∷ xs) ys = ground (arith, select-append p xs ys)

  pub select_none : (p : A → Bool) (xs : List A) → All (λ x. p x ≡ false) xs → select p xs ≡ []
  unfolding select
  select_none p [] h = refl
  select_none p (x ∷ xs) h = ground (arith, select_none p xs h.1)

  -- An update that another selection does not see
  pub select-update_where :
      (q p : A → Bool) (f : A → A) (xs : List A)
      → ((x : A) → p x ≡ true → (q x ≡ false) × (q (f x) ≡ false))
      → select q (update_where p f xs) ≡ select q xs
  unfolding select update_where
  select-update_where q p f [] apart = refl
  select-update_where q p f (x ∷ xs) apart = elim (Bool-cases (p x)) [
    | inl t ↦
        let (before, after) = apart x t in
        rw (t, before, after) (select-update_where q p f xs apart)
    | inr t ↦ rw (t, select-update_where q p f xs apart)
  ]

  pub some_row_mono :
      (p q : A → Bool) (xs : List A)
      → ((x : A) → p x ≡ true → q x ≡ true)
      → some_row p xs ≡ true
      → some_row q xs ≡ true
  unfolding some_row
  some_row_mono p q [] g h = cc
  some_row_mono p q (x ∷ xs) g h = ground (arith, g x, some_row_mono p q xs g)

  -- A row count above zero: some row fits.
  pub length-select : (p : A → Bool) (xs : List A) → ltb 0 (length (select p xs)) ≡ some_row p xs
  unfolding select some_row
  length-select p [] = refl
  length-select p (x ∷ xs) = ground (arith, length-select p xs)

  pub some_row_none :
      (p : A → Bool) (xs : List A) → All (λ x. p x ≡ false) xs → some_row p xs ≡ false
  unfolding some_row
  some_row_none p [] h = refl
  some_row_none p (x ∷ xs) h = ground (arith, some_row_none p xs h.1)

pub All-both :
    {A : Type 0} (P Q : A → Type 0) (xs : List A) → All P xs → All Q xs → All (λ x. P x × Q x) xs
All-both P Q [] h k = tt
All-both P Q (x ∷ xs) h k = ((h.0, k.0), All-both P Q xs h.1 k.1)
