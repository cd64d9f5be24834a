-- ===== src/Base/Sorted.antt =====
-- ORDER BY with a strict order on the rows, and how it meets WHERE.
use Prim.Native.Nat.{ℕ, suc}
use mathlib.Core.Path.{◌≡◌, refl, ap, sym, ◌∙◌}
use mathlib.Core.Logic.{inl, inr}
use mathlib.Core.Bool.{Bool, true, false, ◌||◌}
use mathlib.Core.List.{List, [], ◌∷◌}
use native.Mathlib.Omega.{arith}
use kupio_backend.Base.Tests.{if◌then◌else◌, Bool-cases}
use kupio_backend.Base.Lists.{All, All-mono, UniqueBy, length, select}
use kupio_backend.Base.Pairs.{AllPairs}

pub All-select {ℓ} :
    {A : Type ℓ} (P : A → Type 0) (p : A → Bool) (xs : List A) → All P xs → All P (select p xs)
unfolding select
All-select P p [] h = tt
All-select P p (x ∷ xs) h = elim (Bool-cases (p x)) [
  | inl hit ↦ rw hit (h.0, All-select P p xs h.1)
  | inr miss ↦ rw miss (All-select P p xs h.1)
]

pub UniqueBy-select {ℓ} :
    {A : Type ℓ} (key : A → ℕ) (p : A → Bool) (xs : List A)
    → UniqueBy key xs
    → UniqueBy key (select p xs)
unfolding select
UniqueBy-select key p [] h = tt
UniqueBy-select key p (x ∷ xs) h = elim (Bool-cases (p x)) [
  | inl hit ↦ rw hit (All-select _ p xs h.0, UniqueBy-select key p xs h.1)
  | inr miss ↦ rw miss (UniqueBy-select key p xs h.1)
]

-- `first x y` tells that x comes before y.
module _ {ℓ} {A : Type ℓ} (first : A → A → Bool) where
  unfoldable pub insert_row : A → List A → List A
  insert_row x [] = x ∷ []
  insert_row x (y ∷ ys) = let later = insert_row x ys in if first y x then y ∷ later else x ∷ y ∷ ys

  -- Rows of which neither comes first are left in table order.
  unfoldable pub order_by : List A → List A
  order_by [] = []
  order_by (x ∷ xs) = insert_row x (order_by xs)

  abbrev pub IsOrdered : List A → Type 0
  IsOrdered = AllPairs (λ x y. first x y ≡ true)

  -- Of any two rows one comes first.
  abbrev pub IsTotal : List A → Type 0
  IsTotal = AllPairs (λ x y. (first x y || first y x) ≡ true)

  length-insert_row : (x : A) (xs : List A) → length (insert_row x xs) ≡ suc (length xs)
  unfolding insert_row
  length-insert_row x [] = refl
  length-insert_row x (y ∷ ys) = ground (arith, length-insert_row x ys)

  pub length-order_by : (xs : List A) → length (order_by xs) ≡ length xs
  unfolding order_by
  length-order_by [] = refl
  length-order_by (x ∷ xs) = length-insert_row x (order_by xs) ∙ ap suc (length-order_by xs)

  module _ {κ} (P : A → Type κ) where
    pub All-insert_row : (x : A) (xs : List A) → P x → All P xs → All P (insert_row x xs)
    unfolding insert_row
    All-insert_row x [] h k = (h, tt)
    All-insert_row x (y ∷ ys) h k = elim (Bool-cases (first y x)) [
      | inl before ↦ rw before (k.0, All-insert_row x ys h k.1)
      | inr after ↦ rw after (h, k)
    ]

    pub All-order_by : (xs : List A) → All P xs → All P (order_by xs)
    unfolding order_by
    All-order_by [] h = tt
    All-order_by (x ∷ xs) h = All-insert_row x (order_by xs) h.0 (All-order_by xs h.1)

  module _ (trans : (x y z : A) → first x y ≡ true → first y z ≡ true → first x z ≡ true)
      (asymm : (x y : A) → first x y ≡ true → first y x ≡ false) where
    insert_row-IsOrdered :
        (x : A) (xs : List A)
        → IsOrdered xs
        → All (λ y. (first x y || first y x) ≡ true) xs
        → IsOrdered (insert_row x xs)
    unfolding insert_row
    insert_row-IsOrdered x [] h k = (tt, tt)
    insert_row-IsOrdered x (y ∷ ys) h k = elim (Bool-cases (first y x)) [
      | inl before ↦ rw before (
        All-insert_row (λ z. first y z ≡ true) x ys before h.0,
        insert_row-IsOrdered x ys h.1 k.1,
      )
      | inr after ↦
          let here : first x y ≡ true = ground arith in
          rw after ((here, All-mono ys (λ z later. trans x y z here later) h.0), h)
    ]

    pub order_by-IsOrdered : (xs : List A) → IsTotal xs → IsOrdered (order_by xs)
    unfolding order_by
    order_by-IsOrdered [] h = tt
    order_by-IsOrdered (x ∷ xs) h =
        insert_row-IsOrdered x (order_by xs) (order_by-IsOrdered xs h.1)
          (All-order_by (λ y. (first x y || first y x) ≡ true) xs h.0)

    insert_row-head :
        (x : A) (ys : List A) → All (λ y. first y x ≡ false) ys → insert_row x ys ≡ x ∷ ys
    unfolding insert_row
    insert_row-head x [] h = refl
    insert_row-head x (y ∷ ys) h = rw h.0 refl

    none_before :
        (x y : A) (zs : List A)
        → first y x ≡ false
        → All (λ z. first y z ≡ true) zs
        → All (λ z. first z x ≡ false) zs
    none_before x y zs after h =
        All-mono zs
          (λ z later. elim (Bool-cases (first z x)) [
            | inl before ↦ absurd (ground (arith, trans y z x later before))
            | inr fine ↦ fine
          ])
          h

    select-insert_row :
        (p : A → Bool) (x : A) (xs : List A)
        → IsOrdered xs
        → select p (insert_row x xs) ≡ (if p x then insert_row x (select p xs) else select p xs)
    unfolding insert_row select
    select-insert_row p x [] h = ground arith
    select-insert_row p x (y ∷ ys) h = elim (Bool-cases (first y x)) [
      | inl before ↦ rw before (elim (Bool-cases (p y)) [
        | inl hit ↦ ground (arith, select-insert_row p x ys h.1)
        | inr miss ↦ ground (arith, select-insert_row p x ys h.1)
      ])
      | inr after ↦
          let rest = insert_row-head x (select p (y ∷ ys)) (
            All-select (λ z. first z x ≡ false) p (y ∷ ys) (after, none_before x y ys after h.0)) in
          rw after
            (elim (Bool-cases (p x)) [ inl hit ↦ rw hit (sym rest) | inr miss ↦ rw miss refl ])
    ]

    -- WHERE and ORDER BY commute.
    pub order_by-select :
        (p : A → Bool) (xs : List A) → IsTotal xs → order_by (select p xs) ≡ select p (order_by xs)
    unfolding order_by select
    order_by-select p [] h = refl
    order_by-select p (x ∷ xs) h =
        let later = order_by-select p xs h.1 in
        let whole = select-insert_row p x (order_by xs) (order_by-IsOrdered xs h.1) in
        elim (Bool-cases (p x)) [
          | inl hit ↦ rw whole (rw hit (ap (λ l. insert_row x l) later))
          | inr miss ↦ rw whole (rw miss later)
        ]
