-- ===== src/Base/Members.antt =====
-- The rows of a table one by one: that some row has a property, and that a row is among others.
use Prim.Native.Nat.{ℕ, zero, suc}
use mathlib.Core.Path.{◌≡◌, refl, sym, ap, ◌∙◌, subst}
use mathlib.Core.Logic.{◌⊎◌, inl, inr}
use mathlib.Core.Bool.{Bool, true, false}
use mathlib.Core.Option.{none}
use mathlib.Core.List.{List, [], ◌∷◌, ◌++◌, map}
use native.Mathlib.Omega.{arith}
use kupio_backend.Base.Tests.{Bool-cases}
use kupio_backend.Base.Lists.{All, length, take, select, head?, some_row}
use kupio_backend.Base.Joins.{join_where}
use kupio_backend.Base.Sorted.{insert_row, order_by, IsOrdered}

-- Some row has the property.
abbrev pub Any : {A : Type 0} → (A → Type 0) → List A → Type 0
Any P [] = ⊥
Any P (x ∷ xs) = P x ⊎ Any P xs

-- A row stands in the table.
abbrev pub In : {A : Type 0} → A → List A → Type 0
In x = Any (λ y. y ≡ x)

module _ {A : Type 0} where
  pub Any-mono : {P Q : A → Type 0} (xs : List A) → ((x : A) → P x → Q x) → Any P xs → Any Q xs
  Any-mono [] g h = absurd h
  Any-mono (x ∷ xs) g (inl here) = inl (g x here)
  Any-mono (x ∷ xs) g (inr later) = inr (Any-mono xs g later)

  pub All-In : (P : A → Type 0) (xs : List A) (x : A) → All P xs → In x xs → P x
  All-In P [] x h i = absurd i
  All-In P (y ∷ ys) x h (inl same) = subst P same h.0
  All-In P (y ∷ ys) x h (inr later) = All-In P ys x h.1 later

  -- What holds of each row that stands in a table holds of all its rows.
  pub All_of_In : (P : A → Type 0) (xs : List A) → ((x : A) → In x xs → P x) → All P xs
  All_of_In P [] g = tt
  All_of_In P (x ∷ xs) g = (g x (inl refl), All_of_In P xs (λ y i. g y (inr i)))

  pub In-select : (p : A → Bool) (xs : List A) (x : A) → In x xs → p x ≡ true → In x (select p xs)
  unfolding select
  In-select p [] x i hit = i
  In-select p (y ∷ ys) x (inl same) hit =
      let here : p y ≡ true = ap p same ∙ hit in rw here (inl same)
  In-select p (y ∷ ys) x (inr later) hit = elim (Bool-cases (p y)) [
    | inl t ↦ rw t (inr (In-select p ys x later hit))
    | inr t ↦ rw t (In-select p ys x later hit)
  ]

  pub In-select-holds :
      (p : A → Bool) (xs : List A) (x : A) → In x (select p xs) → (In x xs) × (p x ≡ true)
  unfolding select
  In-select-holds p [] x = λ i. absurd i
  In-select-holds p (y ∷ ys) x = elim (Bool-cases (p y)) [
    | inl t ↦ rw t (λ i. elim i [
      | inl same ↦ (inl same, ap p (sym same) ∙ t)
      | inr later ↦ let (there, hit) = In-select-holds p ys x later in (inr there, hit)
    ])
    | inr t ↦ rw t (λ i. let (there, hit) = In-select-holds p ys x i in (inr there, hit))
  ]

  pub some_row-In :
      (p : A → Bool) (xs : List A) (x : A) → In x xs → p x ≡ true → some_row p xs ≡ true
  unfolding some_row
  some_row-In p [] x i hit = absurd i
  some_row-In p (y ∷ ys) x (inl same) hit = let here : p y ≡ true = ap p same ∙ hit in rw here refl
  some_row-In p (y ∷ ys) x (inr later) hit = ground (arith, some_row-In p ys x later hit)

  -- Where a search finds nothing, no row of the table passes its test.
  pub head?-none :
      (p : A → Bool) (xs : List A) (x : A) → head? (select p xs) ≡ none → In x xs → p x ≡ false
  head?-none p xs x missing i = elim (Bool-cases (p x)) [
    | inr miss ↦ miss
    | inl hit ↦ absurd (empty (select p xs) missing (In-select p xs x i hit))
  ]
    where
      empty : (ys : List A) → head? ys ≡ none → In x ys → ⊥
      empty [] e j = j
      empty (y ∷ ys) e j = cc

  module _ (first : A → A → Bool) where
    In-insert_row : (y x : A) (xs : List A) → In y (x ∷ xs) → In y (insert_row first x xs)
    unfolding insert_row
    In-insert_row y x [] = λ i. i
    In-insert_row y x (z ∷ zs) = elim (Bool-cases (first z x)) [
      | inr t ↦ rw t (λ i. i)
      | inl t ↦ rw t (λ i. elim i [
        | inl same ↦ inr (In-insert_row y x zs (inl same))
        | inr (inl here) ↦ inl here
        | inr (inr later) ↦ inr (In-insert_row y x zs (inr later))
      ])
    ]

    pub In-order_by : (y : A) (xs : List A) → In y xs → In y (order_by first xs)
    unfolding order_by
    In-order_by y [] i = i
    In-order_by y (x ∷ xs) (inl same) = In-insert_row y x (order_by first xs) (inl same)
    In-order_by y (x ∷ xs) (inr later) =
        In-insert_row y x (order_by first xs) (inr (In-order_by y xs later))

    -- A row of an ordered table is among the first n, or these are n rows that all come before it.
    pub In-take :
        (n : ℕ) (y : A) (xs : List A)
        → IsOrdered first xs
        → In y xs
        → (In y (take n xs)) ⊎ ((length (take n xs) ≡ n) × All (λ x. first x y ≡ true) (take n xs))
    In-take zero y xs h i = inr (refl, tt)
    In-take (suc n) y [] h i = absurd i
    In-take (suc n) y (x ∷ xs) h (inl same) = inl (inl same)
    In-take (suc n) y (x ∷ xs) h (inr later) = elim (In-take n y xs h.1 later) [
      | inl early ↦ inl (inr early)
      | inr (full, before) ↦
          inr (ap suc full, (All-In (λ z. first x z ≡ true) xs y h.0 later, before))
    ]

pub In-map : {A B : Type 0} (f : A → B) (xs : List A) (x : A) → In x xs → In (f x) (map f xs)
In-map f [] x i = absurd i
In-map f (y ∷ ys) x (inl same) = inl (ap f same)
In-map f (y ∷ ys) x (inr later) = inr (In-map f ys x later)

pub In-map-from :
    {A B : Type 0} (f : A → B) (xs : List A) (b : B)
    → In b (map f xs)
    → (x : A) × In x xs × (f x ≡ b)
In-map-from f [] b i = absurd i
In-map-from f (y ∷ ys) b (inl same) = (y, inl refl, same)
In-map-from f (y ∷ ys) b (inr later) =
    let (x, there, same) = In-map-from f ys b later in (x, inr there, same)

module _ {A : Type 0} where
  In-append-left : (xs ys : List A) (x : A) → In x xs → In x (xs ++ ys)
  In-append-left [] ys x i = absurd i
  In-append-left (y ∷ xs) ys x (inl same) = inl same
  In-append-left (y ∷ xs) ys x (inr later) = inr (In-append-left xs ys x later)

  In-append-right : (xs ys : List A) (x : A) → In x ys → In x (xs ++ ys)
  In-append-right [] ys x i = i
  In-append-right (y ∷ xs) ys x i = inr (In-append-right xs ys x i)

  In-append-cases : (xs ys : List A) (x : A) → In x (xs ++ ys) → (In x xs) ⊎ (In x ys)
  In-append-cases [] ys x i = inr i
  In-append-cases (y ∷ xs) ys x (inl same) = inl (inl same)
  In-append-cases (y ∷ xs) ys x (inr later) = elim (In-append-cases xs ys x later) [
    | inl left ↦ inl (inr left)
    | inr right ↦ inr right
  ]

module _ {A B : Type 0} (p : A → B → Bool) (bs : List B) where
  pub In-join_where :
      (rows : List A) (a : A) (b : B)
      → In a rows
      → In b bs
      → p a b ≡ true
      → In (a, b) (join_where p rows bs)
  unfolding join_where
  In-join_where [] a b i j hit = absurd i
  In-join_where (x ∷ rows) a b (inl same) j hit =
      let fits : p x b ≡ true = ap (λ z. p z b) same ∙ hit in
      In-append-left _ _ (a, b)
        (subst (λ z. In {A = A × B} (z, b) (map (λ c. (x, c)) (select (p x) bs))) same
          (In-map (λ c. (x, c)) _ b (In-select (p x) bs b j fits)))
  In-join_where (x ∷ rows) a b (inr later) j hit =
      In-append-right _ _ (a, b) (In-join_where rows a b later j hit)

  pub In-join_where-holds :
      (rows : List A) (r : A × B)
      → In r (join_where p rows bs)
      → (In r.0 rows) × (In r.1 bs) × (p r.0 r.1 ≡ true)
  unfolding join_where
  In-join_where-holds [] r i = absurd i
  In-join_where-holds (x ∷ rows) r i =
      elim (In-append-cases (map (λ b. (x, b)) (select (p x) bs)) (join_where p rows bs) r i) [
        | inl here ↦
            let (b, found, same) = In-map-from (λ b. (x, b)) (select (p x) bs) r here in
            let (there, hit) = In-select-holds (p x) bs b found in
            subst (λ (q : A × B). (In q.0 (x ∷ rows)) × (In q.1 bs) × (p q.0 q.1 ≡ true)) same
              (inl refl, there, hit)
        | inr later ↦
            let (there, found, hit) = In-join_where-holds rows r later in (inr there, found, hit)
      ]
