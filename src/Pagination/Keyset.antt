-- ===== src/Pagination/Keyset.antt =====
-- Pages by a keyset: `WHERE (created_at, id) < cursor ORDER BY created_at DESC, id DESC LIMIT n`.
use Prim.Native.Nat.{zero, suc}
use kupio_backend.Base.{
  ℕ, ◌<◌, ◌≡◌, refl, sym, ap, ◌∙◌, subst, inl, inr, ◌⊎◌, Bool, true, false, ◌&&◌, ◌||◌, Option,
  none, some, List, [], ◌∷◌, ◌++◌, arith, ◌==◌, ltb, if◌then◌else◌, Bool-cases,
}
use kupio_backend.Base.Lists.{All, All-mono, UniqueBy, length, take, select, length-append}
use kupio_backend.Base.Pairs.{AllPairs}
use kupio_backend.Base.Sorted.{
  All-select, order_by, IsOrdered, IsTotal, order_by-select, order_by-IsOrdered,
}

module _ {A : Type 0} (time key : A → ℕ) where
  -- The rows behind a cursor
  abbrev pub older : ℕ → ℕ → A → Bool
  older cursor_created_at cursor_id x =
      ltb (time x) cursor_created_at || (time x == cursor_created_at && ltb (key x) cursor_id)

  abbrev pub newer_first : A → A → Bool
  newer_first x y = older (time x) (key x) y

  -- The WHERE of a cursor; a cursor of None adds no condition.
  abbrev pub behind : Option (ℕ × ℕ) → A → Bool
  behind none x = true
  behind (some (cursor_created_at, cursor_id)) x = older cursor_created_at cursor_id x

  abbrev pub newest_first : List A → List A
  newest_first = order_by newer_first

  unfoldable pub page : ℕ → Option (ℕ × ℕ) → List A → List A
  page limit cursor xs = take limit (newest_first (select (behind cursor) xs))

  trans : (x y z : A) → newer_first x y ≡ true → newer_first y z ≡ true → newer_first x z ≡ true
  trans x y z h k = ground arith

  asymm : (x y : A) → newer_first x y ≡ true → newer_first y x ≡ false
  asymm x y h = ground arith

  pub IsTotal-UniqueBy : (xs : List A) → UniqueBy key xs → IsTotal newer_first xs
  IsTotal-UniqueBy [] h = tt
  IsTotal-UniqueBy (x ∷ xs) h = (All-mono xs (λ y other. ground arith) h.0, IsTotal-UniqueBy xs h.1)

  abbrev last_cursor : A → Option (ℕ × ℕ)
  last_cursor z = some (time z, key z)

  All-middle : (P : A → Type 0) (pre rest : List A) (z : A) → All P (pre ++ z ∷ rest) → P z
  All-middle P [] rest z h = h.0
  All-middle P (x ∷ pre) rest z h = All-middle P pre rest z h.1

  select-holds : (p : A → Bool) (ys : List A) → All (λ y. p y ≡ true) (select p ys)
  unfolding select
  select-holds p [] = tt
  select-holds p (y ∷ ys) = elim (Bool-cases (p y)) [
    | inl hit ↦ rw hit (hit, select-holds p ys)
    | inr miss ↦ rw miss (select-holds p ys)
  ]

  select-select :
      (p q : A → Bool) (ys : List A)
      → ((y : A) → q y ≡ true → p y ≡ true)
      → select q (select p ys) ≡ select q ys
  unfolding select
  select-select p q [] sub = refl
  select-select p q (y ∷ ys) sub = ground (arith, sub y, select-select p q ys sub)

  AllPairs-select :
      (rel : A → A → Type 0) (p : A → Bool) (ys : List A)
      → AllPairs rel ys
      → AllPairs rel (select p ys)
  unfolding select
  AllPairs-select rel p [] h = tt
  AllPairs-select rel p (y ∷ ys) h = elim (Bool-cases (p y)) [
    | inl hit ↦ rw hit (All-select _ p ys h.0, AllPairs-select rel p ys h.1)
    | inr miss ↦ rw miss (AllPairs-select rel p ys h.1)
  ]

  -- What stands behind a row of an ordered list is the rest of the list.
  behind_row :
      (pre rest : List A) (z : A)
      → IsOrdered newer_first (pre ++ z ∷ rest)
      → select (behind (last_cursor z)) (pre ++ z ∷ rest) ≡ rest
  unfolding select
  behind_row [] rest z h = ground (arith, select_all rest h.0)
    where
      select_all :
          (ys : List A)
          → All (λ y. newer_first z y ≡ true) ys
          → select (behind (last_cursor z)) ys ≡ ys
      select_all [] k = refl
      select_all (y ∷ ys) k = ground (arith, select_all ys k.1)
  behind_row (x ∷ pre) rest z h =
      let before = All-middle (λ y. newer_first x y ≡ true) pre rest z h.0 in
      let ahead : older (time z) (key z) x ≡ false = asymm x z before in
      rw ahead (behind_row pre rest z h.1)

  append_one : (pre rest : List A) (z : A) → (pre ++ z ∷ []) ++ rest ≡ pre ++ z ∷ rest
  append_one [] rest z = refl
  append_one (x ∷ pre) rest z = ap (λ l. x ∷ l) (append_one pre rest z)

  -- The cursor that a full page hands on
  abbrev pub last_of : List A → Option (ℕ × ℕ)
  last_of [] = none
  last_of (x ∷ []) = last_cursor x
  last_of (x ∷ y ∷ ys) = last_of (y ∷ ys)

  -- A client that asks for pages until one is not full
  unfoldable pub walk : ℕ → ℕ → Option (ℕ × ℕ) → List A → List A
  walk zero limit cursor xs = []
  walk (suc fuel) limit cursor xs =
      let found = page limit cursor xs in
      let rest = walk fuel limit (last_of found) xs in
      if length found == limit then found ++ rest else found

  last_of-append : (pre : List A) (z : A) → last_of (pre ++ z ∷ []) ≡ last_cursor z
  last_of-append [] z = refl
  last_of-append (x ∷ []) z = refl
  last_of-append (x ∷ y ∷ pre) z = last_of-append (y ∷ pre) z

  -- A page is all there is, or it is full.
  full_or_last :
      (n : ℕ) (ys : List A)
      → ((take (suc n) ys ≡ ys) × (length ys < suc n))
        ⊎ ((pre : List A) × (z : A) × (rest : List A) × (ys ≡ pre ++ z ∷ rest)
            × (take (suc n) ys ≡ pre ++ z ∷ [])
            × (length (pre ++ z ∷ []) ≡ suc n))
  full_or_last n [] = inl (refl, omega arith)
  full_or_last zero (y ∷ ys) = inr ([], y, ys, refl, refl, refl)
  full_or_last (suc n) (y ∷ ys) = elim (full_or_last n ys) [
    | inl (same, short) ↦ inl (ap (λ l. y ∷ l) same, omega (arith, short))
    | inr (pre, z, rest, whole, front, full) ↦
        inr (y ∷ pre, z, rest, ap (λ l. y ∷ l) whole, ap (λ l. y ∷ l) front, omega (arith, full))
  ]

  module _ (limit : ℕ) (xs : List A) (unique : UniqueBy key xs) where
    ordered : IsOrdered newer_first (newest_first xs)
    ordered = order_by-IsOrdered newer_first trans asymm xs (IsTotal-UniqueBy xs unique)

    abbrev left : Option (ℕ × ℕ) → List A
    left cursor = select (behind cursor) (newest_first xs)

    abbrev left_all : List A → List A
    left_all ys = select (behind none) ys

    page-left : (cursor : Option (ℕ × ℕ)) → page limit cursor xs ≡ take limit (left cursor)
    unfolding page
    page-left cursor =
        ap (λ l. take limit l)
          (order_by-select newer_first trans asymm (behind cursor) xs (IsTotal-UniqueBy xs unique))

    behind_trans :
        (cursor : Option (ℕ × ℕ)) (z y : A)
        → behind cursor z ≡ true
        → behind (last_cursor z) y ≡ true
        → behind cursor y ≡ true
    behind_trans none z y h k = refl
    behind_trans (some (c, i)) z y h k = ground arith

    left-rest :
        (cursor : Option (ℕ × ℕ)) (pre rest : List A) (z : A)
        → left cursor ≡ pre ++ z ∷ rest
        → left (last_cursor z) ≡ rest
    left-rest cursor pre rest z whole =
        let hits = select-holds (behind cursor) (newest_first xs) in
        let here : behind cursor z ≡ true =
          All-middle (λ y. behind cursor y ≡ true) pre rest z
            (subst (All (λ y. behind cursor y ≡ true)) whole hits) in
        sym (
          select-select (behind cursor) (behind (last_cursor z)) (newest_first xs)
            (λ y k. behind_trans cursor z y here k))
        ∙ ap (λ l. select (behind (last_cursor z)) l) whole
        ∙ behind_row pre rest z (
            subst (IsOrdered newer_first) whole (
              AllPairs-select (λ x y. newer_first x y ≡ true) (behind cursor) (newest_first xs)
                ordered))

    walk-left :
        (n fuel : ℕ) (cursor : Option (ℕ × ℕ))
        → limit ≡ suc n
        → length (left cursor) < fuel
        → walk fuel limit cursor xs ≡ left cursor
    unfolding walk
    walk-left n zero cursor full low = absurd (omega (arith, low))
    walk-left n (suc fuel) cursor full low = elim (full_or_last n (left cursor)) [
      | inl (same, short) ↦
          let found = page-left cursor ∙ ap (λ k. take k (left cursor)) full ∙ same in
          rw found (ground (arith, full, short))
      | inr (pre, z, rest, whole, front, size) ↦
          let found = page-left cursor ∙ ap (λ k. take k (left cursor)) full ∙ front in
          let next = left-rest cursor pre rest z whole in
          let later =
            walk-left n fuel (last_cursor z) full
              (omega (arith, low, ap length whole, length-append pre (z ∷ rest), ap length next)) in
          let same : (length (pre ++ z ∷ []) == limit) ≡ true = ground (arith, size, full) in
          rw found (
            rw same (
              ap (λ c. (pre ++ z ∷ []) ++ walk fuel limit c xs) (last_of-append pre z)
              ∙ ap (λ l. (pre ++ z ∷ []) ++ l) (later ∙ next)
              ∙ append_one pre rest z
              ∙ sym whole))
    ]

    select_everything : (ys : List A) → left_all ys ≡ ys
    unfolding select
    select_everything [] = refl
    select_everything (y ∷ ys) = ap (λ l. y ∷ l) (select_everything ys)

    -- Where no two rows have the same key and a page holds at least one, a walk from the start
    -- through as many pages as there are rows, and one more, gives every row once, newest first.
    pub walk-newest_first :
        (n fuel : ℕ)
        → limit ≡ suc n
        → length (newest_first xs) < fuel
        → walk fuel limit none xs ≡ newest_first xs
    walk-newest_first n fuel full low =
        walk-left n fuel none full (rw (select_everything (newest_first xs)) low)
        ∙ select_everything (newest_first xs)
