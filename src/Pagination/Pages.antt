-- ===== src/Pagination/Pages.antt =====
-- The lists that services return page by page: `cursor_created_at, cursor_id = decode(cursor) …`, a
-- keyset query, and a `next_cursor` where `len(rows) == limit`.
use Prim.Native.Nat.{zero, suc}
use kupio_backend.Base.{
  ℕ, ◌≡◌, ◌<◌, refl, ap, ◌∙◌, true, Bool-cases, inl, inr, Option, none, some, List, [], ◌∷◌, ◌++◌,
  ◌==◌, if◌then◌else◌, arith,
}
use kupio_backend.Base.Lists.{UniqueBy, length}
use kupio_backend.Base.Sorted.{length-order_by}
use kupio_backend.Core.Errors.{index_error}
use kupio_backend.Core.Action.{
  Result, ok, err, Action, DbSession, continue, ◌>>=◌, pure, lift, or_raise,
}
use kupio_backend.Pagination.Keyset.{
  page, newest_first, last_of, newer_first, walk, walk-newest_first,
}
use kupio_backend.Pagination.Cursors.{Codec, read_cursor}

-- `cursor_created_at is not None and cursor_id is not None`
abbrev pub both_given : Option ℕ × Option ℕ → Option (ℕ × ℕ)
both_given (none, i) = none
both_given (some t, none) = none
both_given (some t, some i) = some (t, i)

module _ {A Text : Type 0} (time key : A → ℕ) (encode : ℕ → ℕ → Text) where
  -- `encode(rows[-1]…)`
  abbrev of_last : List A → Action (Option Text)
  of_last rows = do (t, i) ← or_raise (last_of time key rows) index_error; pure (some (encode t i))

  -- `encode(rows[-1]…) if len(rows) == limit else None`
  unfoldable pub next_cursor : ℕ → List A → Action (Option Text)
  next_cursor limit rows = if length rows == limit then of_last rows else pure none

  of_last-reads : (rows : List A) (s : DbSession) → (of_last rows s).1 ≡ s
  of_last-reads [] s = refl
  of_last-reads (x ∷ []) s = refl
  of_last-reads (x ∷ y ∷ rows) s = of_last-reads (y ∷ rows) s

  pub next_cursor-reads :
      (limit : ℕ) (rows : List A) (s : DbSession) → (next_cursor limit rows s).1 ≡ s
  unfolding next_cursor
  next_cursor-reads limit rows s = elim (Bool-cases (length rows == limit)) [
    | inl full ↦ rw full (of_last-reads rows s)
    | inr short ↦ rw short refl
  ]

-- What follows a computation without database counts only at the session it starts from.
pub lift_then :
    {A B : Type 0} (r : Result A) (f g : A → Action B) (s : DbSession)
    → ((a : A) → f a s ≡ g a s)
    → (lift r >>= f) s ≡ (lift r >>= g) s
lift_then (ok a) f g s h = h a
lift_then (err e) f g s h = refl

module _ {A B : Type 0} (f : A → Action B) (reads : (a : A) (s : DbSession) → (f a s).1 ≡ s) where
  continue_reads : (r : Result A) (s : DbSession) → (continue r f s).1 ≡ s
  continue_reads (ok a) s = reads a s
  continue_reads (err e) s = refl

  -- Parts that only read make a whole that only reads.
  pub then_reads : (m : Action A) (s : DbSession) → (m s).1 ≡ s → ((m >>= f) s).1 ≡ s
  then_reads m s same = continue_reads (m s).0 (m s).1 ∙ same

module _ {A B C : Type 0} (f : A → Action B) (g : B → Action C) where
  continue_twice :
      (r : Result A) (s : DbSession) → (continue r f >>= g) s ≡ continue r (λ a. f a >>= g) s
  continue_twice (ok a) s = refl
  continue_twice (err e) s = refl

  pub then_twice : (m : Action A) (s : DbSession) → (m >>= f >>= g) s ≡ (m >>= λ a. f a >>= g) s
  then_twice m s = continue_twice (m s).0 (m s).1

module _ {A Text : Type 0} where
  abbrev go_on : (Text → Action (List A)) → Option Text → Action (List A)
  go_on f none = pure []
  go_on f (some c) = f c

  -- A client that hands back every next cursor, until none comes or it has asked `fuel` times
  unfoldable pub follow :
      (Option Text → Action (List A × Option Text)) → ℕ → Option Text → Action (List A)
  follow endpoint zero cursor = pure []
  follow endpoint (suc fuel) cursor = do
    (rows, next) ← endpoint cursor
    rest ← go_on (λ c. follow endpoint fuel (some c)) next
    pure (rows ++ rest)

module _ {A Text J : Type 0} (time key : A → ℕ) (lib : Codec Text J)
    (decode : Text → Result (Option ℕ × Option ℕ)) (encode : ℕ → ℕ → Text) (limit : ℕ)
    (xs : List A) where
  -- What a list of the rows `xs` does
  unfoldable pub read_page : Option Text → Action (List A × Option Text)
  read_page cursor = do
    given ← lift (read_cursor lib decode cursor)
    let rows = page time key limit (both_given given) xs
    next ← next_cursor time key encode limit rows
    pure (rows, next)

  abbrev text_of : Option (ℕ × ℕ) → Option Text
  text_of none = none
  text_of (some (t, i)) = some (encode t i)

  abbrev given_by : Option (ℕ × ℕ) → Option ℕ × Option ℕ
  given_by none = (none, none)
  given_by (some (t, i)) = (some t, some i)

  both_given-given_by : (k : Option (ℕ × ℕ)) → both_given (given_by k) ≡ k
  both_given-given_by none = refl
  both_given-given_by (some (t, i)) = refl

  append_nil : (l : List A) → l ++ [] ≡ l
  append_nil [] = refl
  append_nil (x ∷ l) = ap (λ r. x ∷ r) (append_nil l)

  last_of_full :
      (n : ℕ) (rows : List A)
      → length rows ≡ suc n
      → (t : ℕ) × (i : ℕ) × (last_of time key rows ≡ some (t, i))
  last_of_full n [] h = absurd (omega (arith, h))
  last_of_full n (x ∷ []) h = (time x, key x, refl)
  last_of_full zero (x ∷ y ∷ rows) h = absurd (omega (arith, h))
  last_of_full (suc n) (x ∷ y ∷ rows) h = last_of_full n (y ∷ rows) (omega (arith, h))

  module _ (s : DbSession) (endpoint : Option Text → Action (List A × Option Text))
      (reads : (cursor : Option Text) → endpoint cursor s ≡ read_page cursor s)
      (kept : (t i : ℕ) → lib.truthy (encode t i) ≡ true)
      (decoded : (t i : ℕ) → decode (encode t i) ≡ ok (some t, some i)) where
    read_cursor-text_of :
        (k : Option (ℕ × ℕ)) → read_cursor lib decode (text_of k) ≡ ok (given_by k)
    unfolding read_cursor
    read_cursor-text_of none = refl
    read_cursor-text_of (some (t, i)) = rw (kept t i) (decoded t i)

    follow-walk :
        (n fuel : ℕ) (k : Option (ℕ × ℕ))
        → limit ≡ suc n
        → follow endpoint fuel (text_of k) s ≡ (ok (walk time key fuel limit k xs), s)
    unfolding follow walk read_page next_cursor
    follow-walk n zero k full = refl
    follow-walk n (suc fuel) k full =
        elim (Bool-cases (length (page time key limit k xs) == limit)) [
          | inl whole ↦
              let (t, i, last) =
                last_of_full n (page time key limit k xs) (ground (arith, whole, full)) in
              rw
                (
                  reads (text_of k),
                  read_cursor-text_of k,
                  both_given-given_by k,
                  whole,
                  last,
                  follow-walk n fuel (some (t, i)) full,
                )
                refl
          | inr partly ↦
              rw
                (
                  reads (text_of k),
                  read_cursor-text_of k,
                  both_given-given_by k,
                  partly,
                  append_nil (page time key limit k xs),
                )
                refl
        ]

    -- Following the cursors gives every row once, newest first, and changes nothing.
    pub follow-newest_first :
        (n fuel : ℕ)
        → limit ≡ suc n
        → UniqueBy key xs
        → length xs < fuel
        → follow endpoint fuel none s ≡ (ok (newest_first time key xs), s)
    follow-newest_first n fuel full unique low =
        follow-walk n fuel none full
        ∙ ap (λ l. (ok l, s))
            (walk-newest_first time key limit xs unique n fuel full
              (rw (length-order_by (newer_first time key) xs) low))
