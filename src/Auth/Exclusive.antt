-- ===== src/Auth/Exclusive.antt =====
-- At most one live session for a user on a device: what the single-row statement of
-- `revoke_active_for_device` relies on, and how each statement keeps it.
use kupio_backend.Base.{
  ℕ, ◌≤◌, ◌≡◌, refl, inl, inr, Bool, true, false, ◌&&◌, not, Option, none, some, List, [], ◌∷◌,
  ◌++◌, map, arith, ◌==◌, Bool-cases,
}
use kupio_backend.Base.Lists.{
  All-trivial, All, All-mono, All-update_where, select, update_where, head?,
}
use kupio_backend.Base.Pairs.{
  AllPairs, AllPairs-update_where, AllPairs-append, AllPairs-mono, found-or-related,
}
use kupio_backend.Models.Auth.{Session}
use kupio_backend.Core.Action.{ok}
use kupio_backend.Core.Repository
use kupio_backend.Auth.Rows.{live, revoke, sessions}

abbrev pub of_device : ℕ → ℕ → Session → Bool
of_device user_id device_id s = s.user_id == user_id && s.device_id == device_id

-- Not both live for one user on one device
abbrev pub Apart : ℕ → Session → Session → Type 0
Apart now s t = (live now s && (live now t && of_device s.user_id s.device_id t)) ≡ false

abbrev pub IsExclusive : ℕ → List Session → Type 0
IsExclusive now = AllPairs (Apart now)

Apart-symm : (now : ℕ) (s t : Session) → Apart now s t → Apart now t s
Apart-symm now s t h = ground arith

-- Sessions run out with time.
pub IsExclusive-later :
    (now later : ℕ) (ss : List Session) → now ≤ later → IsExclusive now ss → IsExclusive later ss
IsExclusive-later now later ss le =
    AllPairs-mono (Apart now) (Apart later) ss (λ s t h. ground arith)

pub revoke-IsExclusive :
    (now : ℕ) (p : Session → Bool) (f : Session → Session) (ss : List Session)
    → ((s : Session) → live now (f s) ≡ false)
    → IsExclusive now ss
    → IsExclusive now (update_where p f ss)
revoke-IsExclusive now p f ss dead =
    AllPairs-update_where (Apart now) (Apart now) p f ss (λ s t h. ground (arith, dead s, dead t))

-- The session that is added is the only live one of its device if the others of it are not live.
pub add-IsExclusive :
    (now : ℕ) (ss : List Session) (new : Session)
    → All (λ s. (live now s && of_device new.user_id new.device_id s) ≡ false) ss
    → IsExclusive now ss
    → IsExclusive now (ss ++ new ∷ [])
add-IsExclusive now ss new free h =
    AllPairs-append (Apart now) ss new (All-mono ss (λ s n. ground arith) free) h

abbrev pub revoke_device : ℕ → ℕ → ℕ → List Session → List Session
revoke_device now user_id device_id =
    update_where (λ s. s.user_id == user_id && s.device_id == device_id && live now s)
      (λ s. record s { is_revoked = true })

pub revoke_device-free :
    (now user_id device_id : ℕ) (ss : List Session)
    → All
        (λ s. (live now s && of_device user_id device_id s) ≡ false)
        (revoke_device now user_id device_id ss)
revoke_device-free now user_id device_id ss =
    All-update_where _ _ _ ss (λ s _. ground arith) (All-trivial ss)

-- Revoking the session that was found frees its device.
pub revoke_found-free :
    (now user_id device_id : ℕ) (q : Session → Bool) (ss : List Session) (a : Session)
    → IsExclusive now ss
    → head? (select q ss) ≡ some a
    → live now a ≡ true
    → of_device user_id device_id a ≡ true
    → All
        (λ s. (live now s && of_device user_id device_id s) ≡ false)
        (update_where (λ s. s.id == a.id && not s.is_revoked) (revoke now) ss)
revoke_found-free now user_id device_id q ss a h found alive here =
    All-update_where _ _ _ ss (λ s k. elim k [ inl same ↦ ground arith | inr apart ↦ ground arith ])
      (found-or-related (Apart now) q ss a (Apart-symm now) h found)

none_other :
    (now user_id device_id : ℕ) (f : Session → Session) (ss : List Session) (x : Session)
    → live now x ≡ true
    → of_device user_id device_id x ≡ true
    → All (λ t. Apart now x t) ss
    → select (λ s. s.user_id == user_id && s.device_id == device_id && live now s) ss ≡ []
unfolding select
none_other now user_id device_id f [] x alive here h = refl
none_other now user_id device_id f (s ∷ ss) x alive here h =
    ground (arith, none_other now user_id device_id f ss x alive here h.1)

-- So the statement that expects one row at most never finds two.
pub revoke_device-single :
    (now user_id device_id : ℕ) (f : Session → Session) (ss : List Session)
    → IsExclusive now ss
    → (o : Option Session) × (Repository.scalar_one_or_none sessions
          (map f (select (λ s. s.user_id == user_id && s.device_id == device_id && live now s) ss))
        ≡ ok o)
unfolding select
revoke_device-single now user_id device_id f [] h = (none, refl)
revoke_device-single now user_id device_id f (s ∷ ss) h =
    elim (Bool-cases (s.user_id == user_id && s.device_id == device_id && live now s)) [
      | inl fits ↦
          let rest = none_other now user_id device_id f ss s (ground arith) (ground arith) h.0 in
          (some (f s), rw (fits, rest))
      | inr other ↦
          let (o, e) = revoke_device-single now user_id device_id f ss h.1 in (o, rw other e)
    ]
