-- ===== src/Profiles/Registry.antt =====
-- The table of notification tokens as a map from user, platform and token to the device and the time it
-- was last seen, and `register_token` as an assignment to one of its entries.
use kupio_backend.Base.{
  ℕ, ◌≡◌, refl, sym, ap, inl, inr, Bool, true, false, ◌&&◌, ◌||◌, Option, some, List, [], ◌∷◌, ◌++◌,
  ◌==◌, Bool-cases, Option-cases, if◌then◌else◌, arith,
}
use kupio_backend.Base.Lists.{
  head?, select, some_row, update_where, head?-select-append, head?-select-update_where,
  head?-select-holds, select-append, some_row-select,
}
use kupio_backend.Models.{Database}
use kupio_backend.Models.Users.{User, NotificationToken, DevicePlatform}
use kupio_backend.Core.Action.{Result, DbSession, ok, opened, in_uow}
use kupio_backend.Core.Repository
use kupio_backend.Users
use kupio_backend.Users.{same_token, same_platform, new_token, notification_tokens}
use kupio_backend.Profiles.{register_token}
use mathlib.Core.Option

-- What is known of a token: the device, and the time it was last seen.
abbrev pub Seen : Type 0
Seen = Option ℕ × ℕ

abbrev pub Registry : Type 0
Registry = ℕ → DevicePlatform → ℕ → Option Seen

abbrev seen : NotificationToken → Seen
seen t = (t.device_id, t.last_seen_at)

abbrev pub entry : List NotificationToken → Registry
entry ts user_id platform token =
    Option.map seen (head? (select (same_token user_id platform token) ts))

abbrev pub registry : Database → Registry
registry db = entry db.notification_tokens

abbrev pub put : ℕ → DevicePlatform → ℕ → Seen → Registry → Registry
put user_id platform token v old u p k =
    if u == user_id && same_platform p platform && k == token then some v else old u p k

same_platform_inj : (p q : DevicePlatform) → same_platform p q ≡ true → p ≡ q
same_platform_inj DevicePlatform.ios DevicePlatform.ios h = refl
same_platform_inj DevicePlatform.android DevicePlatform.android h = refl
same_platform_inj DevicePlatform.ios DevicePlatform.android h = cc
same_platform_inj DevicePlatform.android DevicePlatform.ios h = cc

-- A row has one key.
same_token-key :
    (u k : ℕ) (p : DevicePlatform) (t : NotificationToken)
    → same_token u p k t ≡ true
    → (u ≡ t.user_id) × (p ≡ t.platform) × (k ≡ t.token)
same_token-key u k p t h =
    (ground arith, same_platform_inj p t.platform (ground arith), ground arith)

same_token-same_token :
    (u u' k k' : ℕ) (p p' : DevicePlatform) (t : NotificationToken)
    → same_token u p k t ≡ true
    → same_token u' p' k' t ≡ (u' == u && same_platform p' p && k' == k)
same_token-same_token u u' k k' p p' t h = let (a, b, c) = same_token-key u k p t h in rw (a, b, c)

some_row-head? :
    (q : NotificationToken → Bool) (ts : List NotificationToken)
    → some_row q ts ≡ true
    → (t : NotificationToken) × (head? (select q ts) ≡ some t)
unfolding select some_row
some_row-head? q [] h = cc
some_row-head? q (t ∷ ts) h = elim (Bool-cases (q t)) [
  | inl hit ↦ (t, rw hit)
  | inr miss ↦ rw miss (some_row-head? q ts (ground arith))
]

-- The row of a token that has just been seen on a device
abbrev IsSeen : (now user_id token : ℕ) → DevicePlatform → Option ℕ → NotificationToken → Type 0
IsSeen now user_id token platform device_id t =
    (t.user_id ≡ user_id)
    × (t.platform ≡ platform)
    × (t.token ≡ token)
    × (seen t ≡ (device_id, now))

module _ (now user_id token : ℕ) (platform : DevicePlatform) (device_id : Option ℕ)
    (ts : List NotificationToken) where
  abbrev key : NotificationToken → Bool
  key = same_token user_id platform token

  abbrev after : Registry
  after = put user_id platform token (device_id, now) (entry ts)

  abbrev refreshed : NotificationToken → NotificationToken
  refreshed t = record t { device_id = device_id; last_seen_at = now }

  entry-append :
      (id u : ℕ) (p : DevicePlatform) (k : ℕ)
      → some_row key ts ≡ false
      → entry (ts ++ new_token now id user_id token platform device_id ∷ []) u p k ≡ after u p k
  unfolding select
  entry-append id u p k none_yet =
      let r = new_token now id user_id token platform device_id in
      elim (Bool-cases (same_token u p k r)) [
        | inl same ↦
            let (a, b, c) = same_token-key u k p r same in
            let none : some_row (same_token u p k) ts ≡ false = rw (a, b, c) none_yet in
            rw
              (
                select-append (same_token u p k) ts (r ∷ []),
                some_row-select (same_token u p k) ts none,
                same,
              )
              refl
        | inr other ↦ rw (head?-select-append (same_token u p k) ts r other, other) refl
      ]

  -- A row with another key is not updated.
  other_row :
      (u : ℕ) (p : DevicePlatform) (k : ℕ) (t : NotificationToken)
      → (u == user_id && same_platform p platform && k == token) ≡ false
      → same_token u p k t ≡ true
      → key t ≡ false
  other_row u p k t other fits = elim (Bool-cases (key t)) [
    | inl hit ↦ let clash = same_token-same_token user_id u token k platform p t hit in absurd cc
    | inr miss ↦ miss
  ]

  entry-update :
      (u : ℕ) (p : DevicePlatform) (k : ℕ)
      → some_row key ts ≡ true
      → entry (update_where key refreshed ts) u p k ≡ after u p k
  entry-update u p k there =
      rw (head?-select-update_where (same_token u p k) key refreshed ts (λ t. refl))
        (elim (Bool-cases (same_token u p k (new_token now 0 user_id token platform device_id))) [
          | inl same ↦
              let (a, b, c) =
                same_token-key u k p (new_token now 0 user_id token platform device_id) same in
              let (t, first) = some_row-head? key ts there in
              let found : head? (select (same_token u p k) ts) ≡ some t = rw (a, b, c) first in
              rw (found, head?-select-holds key ts t first, same) refl
          | inr other ↦ elim (Option-cases (head? (select (same_token u p k) ts))) [
            | inl none_found ↦ rw (none_found, other) refl
            | inr (t, found) ↦
                rw (found, other_row u p k t other (head?-select-holds _ ts t found), other) refl
          ]
        ])

  update-IsSeen :
      some_row key ts ≡ true
      → (t : NotificationToken) × (head? (select key (update_where key refreshed ts)) ≡ some t)
        × IsSeen now user_id token platform device_id t
  update-IsSeen there =
      let (t, found) = some_row-head? key ts there in
      let fits = head?-select-holds key ts t found in
      let (a, b, c) = same_token-key user_id token platform t fits in
      (
        refreshed t,
        rw (head?-select-update_where key key refreshed ts (λ t. refl), found, fits) refl,
        (sym a, sym b, sym c, refl),
      )

-- A new row of a new key breaks no constraint.
no_clash :
    (id user_id token : ℕ) (platform : DevicePlatform) (ts : List NotificationToken)
    → some_row (λ t. id == t.id) ts ≡ false
    → some_row (same_token user_id platform token) ts ≡ false
    → some_row (λ t. id == t.id || same_token user_id platform token t) ts ≡ false
unfolding some_row
no_clash id user_id token platform [] fresh none_yet = refl
no_clash id user_id token platform (t ∷ ts) fresh none_yet =
    ground (arith, no_clash id user_id token platform ts)

module _ (now id : ℕ) (current_user : User) (token : ℕ) (platform : DevicePlatform)
    (device_id : Option ℕ) (db : Database) where
  -- A request that assigned the entry of the token
  abbrev pub IsRegistered : Result (Option NotificationToken) × DbSession → Type 0
  IsRegistered q =
      ((t : NotificationToken) × (q.0 ≡ ok (some t))
        × IsSeen now current_user.id token platform device_id t)
      × ((u : ℕ) (p : DevicePlatform) (k : ℕ)
          → registry q.1.committed u p k
            ≡ put current_user.id platform token (device_id, now) (registry db) u p k)
      × (q.1.committed ≡ record db { notification_tokens = q.1.committed.notification_tokens })

  -- The registration of a token assigns one entry of the map from user, platform and token to the device
  -- and the time it was last seen: afterwards this entry is the given device and the time of the
  -- request, whether there was one or not, and every other entry is as it was; the row of the entry is
  -- returned, and no other table has changed. The id of the new row is new to the table.
  pub register_token-put :
      some_row (λ t. id == t.id) db.notification_tokens ≡ false
      → IsRegistered (register_token now id current_user token platform device_id (opened db))
  unfolding register_token Users.upsert Repository.add Repository.get Repository.update_only in_uow
  register_token-put fresh =
      elim (Bool-cases
        (some_row (same_token current_user.id platform token) db.notification_tokens)) [
          | inl there ↦
              let (t, found, is_seen) =
                update-IsSeen now current_user.id token platform device_id db.notification_tokens
                  there in
              rw there (
                (t, ap (λ o. ok o) found, is_seen),
                λ u p k.
                    entry-update now current_user.id token platform device_id db.notification_tokens
                      u p k there,
                refl,
              )
          | inr none_yet ↦
              let apart =
                no_clash id current_user.id token platform db.notification_tokens fresh none_yet in
              rw (none_yet, apart)
                (
                  (
                    new_token now id current_user.id token platform device_id,
                    refl,
                    (refl, refl, refl, refl),
                  ),
                  λ u p k.
                      entry-append now current_user.id token platform device_id
                        db.notification_tokens id u p k none_yet,
                  refl,
                )
        ]
