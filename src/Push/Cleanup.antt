-- ===== src/Push/Cleanup.antt =====
-- What a push leaves in the table: every token but those that Firebase no longer knows.
use kupio_backend.Base.{
  ℕ, ◌≡◌, ◌≢◌, refl, inl, inr, Bool, true, false, not, ◌&&◌, ◌||◌, List, [], ◌∷◌, ◌==◌, map,
  Bool-cases, ap, ◌∙◌, arith,
}
use kupio_backend.Base.Lists.{All, All-both, All-mono, UniqueBy, select}
use kupio_backend.Base.Sorted.{UniqueBy-select}
use kupio_backend.Models.{Database}
use kupio_backend.Models.Users.{NotificationToken}
use kupio_backend.Core.Action.{DbSession, ok, opened}
use kupio_backend.Core.Repository
use kupio_backend.Users
use kupio_backend.Push.{
  SendOutcome, FcmMessage, is_dead, message_to, delete_each, delete_dead, send_fcm_push,
}

module _ {A : Type 0} where
  pub select-select :
      (p q : A → Bool) (xs : List A) → select q (select p xs) ≡ select (λ x. p x && q x) xs
  unfolding select
  select-select p q [] = refl
  select-select p q (x ∷ xs) = ground (arith, select-select p q xs)

  pub select-ext :
      (p q : A → Bool) (xs : List A) → All (λ x. p x ≡ q x) xs → select p xs ≡ select q xs
  unfolding select
  select-ext p q [] h = refl
  select-ext p q (x ∷ xs) h = rw (h.0, select-ext p q xs h.1) refl

  pub select_all : (xs : List A) → select (λ _. true) xs ≡ xs
  unfolding select
  select_all [] = refl
  select_all (x ∷ xs) = rw (select_all xs) refl

  pub All_each : {P : A → Type 0} (xs : List A) → ((x : A) → P x) → All P xs
  All_each [] h = tt
  All_each (x ∷ xs) h = (h x, All_each xs h)

-- The id is one of these.
abbrev is_among : List ℕ → ℕ → Bool
is_among [] i = false
is_among (j ∷ js) i = i == j || is_among js i

abbrev ids : List NotificationToken → List ℕ
ids ts = map (λ t. t.id) ts

abbrev with_tokens : List NotificationToken → DbSession → DbSession
with_tokens ts s = record s { working = record s.working { notification_tokens = ts } }

delete_each_lem :
    (js : List ℕ) (s : DbSession)
    → delete_each js s
      ≡ (ok tt, with_tokens (select (λ t. not (is_among js t.id)) s.working.notification_tokens) s)
unfolding delete_each Users.delete_token_by_id Repository.delete
delete_each_lem [] s = rw (select_all s.working.notification_tokens) refl
delete_each_lem (j ∷ js) s =
    let ts = s.working.notification_tokens in
    let others = select (λ t. not (t.id == j)) ts in
    let fused : select (λ t. not (is_among js t.id)) others
        ≡ select (λ t. not (is_among (j ∷ js) t.id)) ts =
      select-select (λ t. not (t.id == j)) (λ t. not (is_among js t.id)) ts
      ∙ select-ext _ _ ts (All_each ts (λ t. ground arith)) in
    delete_each_lem js (with_tokens others s) ∙ ap (λ us. (ok tt, with_tokens us s)) fused

module _ (dead : NotificationToken → Bool) where
  is_among_none :
      (i : ℕ) (ts : List NotificationToken)
      → All (λ t. t.id ≢ i) ts
      → is_among (ids (select dead ts)) i ≡ false
  unfolding select
  is_among_none i [] h = refl
  is_among_none i (t ∷ ts) h = ground (arith, is_among_none i ts h.1)

  later :
      (t : NotificationToken) (ts : List NotificationToken) (y : NotificationToken)
      → y.id ≢ t.id
      → is_among (ids (select dead ts)) y.id ≡ dead y
      → is_among (ids (select dead (t ∷ ts))) y.id ≡ dead y
  unfolding select
  later t ts y ne h = ground arith

  is_among-dead :
      (ts : List NotificationToken)
      → UniqueBy (λ t. t.id) ts
      → All (λ t. is_among (ids (select dead ts)) t.id ≡ dead t) ts
  unfolding select
  is_among-dead [] h = tt
  is_among-dead (t ∷ ts) h = (
    elim (Bool-cases (dead t)) [
      | inl hit ↦ rw hit (ground arith)
      | inr miss ↦ rw miss (is_among_none t.id ts h.0)
    ],
    All-mono ts (λ y both. later t ts y both.0 both.1) (All-both _ _ ts h.0 (is_among-dead ts h.1)),
  )

delete_dead_lem :
    (js : List ℕ) (db : Database)
    → delete_dead js (opened db) ≡ (
      ok tt,
      opened (record db {
        notification_tokens = select (λ t. not (is_among js t.id)) db.notification_tokens;
      }),
    )
delete_dead_lem [] db = rw (select_all db.notification_tokens) refl
delete_dead_lem (j ∷ js) db = rw (delete_each_lem (j ∷ js) (opened db)) refl

module _ (send : FcmMessage → SendOutcome) (recipient_user_id notification : ℕ) where
  abbrev mine : NotificationToken → Bool
  mine t = t.user_id == recipient_user_id

  -- Firebase does not know the token.
  abbrev unknown : NotificationToken → Bool
  unknown t = is_dead (send (message_to notification t))

  abbrev kept : NotificationToken → Bool
  kept t = not (mine t && unknown t)

  -- The database without the recipient's unknown tokens
  abbrev pub cleaned : Database → Database
  cleaned db = record db { notification_tokens = select kept db.notification_tokens }

  send_fcm_push-cleaned :
      (db : Database)
      → UniqueBy (λ t. t.id) db.notification_tokens
      → send_fcm_push send recipient_user_id notification (opened db) ≡ (
        ok (map (message_to notification) (select mine db.notification_tokens)),
        opened (cleaned db),
      )
  unfolding send_fcm_push Users.get_tokens_for_user Repository.get_many
  send_fcm_push-cleaned db unique =
      let ts = db.notification_tokens in
      let dead : NotificationToken → Bool = λ t. mine t && unknown t in
      let same : select (λ t. not (is_among (ids (select dead ts)) t.id)) ts ≡ select kept ts =
        select-ext _ _ ts (All-mono ts (λ t e. ap not e) (is_among-dead dead ts unique)) in
      rw (select-select mine unknown ts, delete_dead_lem, same) refl

  -- Where token ids are unique, a push tries the message once for each token of the recipient, in the
  -- order of the table, and deletes exactly those of them that Firebase does not know, and nothing else.
  -- The same push again, where Firebase answers the same, tries the other tokens and changes nothing.
  pub send_fcm_push-send_fcm_push :
      (db : Database)
      → UniqueBy (λ t. t.id) db.notification_tokens
      → (send_fcm_push send recipient_user_id notification (opened db) ≡ (
        ok (map (message_to notification) (select mine db.notification_tokens)),
        opened (cleaned db),
      ))
        × (send_fcm_push send recipient_user_id notification (opened (cleaned db)) ≡ (
          ok (
              map
                (message_to notification)
                (select (λ t. mine t && not (unknown t)) db.notification_tokens)),
          opened (cleaned db),
        ))
  send_fcm_push-send_fcm_push db unique =
      let ts = db.notification_tokens in
      let others : select mine (select kept ts) ≡ select (λ t. mine t && not (unknown t)) ts =
        select-select kept mine ts ∙ select-ext _ _ ts (All_each ts (λ t. ground arith)) in
      let again : select kept (select kept ts) ≡ select kept ts =
        select-select kept kept ts ∙ select-ext _ _ ts (All_each ts (λ t. ground arith)) in
      (
        send_fcm_push-cleaned db unique,
        send_fcm_push-cleaned (cleaned db) (UniqueBy-select (λ t. t.id) kept ts unique)
            ∙ rw (others, again) refl,
      )
