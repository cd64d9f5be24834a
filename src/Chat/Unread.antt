-- ===== src/Chat/Unread.antt =====
-- The unread counts of src/domains/chat/repository.py: the total, and what reading does.
use kupio_backend.Base.{
  ℕ, ◌+◌, ◌≡◌, refl, ap, ◌∙◌, Bool, true, false, List, [], ◌∷◌, arith, if◌then◌else◌,
}
use kupio_backend.Base.Lists.{length, select}
use kupio_backend.Base.Joins.{sum_by, length-join_where-flip}
use kupio_backend.Models.Users.{User}
use kupio_backend.Models.Chat.{Conversation, Message}
use kupio_backend.Core.Action.{ok, DbSession}
use kupio_backend.Chat.{get_total_unread_count}
use kupio_backend.Chat.Rows.{
  has_participant, unread_of, is_unread, unread_count, get_total_unread_count_of,
}

sum_if :
    (count : Conversation → ℕ) (b : Bool) (c : Conversation) (cs : List Conversation) (n t : ℕ)
    → (b ≡ true → n ≡ count c)
    → (b ≡ false → n ≡ 0)
    → t ≡ sum_by count cs
    → n + t ≡ sum_by count (if b then c ∷ cs else cs)
sum_if count true c cs n t hits misses rest = omega (arith, hits refl, rest)
sum_if count false c cs n t hits misses rest = omega (arith, misses refl, rest)

module _ (user_id : ℕ) (ms : List Message) where
  select-unread_of :
      (c : Conversation)
      → has_participant user_id c ≡ true
      → (ns : List Message)
      → select (λ m. unread_of user_id m c) ns ≡ select (is_unread user_id c) ns
  unfolding select
  select-unread_of c h [] = refl
  select-unread_of c h (m ∷ ns) = rw h (ground (arith, select-unread_of c h ns))

  select-outside :
      (c : Conversation)
      → has_participant user_id c ≡ false
      → (ns : List Message) → select (λ m. unread_of user_id m c) ns ≡ []
  unfolding select
  select-outside c h [] = refl
  select-outside c h (m ∷ ns) = rw h (ground (arith, select-outside c h ns))

  sum-conversations :
      (cs : List Conversation)
      → sum_by (λ c. length (select (λ m. unread_of user_id m c) ms)) cs
        ≡ sum_by (unread_count user_id ms) (select (has_participant user_id) cs)
  unfolding select unread_count
  sum-conversations [] = refl
  sum-conversations (c ∷ cs) =
      sum_if (unread_count user_id ms) (has_participant user_id c) c
        (select (has_participant user_id) cs) (length (select (λ m. unread_of user_id m c) ms)) _
        (λ takes_part. ap length (select-unread_of c takes_part ms))
        (λ outside. ap length (select-outside c outside ms)) (sum-conversations cs)

-- The total of unread messages is the sum of the unread counts of the conversations that the user takes
-- part in, as the seller or as the buyer, and asking for it changes nothing.
pub get_total_unread_count-sum :
    (current_user : User) (s : DbSession)
    → get_total_unread_count current_user s ≡ (
      ok (
          sum_by
            (unread_count current_user.id s.working.messages)
            (select (has_participant current_user.id) s.working.conversations)),
      s,
    )
unfolding get_total_unread_count get_total_unread_count_of
get_total_unread_count-sum current_user s =
    ap (λ n. (ok n, s))
      (length-join_where-flip (unread_of current_user.id) s.working.messages s.working.conversations
        ∙ sum-conversations current_user.id s.working.messages s.working.conversations)
