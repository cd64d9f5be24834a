-- ===== src/Access/Tests.antt =====
-- A moderator, a seller and their tokens
use Prim.Native.Nat.{zero, suc}
use kupio_backend.Base.{◌≡◌, ◌≢◌, refl, true, false, none, some, [], ◌∷◌}
use kupio_backend.Base.Int.{pos}
use kupio_backend.Base.Lists.{select, update_where, some_row}
use kupio_backend.Models.{Database, empty}
use kupio_backend.Models.Users.{User, Moderator, user, moderator}
use kupio_backend.Models.Listings.{Listing, active, usd}
use kupio_backend.Models.Reports.{ListingReport, pending, user_banned, ban_user}
use kupio_backend.Core.Action.{ok, opened, in_uow}
use kupio_backend.Core.Repository
use kupio_backend.Users
use kupio_backend.Listings
use kupio_backend.Reports.{moderate_report, decide, enforce, get_report}
use kupio_backend.Reports.Rows.{
  new_report, resolve_pending_by_id, resolve_pending_for_user_listings, get_report_by_id,
}
use kupio_backend.Access.{
  Decode, get_current_user, user_of_claims, get_current_moderator, moderator_of,
  require_moderator_role, get_owned_listing_by_id, owned_by, is_moderator,
}
use kupio_backend.Access.Guards.{IsCurrent, get_current_moderator-IsCurrent, banned_shut_out}

-- A token is the user's id plus one; zero is no token.
abbrev decode : Decode
decode zero = none
decode (suc n) = some (record { user_id = some n; device_id = none })

abbrev seller : User
seller = record {
  id = 1;
  username = some 11;
  email = 12;
  display_name = none;
  phone = none;
  password_hash = none;
  role = user;
  balance = pos 0;
  avatar_image_id = none;
  deleted_at = none;
}

abbrev judge_user : User
judge_user = record seller { id = 9; username = some 91; email = 92; role = moderator }

abbrev judge : Moderator
judge = record { id = 5; user_id = 9; last_action_at = none }

abbrev flat : Listing
flat = record {
  id = 3;
  user_id = 1;
  category_id = 4;
  price = 90;
  is_free = false;
  is_tradable = false;
  title = 60;
  description = 61;
  currency = usd;
  custom_filters = none;
  phone = none;
  contact_name = none;
  is_calls_disabled = false;
  status = active;
  created_at = 5;
  deleted_at = none;
}

abbrev complaint : ListingReport
complaint = new_report 30 100 3 2 7 none pending

abbrev place : Database
place = record empty {
  users = seller ∷ judge_user ∷ [];
  moderators = judge ∷ [];
  listings = flat ∷ [];
  reports = complaint ∷ [];
}

judge_enters : (get_current_moderator decode 10 (opened place)).0 ≡ ok judge
unfolding get_current_moderator get_current_user user_of_claims moderator_of require_moderator_role
    Users.get_by_id Users.get_moderator_by_user_id Repository.get select
judge_enters = refl

get_current_moderator-IsCurrent_example :
    (u : User) × IsCurrent decode 10 u place × (is_moderator u.role ≡ true) × (9 ≡ u.id)
get_current_moderator-IsCurrent_example =
    get_current_moderator-IsCurrent decode 10 place judge judge_enters

seller_edits : (get_owned_listing_by_id decode 2 3 (opened place)).0 ≡ ok flat
unfolding get_owned_listing_by_id owned_by get_current_user user_of_claims Users.get_by_id
    Listings.get_listing Listings.get_by_id Repository.get select
seller_edits = refl

abbrev after_ban : ListingReport
after_ban = record complaint {
  status = user_banned;
  seen_at = some 200;
  seen_by_moderator_id = some 5;
  moderated_at = some 200;
  moderator_id = some 5;
  moderator_comment = none;
}

ban_works : (moderate_report ban_user none 200 complaint flat judge (opened place)).0 ≡ ok after_ban
unfolding moderate_report decide enforce in_uow get_report get_report_by_id Repository.get
    Repository.update Repository.update_count resolve_pending_by_id
    resolve_pending_for_user_listings Users.soft_delete_by_id Users.touch_last_action
    Listings.soft_delete_by_user_id Repository.soft_delete Repository.soft_delete_count select
    update_where some_row
ban_works = refl

others_enter :
    let db' = (moderate_report ban_user none 200 complaint flat judge (opened place)).1.committed in
    (get_current_user decode 10 (opened db')).0 ≡ ok judge_user
unfolding moderate_report decide enforce in_uow get_report get_report_by_id Repository.get
    Repository.update Repository.update_count resolve_pending_by_id
    resolve_pending_for_user_listings Users.soft_delete_by_id Users.touch_last_action
    Listings.soft_delete_by_user_id Repository.soft_delete Repository.soft_delete_count select
    update_where some_row get_current_user user_of_claims Users.get_by_id
others_enter = refl

banned_shut_out_example : judge_user.id ≢ flat.user_id
banned_shut_out_example =
    banned_shut_out decode none 200 complaint flat judge place after_ban 10 judge_user ban_works
      others_enter
