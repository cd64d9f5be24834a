-- ===== src/Reports/Tests.antt =====
-- A reported listing, and the theorems on it
use kupio_backend.Base.{◌≡◌, refl, true, false, none, some, [], ◌∷◌}
use kupio_backend.Base.Int.{pos}
use kupio_backend.Base.Lists.{select, update_where, some_row}
use kupio_backend.Models.{Database, empty}
use kupio_backend.Models.Users.{User, Moderator, user}
use kupio_backend.Models.Listings.{Listing, active, usd}
use kupio_backend.Models.Reports.{
  ListingReport, ReportReason, pending, listing_removed, user_banned, ban_user, remove_listing,
  decline,
}
use kupio_backend.Core.Errors.{listing_report_already_resolved, duplicate_pending_listing_report}
use kupio_backend.Core.Action.{ok, err, opened, in_uow}
use kupio_backend.Core.Repository
use kupio_backend.Users
use kupio_backend.Listings
use kupio_backend.Reports.{
  moderate_report, create_report, decide, enforce, get_report, get_reason, again_if_pending,
}
use kupio_backend.Reports.Rows.{
  new_report, resolve_pending_by_id, resolve_pending_for_listing, resolve_pending_for_user_listings,
  get_report_by_id, get_reason_by_id, exists_pending, create_report_row,
}
use kupio_backend.Reports.Bans.{IsBanned, moderate_report-IsBanned}
use kupio_backend.Reports.Decisions.{moderate_report-moderate_report}
use kupio_backend.Reports.Book.{IsReportBook, moderate_report-IsReportBook}
use kupio_backend.Models.Reports.{unseen}
use kupio_backend.Base.{arith}
use kupio_backend.Base.Sorted.{order_by, insert_row}
use kupio_backend.Pagination.Pages.{follow}
use kupio_backend.Pagination.Sample.{codec, codec-IsCodec}
use kupio_backend.Reports.{resolve_seen_filter}
use kupio_backend.Reports.Lists.{page_of_reports, follow-list_reports}
use kupio_backend.Reports.Filing.{create_report-IsReportBook}

abbrev seller : User
seller = record {
  id = 1;
  username = some 11;
  email = 12;
  display_name = none;
  phone = none;
  password_hash = none;
  role = user;
  balance = pos 0;
  avatar_image_id = none;
  deleted_at = none;
}

abbrev reporter : User
reporter = record seller { id = 2; username = some 21; email = 22 }

abbrev judge : Moderator
judge = record { id = 5; user_id = 9; last_action_at = none }

abbrev flat : Listing
flat = record {
  id = 3;
  user_id = 1;
  category_id = 4;
  price = 90;
  is_free = false;
  is_tradable = false;
  title = 60;
  description = 61;
  currency = usd;
  custom_filters = none;
  phone = none;
  contact_name = none;
  is_calls_disabled = false;
  status = active;
  created_at = 5;
  deleted_at = none;
}

abbrev spam : ReportReason
spam = record {
  id = 7;
  slug = 70;
  title = 71;
  description = none;
  display_order = 0;
  is_active = true;
}

abbrev complaint : ListingReport
complaint = new_report 30 100 3 2 7 none pending

abbrev case : Database
case = record empty {
  users = seller ∷ reporter ∷ [];
  moderators = judge ∷ [];
  listings = flat ∷ [];
  report_reasons = spam ∷ [];
  reports = complaint ∷ [];
}

abbrev quiet : Database
quiet = record case { reports = [] }

case-IsReportBook : IsReportBook case.reports
case-IsReportBook = record { settled = ((refl, refl, refl, refl), tt); single = (tt, tt) }

abbrev after_ban : ListingReport
after_ban = record complaint {
  status = user_banned;
  seen_at = some 200;
  seen_by_moderator_id = some 5;
  moderated_at = some 200;
  moderator_id = some 5;
  moderator_comment = some 99;
}

ban_works :
    (moderate_report ban_user (some 99) 200 complaint flat judge (opened case)).0 ≡ ok after_ban
unfolding moderate_report decide enforce in_uow get_report get_report_by_id Repository.get
    Repository.update Repository.update_count resolve_pending_by_id
    resolve_pending_for_user_listings Users.soft_delete_by_id Users.touch_last_action
    Listings.soft_delete_by_user_id Repository.soft_delete Repository.soft_delete_count select
    update_where some_row
ban_works = refl

moderate_report-IsBanned_example :
    IsBanned 1 30 case
      (moderate_report ban_user (some 99) 200 complaint flat judge (opened case)).1.committed
moderate_report-IsBanned_example =
    moderate_report-IsBanned (some 99) 200 complaint flat judge case after_ban ban_works

moderate_report-moderate_report_example :
    let db' =
      (moderate_report ban_user (some 99) 200 complaint flat judge (opened case)).1.committed in
    moderate_report decline none 300 complaint flat judge (opened db')
    ≡ (err listing_report_already_resolved, opened db')
moderate_report-moderate_report_example =
    moderate_report-moderate_report ban_user decline (some 99) none 200 300 complaint flat judge
      judge case after_ban ban_works

abbrev after_removal : ListingReport
after_removal = record after_ban { status = listing_removed }

removal_works :
    (moderate_report remove_listing (some 99) 200 complaint flat judge (opened case)).0
    ≡ ok after_removal
unfolding moderate_report decide enforce in_uow get_report get_report_by_id Repository.get
    Repository.update Repository.update_count resolve_pending_by_id resolve_pending_for_listing
    Users.touch_last_action Listings.soft_delete_by_id Repository.soft_delete
    Repository.soft_delete_count select update_where some_row
removal_works = refl

moderate_report-IsReportBook_example :
    IsReportBook
      (moderate_report ban_user
        (some 99)
        200
        complaint
        flat
        judge
        (opened case)).1.committed.reports
moderate_report-IsReportBook_example =
    moderate_report-IsReportBook (some 99) 200 complaint flat judge case ban_user case-IsReportBook

filing_works : (create_report 30 100 reporter flat 7 none (opened quiet)).0 ≡ ok complaint
unfolding create_report get_reason get_reason_by_id exists_pending Repository.get create_report_row
    Repository.add in_uow again_if_pending get_report_by_id select some_row
filing_works = refl

create_report-IsReportBook_example :
    IsReportBook (create_report 31 110 reporter flat 7 none (opened case)).1.committed.reports
create_report-IsReportBook_example =
    create_report-IsReportBook 31 110 reporter flat 7 none case case-IsReportBook

refused :
    (create_report 31 110 reporter flat 7 none (opened case)).0
    ≡ err duplicate_pending_listing_report
unfolding create_report get_reason get_reason_by_id exists_pending Repository.get select
refused = refl

abbrev later : ListingReport
later = record complaint { id = 31; listing_id = 4 }

abbrev decided : ListingReport
decided = record after_removal { id = 29 }

abbrev two_unseen : Database
two_unseen = record case { reports = later ∷ decided ∷ complaint ∷ [] }

follow-list_reports_example :
    follow (page_of_reports codec 300 1 (some pending) unseen) 3 none (opened two_unseen)
    ≡ (ok (later ∷ complaint ∷ []), opened two_unseen)
unfolding order_by insert_row select resolve_seen_filter
follow-list_reports_example =
    follow-list_reports codec 300 1 (some pending) unseen codec-IsCodec 0 3 refl (opened two_unseen)
      ((omega arith, (omega arith, tt)), ((omega arith, tt), (tt, tt))) (omega arith)
