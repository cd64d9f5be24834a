-- ===== src/Reports.antt =====
-- src/domains/reports/service.py: report reasons, reports of listings and their moderation. A serial
-- number that the database gives to a new row is an argument, and so is the clock.
pub mod Rows
pub mod Moderation
pub mod Bans
pub mod Decisions
pub mod Book
pub mod Filing
pub mod Lists
mod Tests
use kupio_backend.Base.{
  ℕ, ⊤, Bool, true, false, ◌&&◌, not, Option, none, some, ◌==◌, is_none, is_some, holds,
  if◌then◌else◌,
}
use kupio_backend.Models.Users.{User, Moderator}
use kupio_backend.Models.Listings.{Listing}
use kupio_backend.Models.Reports.{
  ReportReason, ListingReport, ReportStatus, ReportDecisionAction, pending, declined,
  listing_removed, user_banned, decline, remove_listing, ban_user, ReportSeenFilter, all, seen,
  unseen,
}
use kupio_backend.Core.Errors.{
  report_reason_not_found, listing_report_not_found, duplicate_report_reason_slug,
  reserved_other_reason_slug, other_reason_cannot_be_deactivated, report_reason_inactive,
  custom_reason_details_required, cannot_report_own_listing, duplicate_pending_listing_report,
  listing_report_already_resolved, attribute_error, integrity_error,
}
use kupio_backend.Core.Action.{
  Action, ◌>>=◌, ◌>>◌, pure, raise, raise_if, or_raise, in_uow, except_integrity_error,
}
use kupio_backend.Users
use kupio_backend.Listings
use Rows.{
  Resolution, get_reason_by_id, get_by_slug, create_reason_row, ReasonUpdate, update_reason_by_id,
  get_report_by_id, create_report_row, exists_pending, mark_seen, resolve_pending_by_id,
  resolve_pending_for_listing, resolve_pending_for_user_listings,
}

-- The slug "other", OTHER_REPORT_REASON_SLUG: texts are numbers here.
abbrev pub other_slug : ℕ
other_slug = 0

unfoldable pub get_reason : ℕ → Action ReportReason
unfolding get_reason_by_id
get_reason reason_id = do
  reason ← get_reason_by_id reason_id
  or_raise reason report_reason_not_found

unfoldable pub get_report : ℕ → Action ListingReport
unfolding get_report_by_id
get_report report_id = do
  report ← get_report_by_id report_id
  or_raise report listing_report_not_found

-- What `create_reason` does on an IntegrityError
unfoldable pub again_by_slug : ℕ → Action ReportReason
unfolding get_by_slug
again_by_slug slug = do
  existing ← get_by_slug slug
  raise_if (is_some existing) duplicate_report_reason_slug
  raise integrity_error

unfoldable pub create_reason : ReportReason → Action ReportReason
unfolding get_by_slug create_reason_row again_by_slug
create_reason reason_data = do
  raise_if (reason_data.slug == other_slug) reserved_other_reason_slug
  existing ← get_by_slug reason_data.slug
  raise_if (is_some existing) duplicate_report_reason_slug
  except_integrity_error (in_uow (create_reason_row reason_data)) (again_by_slug reason_data.slug)

abbrev pub deactivates : ReasonUpdate → Bool
deactivates updates = elim updates.is_active [ none ↦ false | some active ↦ not active ]

unfoldable pub update_reason : ReportReason → ReasonUpdate → Action (Option ReportReason)
unfolding update_reason_by_id
update_reason reason updates =
    if is_none updates.display_order && is_none updates.is_active then pure (some reason) else do
      raise_if (reason.slug == other_slug && deactivates updates) other_reason_cannot_be_deactivated
      in_uow (update_reason_by_id reason.id updates)

-- What `create_report` does on an IntegrityError
unfoldable pub again_if_pending : ℕ → ℕ → Action (Option ListingReport)
unfolding exists_pending
again_if_pending listing_id reporter_id = do
  existing ← exists_pending listing_id reporter_id
  raise_if existing duplicate_pending_listing_report
  raise integrity_error

unfoldable pub create_report : (id now : ℕ) → User → Listing → ℕ → Option ℕ → Action ListingReport
unfolding get_reason exists_pending create_report_row again_if_pending
create_report id now current_user listing reason_id additional_info = do
  raise_if (listing.user_id == current_user.id) cannot_report_own_listing
  reason ← get_reason reason_id
  raise_if (not reason.is_active) report_reason_inactive
  raise_if (reason.slug == other_slug && is_none additional_info) custom_reason_details_required
  existing ← exists_pending listing.id current_user.id
  raise_if existing duplicate_pending_listing_report
  report ←
      except_integrity_error
        (in_uow
          (create_report_row id now listing.id current_user.id reason.id additional_info pending))
        (again_if_pending listing.id current_user.id)
  or_raise report attribute_error

-- The two transactions of `get_report_detail`
unfoldable pub see_again : ℕ → Moderator → Action ⊤
unfolding Users.touch_last_action
see_again now moderator = do Users.touch_last_action moderator.id now; pure tt

unfoldable pub see_first : ℕ → ListingReport → Moderator → Action ⊤
unfolding mark_seen see_again
see_first now report moderator = do mark_seen report.id moderator.id now; see_again now moderator

unfoldable pub see : ℕ → ListingReport → Moderator → Action ⊤
see now report moderator =
    if is_none report.seen_at
    then in_uow (see_first now report moderator)
    else in_uow (see_again now moderator)

unfoldable pub get_report_detail : ℕ → ListingReport → Moderator → Action ListingReport
get_report_detail now report moderator = do see now report moderator; get_report report.id

unfoldable pub resolve_seen_filter : ReportSeenFilter → Option Bool
resolve_seen_filter seen = some true
resolve_seen_filter unseen = some false
resolve_seen_filter all = none

abbrev pub resolve_moderation_status : ReportDecisionAction → ReportStatus
resolve_moderation_status decline = declined
resolve_moderation_status remove_listing = listing_removed
resolve_moderation_status ban_user = user_banned

-- The branches of `moderate_report`; `report.listing` was loaded with the report. The clock of the
-- database, which sets `deleted_at`, is taken to show the same time as the service's.
unfoldable pub enforce : ReportDecisionAction → ℕ → ListingReport → Listing → Resolution → Action ⊤
unfolding Listings.soft_delete_by_id Listings.soft_delete_by_user_id Users.soft_delete_by_id
    resolve_pending_for_listing resolve_pending_for_user_listings
enforce decline now report listing resolution = pure tt
enforce remove_listing now report listing resolution = do
  Listings.soft_delete_by_id now report.listing_id
  resolve_pending_for_listing report.listing_id resolution (some report.id)
  pure tt
enforce ban_user now report listing resolution = do
  Users.soft_delete_by_id now listing.user_id
  Listings.soft_delete_by_user_id now listing.user_id
  resolve_pending_for_user_listings listing.user_id resolution (some report.id)
  pure tt

abbrev pub resolution_of : ReportDecisionAction → Option ℕ → ℕ → Moderator → Resolution
resolution_of action comment now moderator = record {
  status = resolve_moderation_status action;
  moderator_id = moderator.id;
  moderated_at = now;
  moderator_comment = comment;
}

-- The transaction of `moderate_report`
unfoldable pub decide :
    ReportDecisionAction → Option ℕ → ℕ → ListingReport → Listing → Moderator → Action ⊤
unfolding resolve_pending_by_id enforce Users.touch_last_action
decide action comment now report listing moderator = do
  resolved ← resolve_pending_by_id report.id (resolution_of action comment now moderator)
  raise_if (not resolved) listing_report_already_resolved
  enforce action now report listing (resolution_of action comment now moderator)
  Users.touch_last_action moderator.id now
  pure tt

unfoldable pub moderate_report :
    ReportDecisionAction → Option ℕ → ℕ → ListingReport → Listing → Moderator → Action ListingReport
moderate_report action comment now report listing moderator = do
  in_uow (decide action comment now report listing moderator)
  get_report report.id
