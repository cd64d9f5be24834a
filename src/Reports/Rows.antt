-- ===== src/Reports/Rows.antt =====
-- src/domains/reports/repository.py
use kupio_backend.Base.{
  ℕ, Bool, false, ◌&&◌, ◌||◌, not, Option, none, some, ◌==◌, ltb, is_none, is_some, if◌then◌else◌,
}
use kupio_backend.Base.Lists.{some_row}
use kupio_backend.Models.{Database}
use kupio_backend.Models.Reports.{ReportReason, ListingReport, ReportStatus, is_pending}
use kupio_backend.Core.Action.{Action, ◌>>=◌, pure}
use kupio_backend.Core.Repository
use kupio_backend.Core.Repository.{Model}

-- The primary key and the slug are unique.
abbrev pub report_reasons : Model ReportReason
report_reasons = record {
  rows = λ db. db.report_reasons;
  with_rows = λ rs db. record db { report_reasons = rs };
  is_deleted = λ _. false;
  delete_at = λ _ r. r;
  conflicts = λ a b. a.id == b.id || a.slug == b.slug;
}

-- The partial index `uq_listing_reports_listing_reporter_pending`
abbrev pub same_pending : ListingReport → ListingReport → Bool
same_pending a b =
    is_pending a.status
    && is_pending b.status
    && a.listing_id == b.listing_id
    && a.reporter_id == b.reporter_id

abbrev pub reports : Model ListingReport
reports = record {
  rows = λ db. db.reports;
  with_rows = λ rs db. record db { reports = rs };
  is_deleted = λ _. false;
  delete_at = λ _ r. r;
  conflicts = λ a b. a.id == b.id || same_pending a b;
}

unfoldable pub get_reason_by_id : ℕ → Action (Option ReportReason)
get_reason_by_id reason_id = Repository.get report_reasons (λ r. r.id == reason_id)

unfoldable pub get_by_slug : ℕ → Action (Option ReportReason)
get_by_slug slug = Repository.get report_reasons (λ r. r.slug == slug)

unfoldable pub create_reason_row : ReportReason → Action ReportReason
create_reason_row reason = Repository.add report_reasons reason

-- The fields of `ReportReasonUpdateRequest`; none is one that was not sent.
pub record ReasonUpdate : Type 0 where
  pub display_order : Option ℕ
  pub is_active : Option Bool

abbrev pub or_old : {A : Type 0} → Option A → A → A
or_old none old = old
or_old (some new) old = new

unfoldable pub update_reason_by_id : ℕ → ReasonUpdate → Action (Option ReportReason)
update_reason_by_id reason_id updates =
    Repository.update report_reasons (λ r. r.id == reason_id)
      (λ r. record r {
        display_order = or_old updates.display_order r.display_order;
        is_active = or_old updates.is_active r.is_active;
      })

unfoldable pub get_report_by_id : ℕ → Action (Option ListingReport)
get_report_by_id report_id = Repository.get reports (λ r. r.id == report_id)

abbrev pub new_report :
    (id now listing_id reporter_id reason_id : ℕ) → Option ℕ → ReportStatus → ListingReport
new_report id now listing_id reporter_id reason_id additional_info status = record {
  id = id;
  listing_id = listing_id;
  reporter_id = reporter_id;
  reason_id = reason_id;
  additional_info = additional_info;
  status = status;
  seen_at = none;
  seen_by_moderator_id = none;
  moderated_at = none;
  moderator_id = none;
  moderator_comment = none;
  created_at = now;
}

unfoldable pub create_report_row :
    (id now listing_id reporter_id reason_id : ℕ)
    → Option ℕ
    → ReportStatus
    → Action (Option ListingReport)
unfolding get_report_by_id
create_report_row id now listing_id reporter_id reason_id additional_info status = do
  report ←
      Repository.add reports
        (new_report id now listing_id reporter_id reason_id additional_info status)
  get_report_by_id report.id

unfoldable pub exists_pending : ℕ → ℕ → Action Bool
exists_pending listing_id reporter_id = do
  existing ←
      Repository.get reports
        (λ r. r.listing_id == listing_id && r.reporter_id == reporter_id && is_pending r.status)
  pure (is_some existing)

unfoldable pub mark_seen : (report_id moderator_id seen_at : ℕ) → Action Bool
mark_seen report_id moderator_id seen_at = do
  rowcount ←
      Repository.update_count reports (λ r. r.id == report_id && is_none r.seen_at)
        (λ r. record r { seen_at = some seen_at; seen_by_moderator_id = some moderator_id })
  pure (ltb 0 rowcount)

-- The values that the three resolving statements set
pub record Resolution : Type 0 where
  pub status : ReportStatus
  pub moderator_id : ℕ
  pub moderated_at : ℕ
  pub moderator_comment : Option ℕ

abbrev pub resolve : Resolution → ListingReport → ListingReport
resolve v r = record r {
  status = v.status;
  moderated_at = some v.moderated_at;
  moderator_id = some v.moderator_id;
  moderator_comment = v.moderator_comment;
  seen_at = if is_none r.seen_at then some v.moderated_at else r.seen_at;
  seen_by_moderator_id = if is_none r.seen_at then some v.moderator_id else r.seen_by_moderator_id;
}

unfoldable pub resolve_pending_by_id : ℕ → Resolution → Action Bool
resolve_pending_by_id report_id v = do
  rowcount ←
      Repository.update_count reports (λ r. r.id == report_id && is_pending r.status) (resolve v)
  pure (ltb 0 rowcount)

abbrev pub is_excluded : Option ℕ → ListingReport → Bool
is_excluded none r = false
is_excluded (some report_id) r = r.id == report_id

unfoldable pub resolve_pending_for_listing : ℕ → Resolution → Option ℕ → Action ℕ
resolve_pending_for_listing listing_id v exclude_report_id =
    Repository.update_count reports
      (λ r.
        r.listing_id == listing_id && is_pending r.status && not (is_excluded exclude_report_id r))
      (resolve v)

-- The subquery sees deleted listings too.
abbrev pub listed_by : ℕ → Database → ℕ → Bool
listed_by user_id db listing_id =
    some_row (λ l. l.user_id == user_id && l.id == listing_id) db.listings

unfoldable pub resolve_pending_for_user_listings : ℕ → Resolution → Option ℕ → Action ℕ
resolve_pending_for_user_listings user_id v exclude_report_id s =
    Repository.update_count reports
      (λ r.
        listed_by user_id s.working r.listing_id
        && is_pending r.status
        && not (is_excluded exclude_report_id r))
      (resolve v) s
