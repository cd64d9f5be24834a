-- ===== src/Reports/Lists.antt =====
-- The lists of src/domains/reports/service.py and repository.py, and the counts of the dashboard.
use kupio_backend.Base.{
  ℕ, suc, ◌≡◌, ◌<◌, ◌/◌, ◌∙◌, Bool, true, false, ◌&&◌, ◌||◌, Option, none, some, List, ◌==◌, ltb,
  is_none, is_some,
}
use kupio_backend.Base.Lists.{UniqueBy, length, select}
use kupio_backend.Base.Sorted.{order_by, UniqueBy-select}
use kupio_backend.Models.Reports.{
  ReportReason, ListingReport, ReportStatus, pending, declined, listing_removed, user_banned,
  ReportSeenFilter,
}
use kupio_backend.Core.Action.{ok, Action, DbSession, ◌>>=◌, pure, lift}
use kupio_backend.Pagination.Cursors.{
  Codec, IsCodec, read_cursor, decode_int_cursor, encode_int_cursor,
}
use kupio_backend.Pagination.Keyset.{page, newest_first}
use kupio_backend.Pagination.Pages.{
  both_given, next_cursor, follow, lift_then, then_twice, read_page, follow-newest_first,
}
use kupio_backend.Pagination.RoundTrips.{decode_int_cursor-encode_int_cursor}
use kupio_backend.Reports.{resolve_seen_filter}

-- Reasons in the order in which they are shown
abbrev pub shown_before : ReportReason → ReportReason → Bool
shown_before a b =
    ltb a.display_order b.display_order || (a.display_order == b.display_order && ltb a.id b.id)

unfoldable pub list_all : Bool → Action (List ReportReason)
list_all include_inactive s = (
  ok (
      order_by shown_before
        (select (λ r. include_inactive || r.is_active) s.working.report_reasons)),
  s,
)

unfoldable pub list_active_reasons : Action (List ReportReason)
unfolding list_all
list_active_reasons = list_all false

unfoldable pub list_all_reasons : Action (List ReportReason)
unfolding list_all
list_all_reasons = list_all true

abbrev number_of : ReportStatus → ℕ
number_of pending = 0
number_of declined = 1
number_of listing_removed = 2
number_of user_banned = 3

abbrev pub has_status : Option ReportStatus → ListingReport → Bool
has_status none r = true
has_status (some status) r = number_of r.status == number_of status

abbrev pub is_seen : Option Bool → ListingReport → Bool
is_seen none r = true
is_seen (some true) r = is_some r.seen_at
is_seen (some false) r = is_none r.seen_at

abbrev pub listed : Option ReportStatus → Option Bool → ListingReport → Bool
listed status seen r = has_status status r && is_seen seen r

abbrev pub created_at : ListingReport → ℕ
created_at r = r.created_at

abbrev pub id : ListingReport → ℕ
id r = r.id

unfoldable pub list_report_rows :
    ℕ → Option ReportStatus → Option Bool → Option (ℕ × ℕ) → Action (List ListingReport)
list_report_rows limit status seen cursor s =
    (ok (page created_at id limit cursor (select (listed status seen) s.working.reports)), s)

pub record ReportsDashboardStats : Type 0 where
  pub new_today : ℕ
  pub no_action : ℕ
  pub unseen : ℕ

-- `func.date` of a time in seconds
abbrev date : ℕ → ℕ
date t = t / 86400

unfoldable pub get_dashboard_stats : ℕ → Action ReportsDashboardStats
get_dashboard_stats now s = (
  ok record {
    new_today = length (select (λ r. date r.created_at == date now) s.working.reports);
    no_action = length (select (has_status (some declined)) s.working.reports);
    unseen = length (select (is_seen (some false)) s.working.reports);
  },
  s,
)

pub record ListReportsResponse (Text : Type 0) : Type 0 where
  pub stats : ReportsDashboardStats
  pub reports : List ListingReport
  pub next_cursor : Option Text

module _ {Text J : Type 0} (lib : Codec Text J) (now : ℕ) (limit : ℕ) (status : Option ReportStatus)
    (seen : ReportSeenFilter) where
  unfoldable pub list_reports : Option Text → Action (ListReportsResponse Text)
  unfolding resolve_seen_filter list_report_rows get_dashboard_stats
  list_reports cursor = do
    given ← lift (read_cursor lib (decode_int_cursor lib) cursor)
    rows ← list_report_rows limit status (resolve_seen_filter seen) (both_given given)
    counts ← get_dashboard_stats now
    next ← next_cursor created_at id (encode_int_cursor lib) limit rows
    pure record { stats = counts; reports = rows; next_cursor = next }

  -- The reports and the cursor of the response
  abbrev pub page_of_reports : Option Text → Action (List ListingReport × Option Text)
  page_of_reports cursor = do
    response ← list_reports cursor
    pure (response.reports, response.next_cursor)

  abbrev pub matching : DbSession → List ListingReport
  matching s = select (listed status (resolve_seen_filter seen)) s.working.reports

  -- A moderator who hands back each next cursor gets every report with the status and the seen filter
  -- asked for, once, the newest first, and the list ends, whatever the page size above zero, where
  -- report ids are unique.
  pub follow-list_reports :
      IsCodec lib
      → (n fuel : ℕ) → limit ≡ suc n
      → (s : DbSession) → UniqueBy id s.working.reports
      → length (matching s) < fuel
      → follow page_of_reports fuel none s ≡ (ok (newest_first created_at id (matching s)), s)
  unfolding list_reports list_report_rows get_dashboard_stats read_page encode_int_cursor
  follow-list_reports sound n fuel full s unique low =
      follow-newest_first created_at id lib (decode_int_cursor lib) (encode_int_cursor lib) limit
        (matching s) s page_of_reports
        (λ cursor.
          then_twice _ _ (lift (read_cursor lib (decode_int_cursor lib) cursor)) s
          ∙ lift_then (read_cursor lib (decode_int_cursor lib) cursor) _ _ s (λ given.
            then_twice _ _
              (next_cursor created_at id (encode_int_cursor lib) limit
                (page created_at id limit (both_given given) (matching s)))
              s))
        (λ t i. sound.truthy-dumps _) (decode_int_cursor-encode_int_cursor lib sound) n fuel full
        (UniqueBy-select id _ s.working.reports unique) low
