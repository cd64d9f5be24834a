-- ===== src/Reports/Book.antt =====
-- The invariant of the table of reports, and that filing, reading and deciding keep it.
use kupio_backend.Base.{
  ℕ, ◌≡◌, refl, inl, inr, ⊤, Bool, true, false, ◌&&◌, ◌||◌, Option, some, List, arith, ◌==◌,
  is_none, is_some, Bool-cases,
}
use kupio_backend.Base.Lists.{All, All-update_where, update_where}
use kupio_backend.Base.Pairs.{AllPairs, AllPairs-update_where}
use kupio_backend.Models.{Database}
use kupio_backend.Models.Users.{Moderator}
use kupio_backend.Models.Listings.{Listing}
use kupio_backend.Models.Reports.{
  ListingReport, ReportDecisionAction, ban_user, remove_listing, decline, is_pending,
}
use kupio_backend.Core.Action.{ok, opened}
use kupio_backend.Core.Transactions.{in_uow_then-holds}
use kupio_backend.Core.Repository
use kupio_backend.Core.Repository.{fits}
use kupio_backend.Users
use kupio_backend.Reports.{
  moderate_report, decide, enforce, get_report, get_report_detail, see, see_first, see_again,
}
use kupio_backend.Reports.Rows.{same_pending, Resolution, resolve, mark_seen, resolve_pending_by_id}
use kupio_backend.Reports.Moderation.{ban-state, get_report-reads}
use kupio_backend.Reports.Decisions.{decline-state, remove-state}

-- A report has a decision time unless it is pending, and was seen by a moderator if it was decided.
abbrev pub IsSettled : ListingReport → Type 0
IsSettled r =
    (is_pending r.status ≡ is_none r.moderated_at)
    × (is_none r.moderated_at ≡ is_none r.moderator_id)
    × (is_none r.seen_at ≡ is_none r.seen_by_moderator_id)
    × ((is_pending r.status || is_some r.seen_at) ≡ true)

-- All reports are settled, and no reporter has two pending reports of one listing.
pub record IsReportBook (rs : List ListingReport) : Type 0 where
  pub settled : All IsSettled rs
  pub single : AllPairs (λ a b. same_pending a b ≡ false) rs

resolve-IsReportBook :
    (p : ListingReport → Bool) (v : Resolution) (rs : List ListingReport)
    → is_pending v.status ≡ false
    → IsReportBook rs
    → IsReportBook (update_where p (resolve v) rs)
resolve-IsReportBook p v rs settles book = record {
  settled =
      All-update_where _ _ _ rs (λ r h. (ground arith, ground arith, ground arith, ground arith))
        book.settled;
  single = AllPairs-update_where _ _ _ _ rs (λ a b h. ground arith) book.single;
}

module _ (comment : Option ℕ) (now : ℕ) (report : ListingReport) (listing : Listing)
    (moderator : Moderator) (db : Database) where
  decide-local :
      (action : ReportDecisionAction)
      → (decide action comment now report listing moderator (opened db)).1.committed ≡ db
  unfolding decide resolve_pending_by_id enforce Repository.update_count Users.touch_last_action
      Repository.update
  decide-local decline = ground arith
  decide-local remove_listing = ground arith
  decide-local ban_user = ground arith

  decide-IsReportBook :
      (action : ReportDecisionAction) (u : ⊤)
      → (decide action comment now report listing moderator (opened db)).0 ≡ ok u
      → IsReportBook db.reports
      → IsReportBook
          (decide action comment now report listing moderator (opened db)).1.working.reports
  decide-IsReportBook decline u h book =
      rw (decline-state comment now report listing moderator db u h)
        (resolve-IsReportBook _ _ _ refl book)
  decide-IsReportBook remove_listing u h book =
      rw (remove-state comment now report listing moderator db u h).0
        (resolve-IsReportBook _ _ _ refl (resolve-IsReportBook _ _ _ refl book))
  decide-IsReportBook ban_user u h book =
      let (us, ls, rs) = ban-state comment now report listing moderator db u h in
      rw rs (resolve-IsReportBook _ _ _ refl (resolve-IsReportBook _ _ _ refl book))

  -- Whatever is decided about a report, with whatever rows the moderator has, and however the
  -- request ends, the table of reports is in order afterwards if it was before.
  pub moderate_report-IsReportBook :
      (action : ReportDecisionAction)
      → IsReportBook db.reports
      → IsReportBook
          (moderate_report action comment now report listing moderator
            (opened db)).1.committed.reports
  unfolding moderate_report
  moderate_report-IsReportBook action book =
      in_uow_then-holds (λ d. IsReportBook d.reports)
        (decide action comment now report listing moderator) (λ _. get_report report.id) db
        (λ _ s. get_report-reads report.id s) (decide-local action) book
        (λ u h. decide-IsReportBook action u h book)

module _ (now : ℕ) (report : ListingReport) (moderator : Moderator) (db : Database) where
  see_first-local : (see_first now report moderator (opened db)).1.committed ≡ db
  unfolding see_first see_again mark_seen Repository.update_count Users.touch_last_action
      Repository.update
  see_first-local = ground arith

  see_first-state :
      (see_first now report moderator (opened db)).1.working.reports
      ≡ update_where
          (λ r. r.id == report.id && is_none r.seen_at)
          (λ r. record r { seen_at = some now; seen_by_moderator_id = some moderator.id })
          db.reports
  unfolding see_first see_again mark_seen Repository.update_count Users.touch_last_action
      Repository.update
  see_first-state = ground arith

  see_again-local : (see_again now moderator (opened db)).1.committed ≡ db
  unfolding see_again Users.touch_last_action Repository.update
  see_again-local = ground arith

  see_again-state : (see_again now moderator (opened db)).1.working.reports ≡ db.reports
  unfolding see_again Users.touch_last_action Repository.update
  see_again-state = ground arith

  -- A moderator who opens a report leaves the table of reports in order if it was before.
  pub get_report_detail-IsReportBook :
      IsReportBook db.reports
      → IsReportBook (get_report_detail now report moderator (opened db)).1.committed.reports
  unfolding get_report_detail see
  get_report_detail-IsReportBook book = elim (Bool-cases (is_none report.seen_at)) [
    | inl new ↦ rw new (
        in_uow_then-holds (λ d. IsReportBook d.reports) (see_first now report moderator)
          (λ _. get_report report.id) db (λ _ s. get_report-reads report.id s) see_first-local book
          (λ u h. rw see_first-state (record {
            settled =
                All-update_where _ _ _ db.reports
                  (λ r k. (ground arith, ground arith, ground arith, ground arith)) book.settled;
            single = AllPairs-update_where _ _ _ _ db.reports (λ a b k. ground arith) book.single;
          })))
    | inr old ↦ rw old (
        in_uow_then-holds (λ d. IsReportBook d.reports) (see_again now moderator)
          (λ _. get_report report.id) db (λ _ s. get_report-reads report.id s) see_again-local book
          (λ u h. rw see_again-state book))
  ]
