-- ===== src/Reports/Filing.antt =====
-- create_report: which reports are accepted, and that the table stays in order.
use kupio_backend.Base.{
  ℕ, ◌≡◌, ◌≢◌, refl, sym, ap, inl, inr, Bool, true, false, ◌&&◌, Option, some, List, [], ◌∷◌, ◌++◌,
  arith, ◌==◌, is_none, is_some, Bool-cases, Option-cases,
}
use kupio_backend.Base.Lists.{All-mono, All-append, All-of-some_row, head?, select, some_row}
use kupio_backend.Base.Pairs.{AllPairs-append}
use kupio_backend.Models.{Database}
use kupio_backend.Models.Users.{User}
use kupio_backend.Models.Listings.{Listing}
use kupio_backend.Models.Reports.{ListingReport, ReportReason, is_pending, pending}
use kupio_backend.Core.Errors.{Error}
use kupio_backend.Core.Action.{Result, DbSession, ok, err, opened, in_uow}
use kupio_backend.Core.Repository
use kupio_backend.Core.Repository.{fits}
use kupio_backend.Reports.{create_report, other_slug, get_reason, again_if_pending}
use kupio_backend.Reports.Rows.{
  reports, report_reasons, new_report, exists_pending, get_reason_by_id, create_report_row,
  get_report_by_id,
}
use kupio_backend.Reports.Book.{IsReportBook, IsSettled}

abbrev reason_of : ℕ → Database → Option ReportReason
reason_of reason_id db =
    head? (select (fits report_reasons (λ r. r.id == reason_id)) db.report_reasons)

abbrev has_pending : (listing_id reporter_id : ℕ) → Database → Bool
has_pending listing_id reporter_id db = is_some (
    head? (
      select
        (fits reports
          (λ r. r.listing_id == listing_id && r.reporter_id == reporter_id && is_pending r.status))
        db.reports))

abbrev filed : ListingReport → Database → Database
filed r db = record db { reports = db.reports ++ r ∷ [] }

add_twice :
    (rs : List ListingReport) (new : ListingReport)
    → some_row (reports.conflicts new) rs ≡ false
    → head? (select (fits reports (λ r. r.id == new.id)) (rs ++ new ∷ [])) ≡ some new
unfolding some_row select
add_twice [] new h = ground arith
add_twice (r ∷ rs) new h = ground (arith, add_twice rs new)

module _ (id now : ℕ) (current_user : User) (listing : Listing) (reason_id : ℕ)
    (additional_info : Option ℕ) (db : Database) where
  abbrev report_on : ℕ → ListingReport
  report_on k = new_report id now listing.id current_user.id k additional_info pending

  -- What a report that was accepted tells: the listing is another user's, the reason is active,
  -- and the reason "other" comes with details; the reporter had no pending report on the listing;
  -- and the report is the only change.
  pub record IsFiled (report : ListingReport) (db' : Database) : Type 0 where
    pub not_own : listing.user_id ≢ current_user.id
    pub reason : ReportReason
    pub known : reason_of reason_id db ≡ some reason
    pub active : reason.is_active ≡ true
    pub detailed : (reason.slug == other_slug && is_none additional_info) ≡ false
    pub first : has_pending listing.id current_user.id db ≡ false
    pub values : report ≡ report_on reason.id
    pub added : db' ≡ filed report db

  -- Every way in which the request ends
  create_report-cases :
      (P : Result ListingReport × DbSession → Type 0)
      → ((e : Error) → P (err e, opened db))
      → ((reason : ReportReason)
          → listing.user_id ≢ current_user.id
          → reason_of reason_id db ≡ some reason
          → reason.is_active ≡ true
          → (reason.slug == other_slug && is_none additional_info) ≡ false
          → has_pending listing.id current_user.id db ≡ false
          → some_row (reports.conflicts (report_on reason.id)) db.reports ≡ false
          → P (ok (report_on reason.id), opened (filed (report_on reason.id) db)))
      → P (create_report id now current_user listing reason_id additional_info (opened db))
  unfolding create_report get_reason get_reason_by_id exists_pending Repository.get
      create_report_row Repository.add in_uow again_if_pending get_report_by_id
  create_report-cases P failed went = elim (Bool-cases (listing.user_id == current_user.id)) [
    | inl own ↦ rw own (failed _)
    | inr other ↦ rw other (elim (Option-cases (reason_of reason_id db)) [
      | inl missing ↦ rw missing (failed _)
      | inr (reason, found) ↦ rw found (elim (Bool-cases reason.is_active) [
        | inr inactive ↦ rw inactive (failed _)
        | inl active ↦
            rw active (elim (Bool-cases (reason.slug == other_slug && is_none additional_info)) [
              | inl bare ↦ rw bare (failed _)
              | inr detailed ↦
                  rw detailed (elim (Bool-cases (has_pending listing.id current_user.id db)) [
                    | inl twice ↦ rw twice (failed _)
                    | inr first ↦
                        rw first
                          (elim (Bool-cases
                            (some_row (reports.conflicts (report_on reason.id)) db.reports)) [
                              | inl clash ↦ rw clash (rw first (failed _))
                              | inr free ↦ rw free (
                                  rw (add_twice db.reports (report_on reason.id) free)
                                    (went reason (ground arith) found active detailed first free))
                            ])
                  ])
            ])
      ])
    ])
  ]

  -- A report that is accepted is about another user's listing, for an active reason, with details
  -- where the reason is "other", by a reporter with no pending report on it, and is all that is
  -- added to the database.
  pub create_report-IsFiled :
      (r : ListingReport)
      → (create_report id now current_user listing reason_id additional_info (opened db)).0 ≡ ok r
      → IsFiled r
          (create_report id now current_user listing reason_id additional_info
            (opened db)).1.committed
  create_report-IsFiled r =
      create_report-cases (λ q. q.0 ≡ ok r → IsFiled r q.1.committed) (λ e h. cc)
        (λ reason not_own known active detailed first free h.
          let same : report_on reason.id ≡ r = ground arith in
          record {
            not_own = not_own;
            reason = reason;
            known = known;
            active = active;
            detailed = detailed;
            first = first;
            values = sym same;
            added = ap (λ x. filed x db) same;
          })

  -- A report that is refused, with any error, changes nothing.
  pub create_report-err :
      (e : Error)
      → (create_report id now current_user listing reason_id additional_info (opened db)).0 ≡ err e
      → (create_report id now current_user listing reason_id additional_info (opened db)).1
        ≡ opened db
  create_report-err e =
      create_report-cases (λ q. q.0 ≡ err e → q.1 ≡ opened db) (λ _ _. refl)
        (λ reason not_own known active detailed first free h. cc)

  filed-IsReportBook :
      (new : ListingReport)
      → IsSettled new
      → some_row (reports.conflicts new) db.reports ≡ false
      → IsReportBook db.reports
      → IsReportBook (db.reports ++ new ∷ [])
  filed-IsReportBook new fine free book = record {
    settled = All-append _ db.reports (new ∷ []) book.settled (fine, tt);
    single =
        AllPairs-append _ db.reports new
          (All-mono db.reports (λ r k. ground arith) (All-of-some_row _ db.reports free))
          book.single;
  }

  -- However the filing of a report ends, the table of reports is in order afterwards if it was
  -- before: in particular no reporter has two pending reports of one listing.
  pub create_report-IsReportBook :
      IsReportBook db.reports
      → IsReportBook
          (create_report id now current_user listing reason_id additional_info
            (opened db)).1.committed.reports
  create_report-IsReportBook book =
      create_report-cases (λ q. IsReportBook q.1.committed.reports) (λ e. book)
        (λ reason not_own known active detailed first free.
          filed-IsReportBook (report_on reason.id) (refl, refl, refl, refl) free book)
