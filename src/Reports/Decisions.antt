-- ===== src/Reports/Decisions.antt =====
-- moderate_report with every decision: a report is decided once.
use kupio_backend.Base.{
  ℕ, ◌≡◌, refl, inl, inr, ⊤, Bool, true, false, ◌&&◌, not, Option, arith, ◌==◌, Bool-cases,
}
use kupio_backend.Base.Lists.{
  some_row_none, All, All-update_where, All-trivial, select, update_where, some_row,
  select-update_where, length-select,
}
use kupio_backend.Models.{Database}
use kupio_backend.Models.Users.{Moderator}
use kupio_backend.Models.Listings.{Listing}
use kupio_backend.Models.Reports.{
  ListingReport, ReportDecisionAction, ban_user, remove_listing, decline, is_pending,
}
use kupio_backend.Core.Errors.{listing_report_already_resolved}
use kupio_backend.Core.Action.{ok, err, opened, in_uow}
use kupio_backend.Core.Repository
use kupio_backend.Core.Repository.{fits}
use kupio_backend.Users
use kupio_backend.Listings
use kupio_backend.Reports.{moderate_report, decide, enforce, resolution_of}
use kupio_backend.Reports.Rows.{resolve_pending_by_id, resolve_pending_for_listing}
use kupio_backend.Reports.Moderation.{
  delete_listing, decide_rows, sweep, moderate_report-decided, decide_rows-free, sweep-free,
  sweep-closed, sweep-others,
}
use kupio_backend.Reports.Bans.{decide-IsBanned}

-- A pending report with this id
abbrev pub is_open : ℕ → Database → Bool
is_open report_id db = some_row (λ r. r.id == report_id && is_pending r.status) db.reports

module _ (comment : Option ℕ) (now : ℕ) (report : ListingReport) (listing : Listing)
    (moderator : Moderator) where
  decide_closed :
      (action : ReportDecisionAction) (db : Database)
      → is_open report.id db ≡ false
      → (decide action comment now report listing moderator (opened db)).0
          ≡ err listing_report_already_resolved
        × ((decide action comment now report listing moderator (opened db)).1.committed ≡ db)
  unfolding decide resolve_pending_by_id Repository.update_count
  decide_closed action db closed =
      rw (length-select (λ r. r.id == report.id && is_pending r.status) db.reports)
        (rw closed (refl, refl))

  -- A decision on a report that is not pending, whatever it is, is refused and changes nothing.
  pub moderate_report-closed :
      (action : ReportDecisionAction) (db : Database)
      → is_open report.id db ≡ false
      → moderate_report action comment now report listing moderator (opened db)
        ≡ (err listing_report_already_resolved, opened db)
  unfolding moderate_report in_uow
  moderate_report-closed action db closed =
      let (e, same) = decide_closed action db closed in rw (e, same) refl

  pub decline-state :
      (db : Database) (u : ⊤)
      → (decide decline comment now report listing moderator (opened db)).0 ≡ ok u
      → (decide decline comment now report listing moderator (opened db)).1.working.reports
        ≡ decide_rows report.id (resolution_of decline comment now moderator) db.reports
  unfolding decide enforce resolve_pending_by_id Repository.update_count Repository.update
      Users.touch_last_action
  decline-state db u h = ground arith

  pub remove-state :
      (db : Database) (u : ⊤)
      → (decide remove_listing comment now report listing moderator (opened db)).0 ≡ ok u
      → let s =
          (decide remove_listing comment now report listing moderator (opened db)).1.working in
        (s.reports
          ≡ sweep
              (λ listing_id. listing_id == report.listing_id)
              report.id
              (resolution_of remove_listing comment now moderator)
              (decide_rows report.id
                (resolution_of remove_listing comment now moderator)
                db.reports))
        × (s.listings
            ≡ update_where
                (fits Listings.listings (λ l. l.id == report.listing_id))
                (delete_listing now)
                db.listings)
        × (s.users ≡ db.users)
  unfolding decide enforce resolve_pending_by_id Repository.update_count Repository.update
      Users.touch_last_action resolve_pending_for_listing Listings.soft_delete_by_id
      Repository.soft_delete Repository.soft_delete_count
  remove-state db u h = (ground arith, ground arith, ground arith)

  decide_free :
      (action : ReportDecisionAction) (db : Database) (u : ⊤)
      → (decide action comment now report listing moderator (opened db)).0 ≡ ok u
      → All
          (λ r. (r.id == report.id && is_pending r.status) ≡ false)
          (decide action comment now report listing moderator (opened db)).1.working.reports
  decide_free decline db u h =
      rw (decline-state db u h) (decide_rows-free (λ _. true) report.id _ refl db.reports)
  decide_free remove_listing db u h =
      rw (remove-state db u h).0
        (sweep-free _ report.id _ refl _ (decide_rows-free (λ _. true) report.id _ refl db.reports))
  decide_free ban_user db u h =
      (decide-IsBanned comment now report listing moderator db u h).decided

  -- What holds once a listing was removed over a report: the listing is deleted, no report on it
  -- is pending, no user has changed, and the other listings and their reports are as they were.
  pub record IsRemoved (db db' : Database) : Type 0 where
    pub was_pending : is_open report.id db ≡ true
    pub closed :
        All (λ r. (r.listing_id == report.listing_id && is_pending r.status) ≡ false) db'.reports
    pub unlisted :
        All
          (λ l. (l.id == report.listing_id && not (Listings.listings.is_deleted l)) ≡ false)
          db'.listings
    pub users : db'.users ≡ db.users
    pub other_listings :
        select (λ l. not (l.id == report.listing_id)) db'.listings
        ≡ select (λ l. not (l.id == report.listing_id)) db.listings
    pub other_reports :
        select (λ r. not (r.id == report.id) && not (r.listing_id == report.listing_id)) db'.reports
        ≡ select
            (λ r. not (r.id == report.id) && not (r.listing_id == report.listing_id))
            db.reports

  decide-is_open :
      (action : ReportDecisionAction) (db : Database) (u : ⊤)
      → (decide action comment now report listing moderator (opened db)).0 ≡ ok u
      → is_open report.id db ≡ true
  decide-is_open action db u h = elim (Bool-cases (is_open report.id db)) [
    | inl pending ↦ pending
    | inr closed ↦ let (e, same) = decide_closed action db closed in absurd (ground arith)
  ]

  decide-IsRemoved :
      (db : Database) (u : ⊤)
      → (decide remove_listing comment now report listing moderator (opened db)).0 ≡ ok u
      → IsRemoved db
          (decide remove_listing comment now report listing moderator (opened db)).1.working
  decide-IsRemoved db u h =
      let (rs, ls, us) = remove-state db u h in
      let v = resolution_of remove_listing comment now moderator in
      let first = decide_rows-free (λ _. true) report.id v refl db.reports in
      record {
        was_pending = decide-is_open remove_listing db u h;
        closed = rw rs (sweep-closed (λ k. k == report.listing_id) report.id v refl _ first);
        unlisted =
            rw ls
              (All-update_where _ _ _ db.listings (λ x _. ground arith) (All-trivial db.listings));
        users = us;
        other_listings =
            rw ls (select-update_where _ _ _ db.listings (λ x e. (ground arith, ground arith)));
        other_reports = rw rs (
            sweep-others (λ k. k == report.listing_id) report.id v refl
              (λ k. k == report.listing_id) db.reports (λ k e. e));
      }

  -- A decision to remove the listing that returns was on a pending report, and leaves the listing
  -- deleted, no report on it pending, no user changed, and all other listings and the reports on
  -- them as they were.
  pub moderate_report-IsRemoved :
      (db : Database) (r : ListingReport)
      → (moderate_report remove_listing comment now report listing moderator (opened db)).0 ≡ ok r
      → IsRemoved db
          (moderate_report remove_listing comment now report listing moderator
            (opened db)).1.committed
  moderate_report-IsRemoved db r h =
      let (u, went, same) =
        moderate_report-decided remove_listing comment now report listing moderator db r h in
      rw same (decide-IsRemoved db u went)

-- A report is decided once: after a decision that returned, any further decision on the report, by
-- anyone, at any time, is refused and changes nothing.
pub moderate_report-moderate_report :
    (action action' : ReportDecisionAction) (comment comment' : Option ℕ) (now now' : ℕ)
    (report : ListingReport) (listing : Listing) (moderator moderator' : Moderator) (db : Database)
    (r : ListingReport)
    → (moderate_report action comment now report listing moderator (opened db)).0 ≡ ok r
    → let db' =
        (moderate_report action comment now report listing moderator (opened db)).1.committed in
      moderate_report action' comment' now' report listing moderator' (opened db')
      ≡ (err listing_report_already_resolved, opened db')
moderate_report-moderate_report action action' comment comment' now now' report listing moderator
      moderator' db r h =
    let (u, went, same) =
      moderate_report-decided action comment now report listing moderator db r h in
    moderate_report-closed comment' now' report listing moderator' action' _ (
      rw same
        (some_row_none _ _ (decide_free comment now report listing moderator action db u went)))
