-- ===== src/Reports/Bans.antt =====
-- moderate_report with BAN_USER.
use kupio_backend.Base.{ℕ, ◌≡◌, refl, sym, ◌∙◌, ap, ⊤, true, false, ◌&&◌, not, Option, arith, ◌==◌}
use kupio_backend.Base.Lists.{
  length-select, All, All-update_where, All-trivial, select, some_row, select-update_where,
}
use kupio_backend.Models.{Database}
use kupio_backend.Models.Users.{Moderator}
use kupio_backend.Models.Listings.{Listing}
use kupio_backend.Models.Reports.{ListingReport, ban_user, is_pending}
use kupio_backend.Core.Action.{ok, opened}
use kupio_backend.Users
use kupio_backend.Listings
use kupio_backend.Reports.{moderate_report, decide}
use kupio_backend.Reports.Rows.{listed_by}
use kupio_backend.Reports.Moderation.{
  ban, moderate_report-decided, ban-state, owned_listing-same, ban-pending, decide_rows-free,
  sweep-free, sweep-closed, sweep-others,
}

-- What holds once a user was banned over a report: the user and the user's listings are deleted,
-- no report on a listing of the user is pending, the report itself had been, and the other users,
-- listings and reports are as they were.
pub record IsBanned (owner report_id : ℕ) (db db' : Database) : Type 0 where
  pub was_pending : some_row (λ r. r.id == report_id && is_pending r.status) db.reports ≡ true
  pub closed :
      All (λ r. (listed_by owner db' r.listing_id && is_pending r.status) ≡ false) db'.reports
  pub decided : All (λ r. (r.id == report_id && is_pending r.status) ≡ false) db'.reports
  pub banned : All (λ u. (u.id == owner && not (Users.users.is_deleted u)) ≡ false) db'.users
  pub unlisted :
      All (λ l. (l.user_id == owner && not (Listings.listings.is_deleted l)) ≡ false) db'.listings
  pub other_users :
      select (λ u. not (u.id == owner)) db'.users ≡ select (λ u. not (u.id == owner)) db.users
  pub other_listings :
      select (λ l. not (l.user_id == owner)) db'.listings
      ≡ select (λ l. not (l.user_id == owner)) db.listings
  pub other_reports :
      select (λ r. not (r.id == report_id) && not (listed_by owner db r.listing_id)) db'.reports
      ≡ select (λ r. not (r.id == report_id) && not (listed_by owner db r.listing_id)) db.reports

module _ (comment : Option ℕ) (now : ℕ) (report : ListingReport) (listing : Listing)
    (moderator : Moderator) (db : Database) where
  pub decide-IsBanned :
      (u : ⊤)
      → (decide ban_user comment now report listing moderator (opened db)).0 ≡ ok u
      → IsBanned listing.user_id report.id db
          (decide ban_user comment now report listing moderator (opened db)).1.working
  decide-IsBanned u h =
      let (us, ls, rs) = ban-state comment now report listing moderator db u h in
      let owner = listing.user_id in
      let v = ban comment now report listing moderator db in
      let owned =
        listed_by owner
          (decide ban_user comment now report listing moderator (opened db)).1.working in
      let first = decide_rows-free owned report.id v refl db.reports in
      record {
        was_pending =
            sym (length-select _ db.reports)
            ∙ ban-pending comment now report listing moderator db u h;
        closed = rw rs (sweep-closed owned report.id v refl _ first);
        decided = rw rs (sweep-free owned report.id v refl _ first);
        banned =
            rw us (All-update_where _ _ _ db.users (λ x _. ground arith) (All-trivial db.users));
        unlisted =
            rw ls
              (All-update_where _ _ _ db.listings (λ x _. ground arith) (All-trivial db.listings));
        other_users =
            rw us (select-update_where _ _ _ db.users (λ x e. (ground arith, ground arith)));
        other_listings =
            rw ls (select-update_where _ _ _ db.listings (λ x e. (ground arith, ground arith)));
        other_reports = rw rs (
            sweep-others owned report.id v refl (listed_by owner db) db.reports (λ listing_id e.
              sym (owned_listing-same comment now report listing moderator db owner listing_id)
              ∙ ap (λ x. some_row (λ l. l.user_id == owner && l.id == listing_id) x) (sym ls)
              ∙ e));
      }

  -- A decision to ban that returns was on a pending report, and leaves the owner of the reported
  -- listing and every listing of the owner deleted, no report on such a listing pending, and all
  -- other users, listings and reports as they were.
  pub moderate_report-IsBanned :
      (r : ListingReport)
      → (moderate_report ban_user comment now report listing moderator (opened db)).0 ≡ ok r
      → IsBanned listing.user_id report.id db
          (moderate_report ban_user comment now report listing moderator (opened db)).1.committed
  moderate_report-IsBanned r h =
      let (u, went, same) =
        moderate_report-decided ban_user comment now report listing moderator db r h in
      rw same (decide-IsBanned u went)
