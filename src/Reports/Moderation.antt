-- ===== src/Reports/Moderation.antt =====
-- moderate_report: what a decision does to reports, listings and users.
use kupio_backend.Base.{
  ℕ, ◌≡◌, refl, ◌∙◌, ap, inl, inr, Option-cases, ⊤, Bool, true, false, ◌&&◌, not, Option, some,
  List, arith, ◌==◌, ltb,
}
use kupio_backend.Base.Lists.{
  All, head?, All-update_where, All-trivial, length, select, update_where, some_row-update_where,
  select-update_where,
}
use kupio_backend.Models.{Database}
use kupio_backend.Models.Users.{User, Moderator}
use kupio_backend.Models.Listings.{Listing}
use kupio_backend.Models.Reports.{ListingReport, ReportDecisionAction, ban_user, is_pending}
use kupio_backend.Core.Action.{DbSession, ok, opened}
use kupio_backend.Core.Transactions.{in_uow_then-ok}
use kupio_backend.Core.Repository
use kupio_backend.Core.Repository.{fits}
use kupio_backend.Users
use kupio_backend.Listings
use kupio_backend.Reports.{moderate_report, decide, enforce, resolution_of, get_report}
use kupio_backend.Reports.Rows.{
  reports, Resolution, resolve, listed_by, resolve_pending_by_id, resolve_pending_for_user_listings,
  get_report_by_id,
}

abbrev pub delete_user : ℕ → User → User
delete_user now u = record u { deleted_at = some now }

abbrev pub delete_listing : ℕ → Listing → Listing
delete_listing now l = record l { deleted_at = some now }

-- The first statement of a decision
abbrev pub decide_rows : ℕ → Resolution → List ListingReport → List ListingReport
decide_rows report_id v = update_where (λ r. r.id == report_id && is_pending r.status) (resolve v)

abbrev pub sweep : (ℕ → Bool) → ℕ → Resolution → List ListingReport → List ListingReport
sweep p report_id v =
    update_where (λ r. p r.listing_id && is_pending r.status && not (r.id == report_id)) (resolve v)

pub get_report-reads : (report_id : ℕ) (s : DbSession) → (get_report report_id s).1 ≡ s
unfolding get_report get_report_by_id Repository.get
get_report-reads report_id s =
    elim (Option-cases (head? (select (fits reports (λ r. r.id == report_id)) s.working.reports))) [
      | inl missing ↦ rw missing refl
      | inr (r, found) ↦ rw found refl
    ]

module _ (action : ReportDecisionAction) (comment : Option ℕ) (now : ℕ) (report : ListingReport)
    (listing : Listing) (moderator : Moderator) (db : Database) where
  pub moderate_report-decided :
      (r : ListingReport)
      → (moderate_report action comment now report listing moderator (opened db)).0 ≡ ok r
      → (u : ⊤) × ((decide action comment now report listing moderator (opened db)).0 ≡ ok u)
        × ((moderate_report action comment now report listing moderator (opened db)).1.committed
            ≡ (decide action comment now report listing moderator (opened db)).1.working)
  unfolding moderate_report get_report get_report_by_id Repository.get
  moderate_report-decided r h =
      let (u, went, same) =
        in_uow_then-ok (decide action comment now report listing moderator)
          (λ _. get_report report.id) (opened db) r h in
      (u, went, ap (λ q. q.1.committed) same ∙ ap (λ s. s.committed) (get_report-reads report.id _))

module _ (comment : Option ℕ) (now : ℕ) (report : ListingReport) (listing : Listing)
    (moderator : Moderator) (db : Database) where
  abbrev pub ban : Resolution
  ban = resolution_of ban_user comment now moderator

  pub ban-state :
      (u : ⊤)
      → (decide ban_user comment now report listing moderator (opened db)).0 ≡ ok u
      → let db' = (decide ban_user comment now report listing moderator (opened db)).1.working in
        (db'.users
          ≡ update_where
              (fits Users.users (λ u. u.id == listing.user_id))
              (delete_user now)
              db.users)
        × (db'.listings
            ≡ update_where
                (fits Listings.listings (λ l. l.user_id == listing.user_id))
                (delete_listing now)
                db.listings)
        × (db'.reports
            ≡ sweep
                (listed_by listing.user_id (record db { listings = db'.listings }))
                report.id
                ban
                (decide_rows report.id ban db.reports))
  unfolding decide enforce resolve_pending_by_id resolve_pending_for_user_listings
      Repository.update_count Repository.update Users.soft_delete_by_id Users.touch_last_action
      Listings.soft_delete_by_user_id Repository.soft_delete Repository.soft_delete_count
  ban-state u h = (ground arith, ground arith, ground arith)

  pub owned_listing-same :
      (owner listing_id : ℕ)
      → listed_by owner
          (record db {
            listings =
                update_where
                  (fits Listings.listings (λ l. l.user_id == owner))
                  (delete_listing now)
                  db.listings;
          })
          listing_id
        ≡ listed_by owner db listing_id
  owned_listing-same owner listing_id =
      some_row-update_where (λ l. l.user_id == owner && l.id == listing_id)
        (fits Listings.listings (λ l. l.user_id == owner)) (delete_listing now) db.listings
        (λ l. refl)

  pub ban-pending :
      (u : ⊤)
      → (decide ban_user comment now report listing moderator (opened db)).0 ≡ ok u
      → ltb 0 (length (select (λ r. r.id == report.id && is_pending r.status) db.reports)) ≡ true
  unfolding decide resolve_pending_by_id Repository.update_count
  ban-pending u h = ground arith

module _ (p : ℕ → Bool) (report_id : ℕ) (v : Resolution)
    (settles : is_pending v.status ≡ false) where
  pub decide_rows-free :
      (rs : List ListingReport)
      → All (λ r. (r.id == report_id && is_pending r.status) ≡ false) (decide_rows report_id v rs)
  decide_rows-free rs = All-update_where _ _ _ rs (λ r _. ground arith) (All-trivial rs)

  pub sweep-free :
      (rs : List ListingReport)
      → All (λ r. (r.id == report_id && is_pending r.status) ≡ false) rs
      → All (λ r. (r.id == report_id && is_pending r.status) ≡ false) (sweep p report_id v rs)
  sweep-free rs h = All-update_where _ _ _ rs (λ r k. ground arith) h

  pub sweep-closed :
      (rs : List ListingReport)
      → All (λ r. (r.id == report_id && is_pending r.status) ≡ false) rs
      → All (λ r. (p r.listing_id && is_pending r.status) ≡ false) (sweep p report_id v rs)
  sweep-closed rs h = All-update_where _ _ _ rs (λ r k. ground arith) h

  pub sweep-others :
      (q : ℕ → Bool) (rs : List ListingReport)
      → ((listing_id : ℕ) → p listing_id ≡ true → q listing_id ≡ true)
      → select
          (λ r. not (r.id == report_id) && not (q r.listing_id))
          (sweep p report_id v (decide_rows report_id v rs))
        ≡ select (λ r. not (r.id == report_id) && not (q r.listing_id)) rs
  sweep-others q rs sub =
      select-update_where _ _ _ _
        (λ r h. let hit = sub r.listing_id in (ground (arith, hit), ground (arith, hit)))
      ∙ select-update_where _ _ _ rs (λ r h. (ground arith, ground arith))
